-- ===== src/MessageReader/RoundTrip.antt =====
-- OriginalLinuxCode/MessageReader.c: `unpackMessage` of what `PackMessage` wrote.
use qmsp.Base.{
  ℕ, zero, suc, ◌+◌, ◌-◌, ◌*◌, ◌<◌, ◌≤◌, ◌≡◌, refl, sym, ap, ◌∙◌, arith, List, [], ◌∷◌, ◌++◌, some,
}
use qmsp.Base.{append_assoc, append-nil, length, length-append, drop, drop-append_self}
use mathlib.Core.Path.{subst}
use qmsp.Base.Memory.{Platform, Allocator}
use qmsp.VariableLengthInt.{unpack_log_var_int}
use qmsp.VariableLengthInt.AnyInput.{lvi_size_bounds}
use qmsp.Frames.Pack.{Frame}
use qmsp.Frames.Pack.Laws.{length-tmd_bytes}
use qmsp.Frames.RoundTrip.{read_lvi, read-tmd_bytes, unpack_tmd-eq, tmd_line}
use qmsp.Frames.Plaintext.{IsText, ended_bytes, length-counted_bytes, length-ended_bytes}
use qmsp.Frames.Plaintext.RoundTrip.{
  counted_line, ended_line, unpack-counted_bytes, unpack-ended_bytes,
}
use qmsp.Frames.Extract.{Slot, unpack_one, entry, extract_loop, extract_frames, frames}
use qmsp.MessageReader.Wire.{Whole, tmd, told, whole, open_end, Frames, only, front, Gives}

-- What one round of `extractFrames` reads at the place `cur` of the bytes.
abbrev ReadsAs : Allocator → List ℕ → ℕ → Slot → ℕ → Type 0
ReadsAs a bytes cur s end =
    (type : ℕ) × (unpack_log_var_int (drop cur bytes) ≡ some type)
    × ((last_end : ℕ) → unpack_one a type bytes cur last_end ≡ some (s, end))

Whole-ReadsAs :
    {p : Platform} {f : Frame} {bytes : List ℕ} {s : Slot} (a : Allocator) (done rest : List ℕ)
    → Gives a
    → Whole p f bytes s
    → ReadsAs a (done ++ (bytes ++ rest)) (length done) s (length done + (length bytes - 1))
unfolding unpack_one entry
Whole-ReadsAs {p} {bytes = bytes} a done rest gives (tmd f h) =
    let (b, got) = gives 28 in
    let here : drop (length done) (done ++ (bytes ++ rest)) ≡ bytes ++ rest =
      drop-append_self (length done) done (bytes ++ rest) refl in
    (
      0,
      rw (here, tmd_line p f rest)
          (read_lvi p f.type _ (omega (arith, h.type_zero)) ∙ ap some h.type_zero),
      λ last_end. rw (here, unpack_tmd-eq a (bytes ++ rest) b got, read-tmd_bytes p f rest h) refl,
    )
Whole-ReadsAs {p} {bytes = bytes} a done rest gives (told text h) =
    let (b₁, got₁) = gives 16 in
    let (b₂, got₂) = gives (16 + length text) in
    let here : drop (length done) (done ++ (bytes ++ rest)) ≡ bytes ++ rest =
      drop-append_self (length done) done (bytes ++ rest) refl in
    (
      3,
      rw (here, counted_line p text rest) (read_lvi p 3 _ (omega arith)),
      λ last_end. rw (here, unpack-counted_bytes p a text rest b₁ b₂ h got₁ got₂) refl,
    )

open_end-ReadsAs :
    (p : Platform) (a : Allocator) (done text : List ℕ)
    → Gives a
    → IsText text
    → ReadsAs a
        (done ++ ended_bytes p text)
        (length done)
        (Slot.plaintext (record { type = 2; length = length text; txtdta = text }))
        (length done + (length (ended_bytes p text) - 2))
unfolding unpack_one entry
open_end-ReadsAs p a done text gives h =
    let (b₁, got₁) = gives 16 in
    let (b₂, got₂) = gives (16 + length text) in
    let bytes = ended_bytes p text in
    let here : drop (length done) (done ++ bytes) ≡ bytes ++ [] =
      drop-append_self (length done) done bytes refl ∙ sym (append-nil bytes) in
    (
      2,
      rw (here, ended_line p text []) (read_lvi p 2 _ (omega arith)),
      λ last_end. rw (here, unpack-ended_bytes p a text [] b₁ b₂ h got₁ got₂) refl,
    )

Whole-size :
    {p : Platform} {f : Frame} {bytes : List ℕ} {s : Slot} → Whole p f bytes s → 2 ≤ length bytes
Whole-size {p} (tmd f h) = omega (arith, length-tmd_bytes p f)
Whole-size {p} (told text h) =
    omega (arith, length-counted_bytes p text, lvi_size_bounds (length text))

Frames-size :
    {p : Platform} {fs : List Frame} {bytes : List ℕ} {ss : List Slot}
    → Frames p fs bytes ss
    → 2 ≤ length bytes
Frames-size (only (whole h)) = Whole-size h
Frames-size {p} (only (open_end n text behind h)) = omega (arith, length-ended_bytes p text)
Frames-size (front {bytes} {rest} h hs) = omega (arith, length-append bytes rest, Whole-size h)

loop_round :
    (a : Allocator) (fuel count cur last_end n end : ℕ) (bytes : List ℕ) (s : Slot)
    (acc : List Slot)
    → Gives a
    → ReadsAs a bytes cur s end
    → last_end + 2 < count
    → extract_loop a (suc fuel) count bytes cur last_end n acc
      ≡ extract_loop a fuel count bytes (end + 1) end (n + 1) (acc ++ (s ∷ []))
unfolding extract_loop
loop_round a fuel count cur last_end n end bytes s acc gives (type, typed, reads) more =
    let (b, got) = gives (n * 8) in ground (arith, got, typed, reads last_end)

loop_done :
    (a : Allocator) (fuel count cur last_end n : ℕ) (bytes : List ℕ) (acc : List Slot)
    → count ≤ last_end + 2
    → extract_loop a (suc fuel) count bytes cur last_end n acc ≡ frames acc
unfolding extract_loop
loop_done a fuel count cur last_end n bytes acc end = ground arith

loop_last :
    (a : Allocator) (fuel count cur last_end n end : ℕ) (bytes : List ℕ) (s : Slot)
    (acc : List Slot)
    → Gives a
    → ReadsAs a bytes cur s end
    → last_end + 2 < count
    → count ≤ end + 2
    → extract_loop a (suc (suc fuel)) count bytes cur last_end n acc ≡ frames (acc ++ (s ∷ []))
loop_last a fuel count cur last_end n end bytes s acc gives reads more over =
    loop_round a (suc fuel) count cur last_end n end bytes s acc gives reads more
    ∙ loop_done a fuel count (end + 1) end (n + 1) bytes (acc ++ (s ∷ [])) over

-- The loop from the place behind `done` on, with one round for each frame and one more.
extract_loop-Frames :
    {p : Platform} {fs : List Frame} {bytes : List ℕ} {ss : List Slot} (a : Allocator)
    (fuel count cur last_end n : ℕ) (done all : List ℕ) (acc : List Slot)
    → Gives a
    → Frames p fs bytes ss
    → length ss < fuel
    → last_end + 2 < count
    → count ≡ length done + length bytes
    → cur ≡ length done
    → all ≡ done ++ bytes
    → extract_loop a fuel count all cur last_end n acc ≡ frames (acc ++ ss)
extract_loop-Frames a zero count cur last_end n done all acc gives h enough more ends at line =
    absurd (omega arith)
extract_loop-Frames a (suc zero) count cur last_end n done all acc gives (only h) enough more ends
      at line =
    absurd (omega arith)
extract_loop-Frames {p} {bytes = bytes} a (suc (suc fuel)) count cur last_end n done all acc gives
      (only {s} (whole h)) enough more ends at line =
    rw (line, at)
      (loop_last a fuel count (length done) last_end n (length done + (length bytes - 1))
        (done ++ bytes) s acc gives
        (subst (λ l. ReadsAs a (done ++ l) (length done) s (length done + (length bytes - 1)))
          (append-nil bytes) (Whole-ReadsAs a done [] gives h))
        more (omega (arith, Whole-size h)))
extract_loop-Frames {p} a (suc (suc fuel)) count cur last_end n done all acc gives
      (only (open_end m text behind h)) enough more ends at line =
    rw (line, at)
      (loop_last a fuel count (length done) last_end n
        (length done + (length (ended_bytes p text) - 2)) (done ++ ended_bytes p text) _ acc gives
        (open_end-ReadsAs p a done text gives h) more (omega (arith, length-ended_bytes p text)))
extract_loop-Frames {p} a (suc fuel) count cur last_end n done all acc gives
      (front {bytes} {rest} {s} {fs} {ss} h hs) enough more ends at line =
    let end = length done + (length bytes - 1) in
    let both = length-append bytes rest in
    let size = Whole-size h in
    let small = Frames-size hs in
    rw (line, at)
      (loop_round a fuel count (length done) last_end n end (done ++ (bytes ++ rest)) s acc gives
          (Whole-ReadsAs a done rest gives h) more
        ∙ extract_loop-Frames a fuel count (end + 1) end (n + 1) (done ++ bytes)
            (done ++ (bytes ++ rest)) (acc ++ (s ∷ [])) gives hs (omega arith) (omega arith)
            (omega (arith, length-append done bytes)) (omega (arith, length-append done bytes))
            (sym (append_assoc done bytes rest))
        ∙ ap frames (append_assoc acc (s ∷ []) ss))

-- The frames of a message are extracted from their bytes, in order and each of them, where there
-- are three bytes at least, memory never runs out, and the loop is given a round more than frames.
pub extract_frames-Frames :
    (p : Platform) (a : Allocator) (fuel : ℕ) (fs : List Frame) (bytes : List ℕ) (ss : List Slot)
    → Gives a
    → Frames p fs bytes ss
    → 3 ≤ length bytes
    → length ss < fuel
    → extract_frames a fuel (length bytes) bytes ≡ frames ss
unfolding extract_frames
extract_frames-Frames p a fuel fs bytes ss gives h few enough =
    extract_loop-Frames a fuel (length bytes) 0 0 1 [] bytes [] gives h enough (omega arith)
      (omega arith) refl refl
