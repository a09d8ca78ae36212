-- ===== src/MessageReader/Pack.antt =====
-- OriginalLinuxCode/MessageReader.c: what `PackMessage` writes.
use qmsp.Base.{ℕ, ◌+◌, ◌^◌, ◌<◌, ◌≡◌, refl, sym, ap, ◌∙◌, arith, List, [], ◌∷◌, ◌++◌, some}
use qmsp.Base.{
  append_assoc, append-nil, length, length-append, length-drop, length-eq-zero, take-length, drop,
}
use qmsp.Base.Memory.{Platform, Allocator}
use qmsp.Frames.Pack.{Frame}
use qmsp.Frames.Extract.{Slot}
use qmsp.MessageReader.{add_sizes, realloc, write_frames, pack_message}
use qmsp.MessageReader.Wire.{Last, whole, Frames, only, front, Last-size, Last-Appends}

add_one_size :
    {p : Platform} {f : Frame} {bytes : List ℕ} {s : Slot} (fs : List Frame) (cur_len : ℕ)
    → Last p f bytes s
    → cur_len + length bytes < 2 ^ 64
    → add_sizes (f ∷ fs) cur_len ≡ add_sizes fs (cur_len + length bytes)
unfolding add_sizes
add_one_size fs cur_len h fits = rw (Last-size h) (ap (add_sizes fs) (omega arith))

pub add_sizes-Frames :
    {p : Platform} {fs : List Frame} {bytes : List ℕ} {ss : List Slot} (cur_len : ℕ)
    → Frames p fs bytes ss
    → cur_len + length bytes < 2 ^ 64
    → add_sizes fs cur_len ≡ some (cur_len + length bytes)
add_sizes-Frames cur_len (only h) fits = add_one_size [] cur_len h fits ∙ unfold add_sizes in refl
add_sizes-Frames {p} cur_len (front {f} {bytes} {rest} {s} {fs} h hs) fits =
    let both = length-append bytes rest in
    add_one_size fs cur_len (whole h) (omega arith)
    ∙ add_sizes-Frames (cur_len + length bytes) hs (omega arith)
    ∙ ap some (omega arith)

write_one :
    {p : Platform} {f : Frame} {bytes : List ℕ} {s : Slot} (fs : List Frame) (done rest : List ℕ)
    (left : ℕ)
    → Last p f bytes s
    → length rest ≡ length bytes + left
    → (rest' : List ℕ) × (length rest' ≡ left)
      × (write_frames p (f ∷ fs) (done ++ rest) (some (length done))
          ≡ write_frames p fs ((done ++ bytes) ++ rest') (some (length (done ++ bytes))))
unfolding write_frames
write_one {p} {bytes = bytes} fs done rest left h fits =
    let (rest', l, eq) = Last-Appends h done rest left fits in
    (
      rest',
      l,
      rw eq (
          ap (λ n. write_frames p fs ((done ++ bytes) ++ rest') (some n))
            (sym (length-append done bytes))),
    )

pub write_frames-Frames :
    {p : Platform} {fs : List Frame} {bytes : List ℕ} {ss : List Slot} (done rest : List ℕ)
    → Frames p fs bytes ss
    → length rest ≡ length bytes
    → write_frames p fs (done ++ rest) (some (length done)) ≡ some (done ++ bytes)
write_frames-Frames {p} {bytes = bytes} done rest (only h) fits =
    let (rest', l, eq) = write_one [] done rest 0 h (omega arith) in
    eq
    ∙ (unfold write_frames in
        ap some
          (ap (λ r. (done ++ bytes) ++ r) (length-eq-zero rest' l) ∙ append-nil (done ++ bytes)))
write_frames-Frames {p} done rest (front {f} {bytes} {rest = more} {s} {fs} h hs) fits =
    let (rest', l, eq) =
      write_one fs done rest (length more) (whole h) (omega (arith, length-append bytes more)) in
    eq ∙ write_frames-Frames (done ++ bytes) rest' hs l ∙ ap some (append_assoc done bytes more)

-- Packing a header with frames that can be sent, whose bytes together are fewer than 2 ^ 64, gives
-- the header and the frames' bytes one after the other, where `realloc` gives a block: every write
-- is inside it, and it is filled.
pub pack_message-Frames :
    (p : Platform) (a : Allocator) (header bytes block : List ℕ) (fs : List Frame) (ss : List Slot)
    → Frames p fs bytes ss
    → length header + length bytes < 2 ^ 64
    → a.malloc (length header + length bytes) ≡ some block
    → pack_message p a header fs (length header) ≡ some (header ++ bytes)
unfolding pack_message realloc
pack_message-Frames p a header bytes block fs ss h fits got =
    let n = length header in
    let size = length header + length bytes in
    rw (add_sizes-Frames n h fits, got, take-length header size (omega arith))
      (write_frames-Frames header (drop n block) h
        (omega (arith, a.length-malloc size block got, length-drop n block)))
