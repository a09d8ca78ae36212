-- ===== src/Linux/Extract.antt =====
-- OriginalLinuxCode/Frames.c and Frames.c: the messages off which both read the same frames, and those
-- on which the program's loop does not end.
use mathlib.Core.Path.{fun_ext, subst}
use qmsp.Base.{
  ℕ, zero, suc, ◌+◌, ◌*◌, ◌≤◌, ◌<◌, ◌≡◌, ◌≢◌, refl, sym, ap, ◌∙◌, arith, Option, none, some, List,
  [], ◌∷◌, ◌++◌, ◌⊎◌, inl, inr, All, drop, ◌>>=◌, ◌-◌, true, false, ltb, Option-cases, none-some,
  Bool-cases,
}
use qmsp.Base.Memory.{Platform, Allocator}
use qmsp.VariableLengthInt.{unpack_log_var_int, get_size_of_lvi_to_pack}
use qmsp.Frames.{
  TransitMetadataFrame, PlaintextFrame, read_bytes, read_transit_metadata, unpack_transit_metadata,
  text_extent, unpack_plaintext,
}
use qmsp.Frames.Extract.{
  Slot, null, unset, Extracted, frames, fault, stuck, entry, unpack_one, extract_loop,
  extract_frames,
}
use qmsp.Frames.Stuck.{post_metadata_never}
use qmsp.Linux.{linux_unpack_log_var_int, linux_get_size_of_lvi_to_pack}
use qmsp.Linux.Integers.{unpack_log-linux, size_lvi-linux}
use qmsp.Linux.Frames.{
  linux_read_transit, linux_unpack_transit, linux_text_extent, linux_unpack_plaintext,
  linux_unpack_one, linux_extract_loop, linux_extract_frames,
}

unpack_same : (p : Platform) → linux_unpack_log_var_int p ≡ unpack_log_var_int
unpack_same p = fun_ext (unpack_log-linux p)

size_same : linux_get_size_of_lvi_to_pack ≡ get_size_of_lvi_to_pack
size_same = fun_ext size_lvi-linux

read_same :
    (p : Platform) (bytes : List ℕ) → linux_read_transit p bytes ≡ read_transit_metadata bytes
unfolding linux_read_transit read_transit_metadata
read_same p bytes = rw (unpack_same p, size_same) refl

transit_same :
    (p : Platform) (a : Allocator) (bytes : List ℕ)
    → linux_unpack_transit p a bytes ≡ unpack_transit_metadata a bytes
unfolding linux_unpack_transit unpack_transit_metadata
transit_same p a bytes =
    ap
      (λ (r : Option (TransitMetadataFrame × ℕ)). elim (a.malloc 28) [
        | none ↦ some none
        | some block ↦ r >>= λ f. some (some f)
      ])
      (read_same p bytes)

extent_same :
    (p : Platform) (type : ℕ) (bytes : List ℕ)
    → linux_text_extent p type bytes ≡ text_extent type bytes
unfolding linux_text_extent text_extent
extent_same p type bytes = rw (unpack_same p, size_same) refl

-- `unpackPlaintext`, by what reads an integer and the extent of the text.
plaintext_by :
    (List ℕ → Option ℕ)
    → (ℕ → List ℕ → Option (ℕ × ℕ))
    → Allocator
    → List ℕ
    → Option (Option (PlaintextFrame × ℕ))
plaintext_by unpack extent a frame_start = elim (a.malloc 16) [
  | none ↦ some none
  | some block ↦ do
    type ← unpack frame_start
    (hold, off) ← extent type frame_start
    elim (a.malloc (16 + hold)) [
      | none ↦ some none
      | some tempy ↦ do
        text ← read_bytes hold (drop off frame_start)
        some (some (record { type = type; length = hold; txtdta = text }, off + hold - 1))
    ]
]

plaintext_same :
    (p : Platform) (a : Allocator) (bytes : List ℕ)
    → linux_unpack_plaintext p a bytes ≡ unpack_plaintext a bytes
unfolding linux_unpack_plaintext unpack_plaintext plaintext_by
plaintext_same p a bytes =
    ap (λ (unpack : List ℕ → Option ℕ). plaintext_by unpack (linux_text_extent p) a bytes)
      (unpack_same p)
    ∙ ap (λ (extent : ℕ → List ℕ → Option (ℕ × ℕ)). plaintext_by unpack_log_var_int extent a bytes)
        (fun_ext (λ type. fun_ext (extent_same p type)))

-- The two `switch`es agree but for frames of type 1.
one_same :
    (p : Platform) (a : Allocator) (type : ℕ) (bytes : List ℕ) (cur last_end : ℕ)
    → type ≢ 1
    → linux_unpack_one p a type bytes cur last_end ≡ unpack_one a type bytes cur last_end
unfolding linux_unpack_one unpack_one
one_same p a type bytes cur last_end other =
    ground (arith, other, transit_same p a (drop cur bytes), plaintext_same p a (drop cur bytes))

one_post :
    (a : Allocator) (bytes : List ℕ) (cur last_end : ℕ)
    → (unpack_one a 1 bytes cur last_end ≡ none)
      ⊎ (unpack_one a 1 bytes cur last_end ≡ some (null, last_end))
unfolding unpack_one entry
one_post a bytes cur last_end = elim (post_metadata_never a (drop cur bytes)) [
  | inl e ↦ inl (rw e refl)
  | inr e ↦ inr (rw e refl)
]

-- An entry that has been written.
abbrev pub IsWritten : Slot → Type 0
IsWritten null = ⊥
IsWritten unset = ⊥
IsWritten _ = Unit

All-front : (xs ys : List Slot) → All IsWritten (xs ++ ys) → All IsWritten xs × All IsWritten ys
All-front [] ys h = (tt, h)
All-front (x ∷ xs) ys (h, hs) = let (front, back) = All-front xs ys hs in ((h, front), back)

-- A round that does not end the loop: the type and the entry that it comes to.
record Round (a : Allocator) (fuel byte_count : ℕ) (bytes : List ℕ) (cur last_end frm_count : ℕ)
    (my_frames l : List Slot) : Type 0 where
  goes_on : ltb (last_end + 2) byte_count ≡ true
  block : List ℕ
  got : a.malloc (frm_count * 8) ≡ some block
  type : ℕ
  typed : unpack_log_var_int (drop cur bytes) ≡ some type
  slot : Slot
  end : ℕ
  unpacked : unpack_one a type bytes cur last_end ≡ some (slot, end)
  rest :
      extract_loop a fuel byte_count bytes (end + 1) end (frm_count + 1) (my_frames ++ (slot ∷ []))
      ≡ frames l

next_round :
    (a : Allocator) (fuel byte_count : ℕ) (bytes : List ℕ) (cur last_end frm_count : ℕ)
    (my_frames l : List Slot)
    → extract_loop a (suc fuel) byte_count bytes cur last_end frm_count my_frames ≡ frames l
    → (ltb (last_end + 2) byte_count ≡ false) × (my_frames ≡ l)
      ⊎ Round a fuel byte_count bytes cur last_end frm_count my_frames l
unfolding extract_loop
next_round a fuel byte_count bytes cur last_end frm_count my_frames l h =
    elim (Bool-cases (ltb (last_end + 2) byte_count)) [
      | inr ends ↦ inl (ends, ground arith)
      | inl goes ↦ elim (Option-cases (a.malloc (frm_count * 8))) [
        | inl e ↦ absurd (ground arith)
        | inr (block, got) ↦ elim (Option-cases (unpack_log_var_int (drop cur bytes))) [
          | inl e ↦ absurd (ground arith)
          | inr (type, typed) ↦ elim (Option-cases (unpack_one a type bytes cur last_end)) [
            | inl e ↦ absurd (ground arith)
            | inr ((slot, end), unpacked) ↦ inr (record {
              goes_on = goes;
              block = block;
              got = got;
              type = type;
              typed = typed;
              slot = slot;
              end = end;
              unpacked = unpacked;
              rest = ground arith;
            })
          ]
        ]
      ]
    ]

kept :
    (a : Allocator) (fuel byte_count : ℕ) (bytes : List ℕ) (cur last_end frm_count : ℕ)
    (my_frames l : List Slot)
    → extract_loop a fuel byte_count bytes cur last_end frm_count my_frames ≡ frames l
    → All IsWritten l
    → All IsWritten my_frames
kept a zero byte_count bytes cur last_end frm_count my_frames l h all =
    absurd (unfold extract_loop in ground arith)
kept a (suc fuel) byte_count bytes cur last_end frm_count my_frames l h all =
    elim (next_round a fuel byte_count bytes cur last_end frm_count my_frames l h) [
      | inl (ends, same) ↦ subst (All IsWritten) (sym same) all
      | inr r ↦
          (All-front my_frames (r.slot ∷ []) (
            kept a fuel byte_count bytes (r.end + 1) r.end (frm_count + 1)
              (my_frames ++ (r.slot ∷ [])) l r.rest all)).0
    ]

null-slot :
    (last_end : ℕ) (slot : Slot) (end : ℕ)
    → ◌≡◌ {A = Option (Slot × ℕ)} (some (null, last_end)) (some (slot, end))
    → null ≡ slot
null-slot last_end slot end h = cc

-- A round to a written entry is not at a frame of type 1.
written_type :
    (a : Allocator) (type : ℕ) (bytes : List ℕ) (cur last_end : ℕ) (slot : Slot) (end : ℕ)
    → unpack_one a type bytes cur last_end ≡ some (slot, end)
    → IsWritten slot
    → type ≢ 1
written_type a type bytes cur last_end slot end unpacked written one =
    let unpacked₁ =
      subst (λ (t : ℕ). unpack_one a t bytes cur last_end ≡ some (slot, end)) one unpacked in
    elim (one_post a bytes cur last_end) [
      | inl e ↦ none-some (slot, end) (sym e ∙ unpacked₁)
      | inr e ↦ subst IsWritten (sym (null-slot last_end slot end (sym e ∙ unpacked₁))) written
    ]

step_same :
    (p : Platform) (a : Allocator) (fuel byte_count : ℕ) (bytes : List ℕ)
    (cur last_end frm_count : ℕ) (my_frames l : List Slot)
    → (r : Round a fuel byte_count bytes cur last_end frm_count my_frames l) → r.type ≢ 1
    → linux_extract_loop p a (suc fuel) byte_count bytes cur last_end frm_count my_frames
      ≡ linux_extract_loop p a fuel byte_count bytes
          (r.end + 1)
          r.end
          (frm_count + 1)
          (my_frames ++ (r.slot ∷ []))
unfolding linux_extract_loop
step_same p a fuel byte_count bytes cur last_end frm_count my_frames l r other = ground (
  arith,
  r.goes_on,
  r.got,
  unpack_log-linux p (drop cur bytes),
  r.typed,
  one_same p a r.type bytes cur last_end other,
  r.unpacked,
)

loop_same :
    (p : Platform) (a : Allocator) (fuel byte_count : ℕ) (bytes : List ℕ)
    (cur last_end frm_count : ℕ) (my_frames l : List Slot)
    → extract_loop a fuel byte_count bytes cur last_end frm_count my_frames ≡ frames l
    → All IsWritten l
    → linux_extract_loop p a fuel byte_count bytes cur last_end frm_count my_frames ≡ frames l
loop_same p a zero byte_count bytes cur last_end frm_count my_frames l h all =
    absurd (unfold extract_loop in ground arith)
loop_same p a (suc fuel) byte_count bytes cur last_end frm_count my_frames l h all =
    elim (next_round a fuel byte_count bytes cur last_end frm_count my_frames l h) [
      | inl (ends, same) ↦ unfold linux_extract_loop in ground (arith, same)
      | inr r ↦
          let after = my_frames ++ (r.slot ∷ []) in
          let written =
            (All-front my_frames (r.slot ∷ []) (
              kept a fuel byte_count bytes (r.end + 1) r.end (frm_count + 1) after l r.rest
                all)).1.0 in
          step_same p a fuel byte_count bytes cur last_end frm_count my_frames l r
            (written_type a r.type bytes cur last_end r.slot r.end r.unpacked written)
          ∙ loop_same p a fuel byte_count bytes (r.end + 1) r.end (frm_count + 1) after l r.rest all
    ]

-- Where the loop of Frames.c, with some number of rounds, ends with entries that are all frames, the
-- loop of the program's copy ends with the same entries in as many rounds.
pub extract_frames-linux :
    (p : Platform) (a : Allocator) (fuel byte_count : ℕ) (bytes : List ℕ) (l : List Slot)
    → extract_frames a fuel byte_count bytes ≡ frames l
    → All IsWritten l
    → linux_extract_frames p a fuel byte_count bytes ≡ frames l
unfolding extract_frames linux_extract_frames
extract_frames-linux p a fuel byte_count bytes l h all =
    loop_same p a fuel byte_count bytes 0 0 1 [] l h all

linux_one_unset :
    (p : Platform) (a : Allocator) (type : ℕ) (bytes : List ℕ) (cur last_end : ℕ)
    → (type ≡ 1) ⊎ (4 ≤ type)
    → linux_unpack_one p a type bytes cur last_end ≡ some (unset, last_end)
unfolding linux_unpack_one
linux_one_unset p a type bytes cur last_end h = ground (arith, h)

-- Behind a frame that has been looked at, a frame that is not unpacked is looked at again and again.
same_frame_stuck :
    (p : Platform) (a : Allocator) (fuel byte_count type : ℕ) (bytes : List ℕ)
    (last_end frm_count : ℕ) (my_frames : List Slot)
    → last_end + 2 < byte_count
    → unpack_log_var_int (drop (last_end + 1) bytes) ≡ some type
    → (type ≡ 1) ⊎ (4 ≤ type)
    → (linux_extract_loop p a fuel byte_count bytes (last_end + 1) last_end frm_count my_frames
        ≡ stuck)
      ⊎ (linux_extract_loop p a fuel byte_count bytes (last_end + 1) last_end frm_count my_frames
          ≡ fault)
unfolding linux_extract_loop
same_frame_stuck p a zero byte_count type bytes last_end frm_count my_frames more read other =
    inl refl
same_frame_stuck p a (suc fuel) byte_count type bytes last_end frm_count my_frames more read other =
    let again =
      same_frame_stuck p a fuel byte_count type bytes last_end (frm_count + 1)
        (my_frames ++ (unset ∷ [])) more read other in
    let typed = unpack_log-linux p (drop (last_end + 1) bytes) ∙ read in
    elim (Option-cases (a.malloc (frm_count * 8))) [
      | inl failed ↦ ground (arith, typed)
      | inr (block, got) ↦
          ground (arith, typed, linux_one_unset p a type bytes (last_end + 1) last_end other)
    ]

-- The places that the loop comes to: the start, and what is behind a round of it.
pub data Comes (p : Platform) (a : Allocator) (byte_count : ℕ) (bytes : List ℕ)
    : ℕ → ℕ → ℕ → List Slot → Type 0 where
  at_start : Comes p a byte_count bytes 0 0 1 []
  behind_round :
      {cur last_end frm_count : ℕ} {my_frames : List Slot} (block : List ℕ) (type : ℕ) (slot : Slot)
      (end : ℕ)
      → Comes p a byte_count bytes cur last_end frm_count my_frames
      → ltb (last_end + 2) byte_count ≡ true
      → a.malloc (frm_count * 8) ≡ some block
      → linux_unpack_log_var_int p (drop cur bytes) ≡ some type
      → linux_unpack_one p a type bytes cur last_end ≡ some (slot, end)
      → Comes p a byte_count bytes (end + 1) end (frm_count + 1) (my_frames ++ (slot ∷ []))

-- A run of the loop that does not end: it is not done, or it has failed.
abbrev pub NotDone : Extracted → Type 0
NotDone o = (o ≡ stuck) ⊎ (o ≡ fault)

one_round :
    (p : Platform) (a : Allocator) (fuel byte_count : ℕ) (bytes : List ℕ)
    (cur last_end frm_count : ℕ) (my_frames : List Slot) (block : List ℕ) (type : ℕ) (slot : Slot)
    (end : ℕ)
    → ltb (last_end + 2) byte_count ≡ true
    → a.malloc (frm_count * 8) ≡ some block
    → linux_unpack_log_var_int p (drop cur bytes) ≡ some type
    → linux_unpack_one p a type bytes cur last_end ≡ some (slot, end)
    → linux_extract_loop p a (suc fuel) byte_count bytes cur last_end frm_count my_frames
      ≡ linux_extract_loop p a fuel byte_count bytes
          (end + 1)
          end
          (frm_count + 1)
          (my_frames ++ (slot ∷ []))
unfolding linux_extract_loop
one_round p a fuel byte_count bytes cur last_end frm_count my_frames block type slot end goes got
      typed unpacked =
    ground (arith, goes, got, typed, unpacked)

before_round :
    (p : Platform) (a : Allocator) (byte_count : ℕ) (bytes : List ℕ) (cur last_end frm_count : ℕ)
    (my_frames : List Slot) (block : List ℕ) (type : ℕ) (slot : Slot) (end : ℕ)
    → ltb (last_end + 2) byte_count ≡ true
    → a.malloc (frm_count * 8) ≡ some block
    → linux_unpack_log_var_int p (drop cur bytes) ≡ some type
    → linux_unpack_one p a type bytes cur last_end ≡ some (slot, end)
    → ((fuel : ℕ)
        → NotDone (
            linux_extract_loop p a fuel byte_count bytes
              (end + 1)
              end
              (frm_count + 1)
              (my_frames ++ (slot ∷ []))))
    → (fuel : ℕ)
    → NotDone (linux_extract_loop p a fuel byte_count bytes cur last_end frm_count my_frames)
before_round p a byte_count bytes cur last_end frm_count my_frames block type slot end goes got
      typed unpacked never zero =
    inl (unfold linux_extract_loop in refl)
before_round p a byte_count bytes cur last_end frm_count my_frames block type slot end goes got
      typed unpacked never (suc rounds) =
    rw
      (one_round p a rounds byte_count bytes cur last_end frm_count my_frames block type slot end
        goes got typed unpacked)
      (never rounds)

Comes-NotDone :
    (p : Platform) (a : Allocator) (byte_count : ℕ) (bytes : List ℕ) {cur last_end frm_count : ℕ}
    {my_frames : List Slot}
    → Comes p a byte_count bytes cur last_end frm_count my_frames
    → ((fuel : ℕ)
        → NotDone (linux_extract_loop p a fuel byte_count bytes cur last_end frm_count my_frames))
    → (fuel : ℕ) → NotDone (linux_extract_frames p a fuel byte_count bytes)
unfolding linux_extract_frames
Comes-NotDone p a byte_count bytes at_start never fuel = never fuel
Comes-NotDone p a byte_count bytes
      (behind_round {cur} {last_end} {frm_count} {my_frames} block type slot end come goes got typed
        unpacked)
      never fuel =
    Comes-NotDone p a byte_count bytes come
      (before_round p a byte_count bytes cur last_end frm_count my_frames block type slot end goes
        got typed unpacked never)
      fuel

-- Where the loop of the program's `extractFrames` comes, behind a round at least, to a frame of post
-- metadata (type 1) or of a type that is not unpacked (4 or more), with at least two bytes left behind
-- the last frame, `extractFrames` never returns: whatever number of rounds it is given, it is not done,
-- or `realloc` has failed and it has written through NULL.
pub linux_extract_frames_stuck :
    (p : Platform) (a : Allocator) (byte_count type : ℕ) (bytes : List ℕ) (last_end frm_count : ℕ)
    (my_frames : List Slot)
    → Comes p a byte_count bytes (last_end + 1) last_end frm_count my_frames
    → last_end + 2 < byte_count
    → linux_unpack_log_var_int p (drop (last_end + 1) bytes) ≡ some type
    → (type ≡ 1) ⊎ (4 ≤ type)
    → (fuel : ℕ)
    → (linux_extract_frames p a fuel byte_count bytes ≡ stuck)
      ⊎ (linux_extract_frames p a fuel byte_count bytes ≡ fault)
linux_extract_frames_stuck p a byte_count type bytes last_end frm_count my_frames come more read
      other =
    Comes-NotDone p a byte_count bytes come (λ fuel.
      same_frame_stuck p a fuel byte_count type bytes last_end frm_count my_frames more
        (sym (unpack_log-linux p (drop (last_end + 1) bytes)) ∙ read) other)
