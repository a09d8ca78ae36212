-- ===== src/MessageReader/Wire.antt =====
-- The frames that can be sent: their bytes, and what is read from these.
use qmsp.Base.{
  ℕ, ◌+◌, ◌^◌, ◌<◌, ◌≡◌, refl, sym, ap, ◌∙◌, arith, List, [], ◌∷◌, ◌++◌, some, ◌>>=◌, length,
}
use qmsp.Base.Memory.{Platform, Allocator}
use qmsp.Frames.{TransitMetadataFrame}
use qmsp.Frames.Pack.{
  Frame, transit, plaintext, get_serialized_size_of_frame, get_serialized_size_of_tmd,
  serialize_tmd_into, serialize_frame_into,
}
use qmsp.Frames.Pack.Laws.{tmd_bytes, serialize_tmd_into_lem}
use qmsp.Frames.RoundTrip.{IsTmd, tmd_size}
use qmsp.Frames.Plaintext.{
  counted, ended, IsText, counted_bytes, ended_bytes, length-counted_bytes, length-ended_bytes,
  size-counted, size-ended, serialize_counted_into, serialize_ended_into,
}
use qmsp.Frames.Extract.{Slot}
use qmsp.MessageReader.{frame_type}

-- A frame whose end is found when it is read, with its bytes and the entry that is read.
pub data Whole (p : Platform) : Frame → List ℕ → Slot → Type 0 where
  tmd : (f : TransitMetadataFrame) → IsTmd f → Whole p (transit f) (tmd_bytes p f) (Slot.transit f)
  told :
      (text : List ℕ)
      → length text < 2 ^ 62
      → Whole p (plaintext (counted text)) (counted_bytes p text) (Slot.plaintext (counted text))

-- A frame that may stand last in a message.
pub data Last (p : Platform) : Frame → List ℕ → Slot → Type 0 where
  whole : {f : Frame} {bytes : List ℕ} {s : Slot} → Whole p f bytes s → Last p f bytes s
  open_end :
      (n : ℕ) (text more : List ℕ)
      → IsText text
      → Last p
          (plaintext (ended n text more))
          (ended_bytes p text)
          (Slot.plaintext (record { type = 2; length = length text; txtdta = text }))

-- The frames of a message, one at least.
pub data Frames (p : Platform) : List Frame → List ℕ → List Slot → Type 0 where
  only :
      {f : Frame} {bytes : List ℕ} {s : Slot} → Last p f bytes s → Frames p (f ∷ []) bytes (s ∷ [])
  front :
      {f : Frame} {bytes rest : List ℕ} {s : Slot} {fs : List Frame} {ss : List Slot}
      → Whole p f bytes s
      → Frames p fs rest ss
      → Frames p (f ∷ fs) (bytes ++ rest) (s ∷ ss)

-- An allocator that never fails.
abbrev pub Gives : Allocator → Type 0
Gives a = (n : ℕ) → (block : List ℕ) × (a.malloc n ≡ some block)

tmd_frame_size :
    (f : TransitMetadataFrame) (type : ℕ)
    → type ≡ 0
    → get_serialized_size_of_frame (transit f) type ≡ some (get_serialized_size_of_tmd f)
unfolding get_serialized_size_of_frame
tmd_frame_size f type zero_type = ground arith

tmd_frame_into :
    (p : Platform) (f : TransitMetadataFrame) (type : ℕ) (buffer : List ℕ) (loc : ℕ)
    → type ≡ 0
    → serialize_frame_into p (transit f) type buffer loc
      ≡ (serialize_tmd_into p f buffer loc >>= λ r. some (some r))
unfolding serialize_frame_into
tmd_frame_into p f type buffer loc zero_type = ground arith

pub Last-size :
    {p : Platform} {f : Frame} {bytes : List ℕ} {s : Slot}
    → Last p f bytes s
    → get_serialized_size_of_frame f (frame_type f) ≡ some (length bytes)
unfolding get_serialized_size_of_frame frame_type
Last-size {p} (whole (tmd f h)) =
    tmd_frame_size f f.type h.type_zero ∙ ap some (sym (tmd_size p f h))
Last-size {p} (whole (told text h)) =
    size-counted text h ∙ ap some (sym (length-counted_bytes p text))
Last-size {p} (open_end n text more h) =
    size-ended n text more h ∙ ap some (sym (length-ended_bytes p text))

-- What a serializer does to a buffer with room for the frame.
abbrev pub Appends : Platform → Frame → List ℕ → Type 0
Appends p f bytes =
    (done rest : List ℕ) (left : ℕ)
    → length rest ≡ length bytes + left
    → (rest' : List ℕ) × (length rest' ≡ left)
      × (serialize_frame_into p f (frame_type f) (done ++ rest) (length done)
          ≡ some (some ((done ++ bytes) ++ rest', length done + length bytes)))

pub Last-Appends :
    {p : Platform} {f : Frame} {bytes : List ℕ} {s : Slot} → Last p f bytes s → Appends p f bytes
unfolding serialize_frame_into frame_type
Last-Appends {p} (whole (tmd f h)) done rest left fits =
    let (rest', l, eq) = serialize_tmd_into_lem p f done rest left h.id_word fits in
    (rest', l, tmd_frame_into p f f.type (done ++ rest) (length done) h.type_zero ∙ rw eq refl)
Last-Appends {p} (whole (told text h)) done rest left fits =
    let (rest', l, eq) = serialize_counted_into p text done rest left h fits in
    (rest', l, rw eq refl)
Last-Appends {p} (open_end n text more h) done rest left fits =
    let (rest', l, eq) = serialize_ended_into p n text more done rest left h fits in
    (rest', l, rw eq refl)
