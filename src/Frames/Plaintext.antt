-- ===== src/Frames/Plaintext.antt =====
-- Frames.c: plaintext frames, with a length (type 3) and with a terminator (type 2).
pub mod RoundTrip
use qmsp.Base.{ℕ, zero, suc, ◌+◌, ◌-◌, ◌*◌, ◌^◌, ◌≤◌, ◌<◌, ◌≡◌, refl, sym, ap, ◌∙◌, arith, bit_and}
use qmsp.Base.{
  List, [], ◌∷◌, ◌++◌, append-nil, append_assoc, Option, none, some, ◌>>=◌, take, drop, length,
}
use qmsp.Base.{
  length-append, drop-append_self, take-append_self, All, leb, le→leb, truthy, u64, true, false,
}
use qmsp.Base.Memory.{Platform, Allocator, memcpy}
use qmsp.Base.Fill.{fill_three}
use qmsp.VariableLengthInt.{unpack_log_var_int, get_size_of_lvi_to_pack}
use qmsp.VariableLengthInt.AnyInput.{lvi_size_bounds}
use qmsp.Messages.Serialize.{lvi_bytes, length-lvi_bytes}
use qmsp.Frames.{PlaintextFrame, count_until_terminator, read_bytes, text_extent, unpack_plaintext}
use qmsp.Frames.Pack.{get_serialized_size_of_ptf, serialize_ptf_into}
use qmsp.Frames.RoundTrip.{read_lvi, skip_lvi}

-- A frame of type 3 for a text: its length is told.
abbrev pub counted : List ℕ → PlaintextFrame
counted text = record { type = 3; length = length text; txtdta = text }

-- A frame of type 2: its memory holds the text and a terminator, and more perhaps, and its length
-- may be anything.
abbrev pub ended : ℕ → List ℕ → List ℕ → PlaintextFrame
ended n text more = record { type = 2; length = n; txtdta = text ++ (0 ∷ more) }

abbrev pub IsText : List ℕ → Type 0
IsText text = All (λ c. 0 < c) text × (length text < 2 ^ 62)

-- The bytes of either on the wire.
unfoldable pub counted_bytes : Platform → List ℕ → List ℕ
counted_bytes p text = (lvi_bytes p 3 ++ lvi_bytes p (length text)) ++ text

unfoldable pub ended_bytes : Platform → List ℕ → List ℕ
ended_bytes p text = (lvi_bytes p 2 ++ []) ++ (text ++ (0 ∷ []))

pub size_two : get_size_of_lvi_to_pack 2 ≡ 1
unfolding get_size_of_lvi_to_pack
size_two = refl

pub size_three : get_size_of_lvi_to_pack 3 ≡ 1
unfolding get_size_of_lvi_to_pack
size_three = refl

pub count_until-ended :
    (text more : List ℕ)
    → All (λ c. 0 < c) text
    → count_until_terminator (text ++ (0 ∷ more)) ≡ some (length text)
unfolding count_until_terminator
count_until-ended [] more h = refl
count_until-ended (c ∷ text) more (h, hs) = ground (arith, count_until-ended text more hs)

pub length-counted_bytes :
    (p : Platform) (text : List ℕ)
    → length (counted_bytes p text) ≡ 1 + get_size_of_lvi_to_pack (length text) + length text
unfolding counted_bytes
length-counted_bytes p text = omega (
  arith,
  size_three,
  length-lvi_bytes p 3,
  length-lvi_bytes p (length text),
  length-append (lvi_bytes p 3 ++ lvi_bytes p (length text)) text,
  length-append (lvi_bytes p 3) (lvi_bytes p (length text)),
)

pub length-ended_bytes :
    (p : Platform) (text : List ℕ) → length (ended_bytes p text) ≡ 2 + length text
unfolding ended_bytes
length-ended_bytes p text = omega (
  arith,
  size_two,
  length-lvi_bytes p 2,
  length-append (lvi_bytes p 2 ++ []) (text ++ (0 ∷ [])),
  length-append (lvi_bytes p 2) [],
  length-append text (0 ∷ []),
)

pub size-counted :
    (text : List ℕ)
    → length text < 2 ^ 62
    → get_serialized_size_of_ptf (counted text)
      ≡ some (1 + get_size_of_lvi_to_pack (length text) + length text)
unfolding get_serialized_size_of_ptf
size-counted text h = ap some (omega (arith, lvi_size_bounds (length text)))

pub size-ended :
    (n : ℕ) (text more : List ℕ)
    → IsText text
    → get_serialized_size_of_ptf (ended n text more) ≡ some (2 + length text)
unfolding get_serialized_size_of_ptf
size-ended n text more h = rw (count_until-ended text more h.0) (ap some (omega arith))

pub read_bytes_self :
    (n : ℕ) (bytes rest : List ℕ) → n ≡ length bytes → read_bytes n (bytes ++ rest) ≡ some bytes
unfolding read_bytes
read_bytes_self n bytes rest h =
    rw
      (
        le→leb n (length (bytes ++ rest)) (omega (arith, length-append bytes rest)),
        take-append_self n bytes rest h,
      )
      refl

read_bytes-whole : (bytes : List ℕ) → read_bytes (length bytes) bytes ≡ some bytes
read_bytes-whole bytes =
    ap (read_bytes (length bytes)) (sym (append-nil bytes))
    ∙ read_bytes_self (length bytes) bytes [] refl

-- The three copies of `SerializePTFInto`.
abbrev copies : List ℕ → List ℕ → List ℕ → ℕ → ℕ → ℕ → ℕ → List ℕ → Option (List ℕ × ℕ)
copies a b c o₁ o₂ o₃ after buffer =
    memcpy buffer o₁ a >>= λ w. memcpy w o₂ b >>= λ x. memcpy x o₃ c >>= λ y. some (y, after)

counted_text_size :
    (text : List ℕ)
    → length text < 2 ^ 62
    → let s = get_size_of_lvi_to_pack (length text) in
      u64 (1 + s + length text + 2 ^ 64 - 1 - s) ≡ length text
counted_text_size text h = omega (arith, lvi_size_bounds (length text))

serialize_counted-eq :
    (p : Platform) (text buffer : List ℕ) (loc : ℕ)
    → length text < 2 ^ 62
    → let s = get_size_of_lvi_to_pack (length text) in
      serialize_ptf_into p (counted text) buffer loc
      ≡ copies
          (lvi_bytes p 3)
          (lvi_bytes p (length text))
          text
          loc
          (loc + 1)
          (loc + 1 + s)
          (loc + 1 + s + length text)
          buffer
unfolding serialize_ptf_into lvi_bytes get_size_of_lvi_to_pack
serialize_counted-eq p text buffer loc h =
    rw (size-counted text h, counted_text_size text h, read_bytes-whole text) refl

ended_text_size :
    (text : List ℕ)
    → length text < 2 ^ 62
    → u64 (2 + length text + 2 ^ 64 - 1 - 0) ≡ suc (length text)
ended_text_size text h = omega arith

read_bytes-ended :
    (text more : List ℕ)
    → read_bytes (suc (length text)) (text ++ (0 ∷ more)) ≡ some (text ++ (0 ∷ []))
read_bytes-ended text more =
    ap (read_bytes (suc (length text))) (sym (append_assoc text (0 ∷ []) more))
    ∙ read_bytes_self (suc (length text)) (text ++ (0 ∷ [])) more
        (omega (arith, length-append text (0 ∷ [])))

serialize_ended-eq :
    (p : Platform) (n : ℕ) (text more buffer : List ℕ) (loc : ℕ)
    → IsText text
    → serialize_ptf_into p (ended n text more) buffer loc
      ≡ copies
          (lvi_bytes p 2)
          []
          (text ++ (0 ∷ []))
          loc
          (loc + 1)
          (loc + 1 + 0)
          (loc + 1 + 0 + suc (length text))
          buffer
unfolding serialize_ptf_into lvi_bytes get_size_of_lvi_to_pack
serialize_ended-eq p n text more buffer loc h =
    rw (size-ended n text more h, ended_text_size text h.1, read_bytes-ended text more) refl

-- Serializing a plaintext frame with its length into a buffer with room for it writes its bytes
-- behind what is there, leaves the rest of the room, and returns the place behind them.
pub serialize_counted_into :
    (p : Platform) (text done rest : List ℕ) (left : ℕ)
    → length text < 2 ^ 62
    → length rest ≡ length (counted_bytes p text) + left
    → (rest' : List ℕ) × (length rest' ≡ left)
      × (serialize_ptf_into p (counted text) (done ++ rest) (length done)
          ≡ some (
            (done ++ counted_bytes p text) ++ rest',
            length done + length (counted_bytes p text),
          ))
unfolding counted_bytes
serialize_counted_into p text done rest left h fits =
    let n = length done in
    let s = get_size_of_lvi_to_pack (length text) in
    let one : length (lvi_bytes p 3) ≡ 1 = length-lvi_bytes p 3 ∙ size_three in
    let sized : length (lvi_bytes p (length text)) ≡ s = length-lvi_bytes p (length text) in
    let total = length-counted_bytes p text in
    let (rest', l, eq) =
      fill_three {B = List ℕ × ℕ} (λ b. some (b, n + 1 + s + length text)) done rest (lvi_bytes p 3)
        (lvi_bytes p (length text)) text n (n + 1) (n + 1 + s) left refl (omega arith) (omega arith)
        (omega arith) in
    let whole = (done ++ counted_bytes p text) ++ rest' in
    (
      rest',
      l,
      serialize_counted-eq p text (done ++ rest) n h ∙ eq ∙ ap (λ k. some (whole, k)) (omega arith),
    )

-- The same for a plaintext frame with a terminator, which is written too.
pub serialize_ended_into :
    (p : Platform) (n : ℕ) (text more done rest : List ℕ) (left : ℕ)
    → IsText text
    → length rest ≡ length (ended_bytes p text) + left
    → (rest' : List ℕ) × (length rest' ≡ left)
      × (serialize_ptf_into p (ended n text more) (done ++ rest) (length done)
          ≡ some ((done ++ ended_bytes p text) ++ rest', length done + length (ended_bytes p text)))
unfolding ended_bytes
serialize_ended_into p n text more done rest left h fits =
    let d = length done in
    let one : length (lvi_bytes p 2) ≡ 1 = length-lvi_bytes p 2 ∙ size_two in
    let body : length (text ++ (0 ∷ [])) ≡ suc (length text) =
      omega (arith, length-append text (0 ∷ [])) in
    let total = length-ended_bytes p text in
    let (rest', l, eq) =
      fill_three {B = List ℕ × ℕ} (λ b. some (b, d + 1 + 0 + suc (length text))) done rest
        (lvi_bytes p 2) [] (text ++ (0 ∷ [])) d (d + 1) (d + 1 + 0) left refl (omega arith)
        (omega arith) (omega arith) in
    let whole = (done ++ ended_bytes p text) ++ rest' in
    (
      rest',
      l,
      serialize_ended-eq p n text more (done ++ rest) d h
          ∙ eq
          ∙ ap (λ k. some (whole, k)) (omega arith),
    )
