-- ===== src/Frames/Pack/Laws.antt =====
-- Frames.c: what the serializers write, and that it stays inside the size that was counted.
use qmsp.Base.{ℕ, ◌+◌, ◌^◌, ◌<◌, ◌≡◌, refl, ap, ◌∙◌, arith}
use qmsp.Base.{List, ◌++◌, some, take, length, length-append}
use qmsp.Base.{if◌then◌else◌}
use qmsp.Base.Memory.{Platform, word_bytes, be_bytes, length-be_bytes}
use qmsp.Base.Fill.{fill_four}
use qmsp.ByteSwap.{little_endian, rev_32}
use qmsp.ByteSwap.Laws.{little_endian_lem, le_bytes-rev_32}
use qmsp.VariableLengthInt.{get_size_of_lvi_to_pack}
use qmsp.Messages.Serialize.{lvi_bytes, length-lvi_bytes}
use qmsp.Frames.{TransitMetadataFrame}
use qmsp.Frames.Pack.{write_tmd, serialize_tmd_into}

word_bytes_four :
    (p : Platform) (v : ℕ)
    → v < 2 ^ 32
    → word_bytes p 4 (if little_endian p then rev_32 v else v) ≡ be_bytes 4 v
unfolding word_bytes
word_bytes_four p v h = ground (arith, little_endian_lem p, le_bytes-rev_32 v h)

take_all_four : (v : ℕ) → take 4 (be_bytes 4 v) ≡ be_bytes 4 v
unfolding be_bytes
take_all_four v = refl

id_bytes :
    (p : Platform) (v : ℕ)
    → v < 2 ^ 32
    → take 4 (word_bytes p 4 (if little_endian p then rev_32 v else v)) ≡ be_bytes 4 v
id_bytes p v h = ap (λ l. take 4 l) (word_bytes_four p v h) ∙ take_all_four v

-- The bytes of a transit metadata frame.
unfoldable pub tmd_bytes : Platform → TransitMetadataFrame → List ℕ
tmd_bytes p f =
    (lvi_bytes p f.type ++ be_bytes 4 f.post_transit_id)
    ++ (lvi_bytes p f.total_message_count ++ lvi_bytes p f.specific_message_count)

pub length-tmd_bytes :
    (p : Platform) (f : TransitMetadataFrame)
    → length (tmd_bytes p f)
      ≡ get_size_of_lvi_to_pack f.type
        + 4
        + get_size_of_lvi_to_pack f.total_message_count
        + get_size_of_lvi_to_pack f.specific_message_count
unfolding tmd_bytes
length-tmd_bytes p f = omega (
  arith,
  length-lvi_bytes p f.type,
  length-lvi_bytes p f.total_message_count,
  length-lvi_bytes p f.specific_message_count,
  length-be_bytes 4 f.post_transit_id,
  length-append (lvi_bytes p f.type ++ be_bytes 4 f.post_transit_id)
      (lvi_bytes p f.total_message_count ++ lvi_bytes p f.specific_message_count),
  length-append (lvi_bytes p f.type) (be_bytes 4 f.post_transit_id),
  length-append (lvi_bytes p f.total_message_count) (lvi_bytes p f.specific_message_count),
)

-- Serializing a transit metadata frame with a 32-bit id into a buffer with room for it writes its
-- bytes behind what is there, leaves the rest of the room, and returns the place behind them.
pub serialize_tmd_into_lem :
    (p : Platform) (f : TransitMetadataFrame) (done rest : List ℕ) (left : ℕ)
    → f.post_transit_id < 2 ^ 32
    → length rest ≡ length (tmd_bytes p f) + left
    → (rest' : List ℕ) × (length rest' ≡ left)
      × (serialize_tmd_into p f (done ++ rest) (length done)
          ≡ some ((done ++ tmd_bytes p f) ++ rest', length done + length (tmd_bytes p f)))
unfolding serialize_tmd_into write_tmd tmd_bytes lvi_bytes
serialize_tmd_into_lem p f done rest left word fits =
    let t = get_size_of_lvi_to_pack f.type in
    let m = get_size_of_lvi_to_pack f.total_message_count in
    let s = get_size_of_lvi_to_pack f.specific_message_count in
    let lt = length-lvi_bytes p f.type in
    let lm = length-lvi_bytes p f.total_message_count in
    let ls = length-lvi_bytes p f.specific_message_count in
    let li = length-be_bytes 4 f.post_transit_id in
    let n = length done in
    let (rest', l, eq) =
      fill_four {B = List ℕ × ℕ} (λ b. some (b, n + t + 4 + m + s)) done rest (lvi_bytes p f.type)
        (be_bytes 4 f.post_transit_id) (lvi_bytes p f.total_message_count)
        (lvi_bytes p f.specific_message_count) n (n + t) (n + t + 4) (n + t + 4 + m) left refl
        (omega arith) (omega arith) (omega arith) (omega (arith, length-tmd_bytes p f)) in
    let same : n + t + 4 + m + s ≡ n + length (tmd_bytes p f) =
      omega (arith, length-tmd_bytes p f) in
    let whole = (done ++ tmd_bytes p f) ++ rest' in
    (rest', l, rw (id_bytes p f.post_transit_id word) eq ∙ ap (λ k. some (whole, k)) same)
