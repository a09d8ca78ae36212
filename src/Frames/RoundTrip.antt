-- ===== src/Frames/RoundTrip.antt =====
-- Frames.c: unpacking a transit metadata frame from the bytes that the serializer writes.
use qmsp.Base.{ℕ, ◌-◌, ◌^◌, ◌<◌, ◌≡◌, refl, sym, ap, ◌∙◌, arith}
use qmsp.Base.{List, [], ◌∷◌, ◌++◌, append-nil, append_assoc, some, ◌>>=◌, drop, length}
use qmsp.Base.{drop-append_self, length-eq-zero}
use qmsp.Base.Memory.{Platform, Allocator, be_bytes, length-be_bytes}
use qmsp.VariableLengthInt.{unpack_log_var_int, unpack_dir_var_int, get_size_of_lvi_to_pack}
use qmsp.VariableLengthInt.Direct.{unpack-be_bytes}
use qmsp.VariableLengthInt.RoundTrip.{unpack-pack_log}
use qmsp.Messages.Serialize.{lvi_bytes, length-lvi_bytes}
use qmsp.Frames.{
  TransitMetadataFrame, read_post_transit_id, read_transit_metadata, unpack_transit_metadata,
}
use qmsp.Frames.Pack.{get_serialized_size_of_tmd, serialize_tmd, serialize_tmd_into}
use qmsp.Frames.Pack.Laws.{tmd_bytes, length-tmd_bytes, serialize_tmd_into_lem}

pub read_lvi :
    (p : Platform) (v : ℕ) (rest : List ℕ)
    → v < 2 ^ 62
    → unpack_log_var_int (lvi_bytes p v ++ rest) ≡ some v
unfolding lvi_bytes
read_lvi p v rest h = unpack-pack_log p v rest h

pub skip_lvi :
    (p : Platform) (v : ℕ) (rest : List ℕ)
    → drop (get_size_of_lvi_to_pack v) (lvi_bytes p v ++ rest) ≡ rest
skip_lvi p v rest =
    drop-append_self (get_size_of_lvi_to_pack v) (lvi_bytes p v) rest (sym (length-lvi_bytes p v))

read_id-eq : (loc : List ℕ) → read_post_transit_id loc ≡ unpack_dir_var_int loc 4
unfolding read_post_transit_id unpack_dir_var_int
read_id-eq [] = refl
read_id-eq (b ∷ bytes) = refl

read_id :
    (v : ℕ) (rest : List ℕ) → v < 2 ^ 32 → read_post_transit_id (be_bytes 4 v ++ rest) ≡ some v
read_id v rest h =
    read_id-eq (be_bytes 4 v ++ rest)
    ∙ unpack-be_bytes 4 v rest (omega arith) (omega arith)
    ∙ ap some (omega arith)

skip_id : (v : ℕ) (rest : List ℕ) → drop 4 (be_bytes 4 v ++ rest) ≡ rest
skip_id v rest = drop-append_self 4 (be_bytes 4 v) rest (sym (length-be_bytes 4 v))

-- The ranges of the fields that can be sent.
pub record IsTmd (f : TransitMetadataFrame) : Type 0 where
  pub type_zero : f.type ≡ 0
  pub id_word : f.post_transit_id < 2 ^ 32
  pub total_bits : f.total_message_count < 2 ^ 62
  pub specific_bits : f.specific_message_count < 2 ^ 62

pub tmd_line :
    (p : Platform) (f : TransitMetadataFrame) (rest : List ℕ)
    → tmd_bytes p f ++ rest
      ≡ lvi_bytes p f.type
        ++ (be_bytes 4 f.post_transit_id
            ++ (lvi_bytes p f.total_message_count
                ++ (lvi_bytes p f.specific_message_count ++ rest)))
unfolding tmd_bytes
tmd_line p f rest =
    let type = lvi_bytes p f.type in
    let id = be_bytes 4 f.post_transit_id in
    let total = lvi_bytes p f.total_message_count in
    let specific = lvi_bytes p f.specific_message_count in
    append_assoc (type ++ id) (total ++ specific) rest
    ∙ ap (λ r. (type ++ id) ++ r) (append_assoc total specific rest)
    ∙ append_assoc type id (total ++ (specific ++ rest))

pub read-tmd_bytes :
    (p : Platform) (f : TransitMetadataFrame) (rest : List ℕ)
    → IsTmd f
    → read_transit_metadata (tmd_bytes p f ++ rest) ≡ some (f, length (tmd_bytes p f) - 1)
unfolding read_transit_metadata
read-tmd_bytes p f rest h =
    let id = be_bytes 4 f.post_transit_id in
    let tail₂ = lvi_bytes p f.specific_message_count ++ rest in
    let tail₁ = lvi_bytes p f.total_message_count ++ tail₂ in
    rw
      (
        tmd_line p f rest,
        read_lvi p f.type (id ++ tail₁) (omega arith),
        skip_lvi p f.type (id ++ tail₁),
        read_id f.post_transit_id tail₁ h.id_word,
        skip_id f.post_transit_id tail₁,
        read_lvi p f.total_message_count tail₂ h.total_bits,
        skip_lvi p f.total_message_count tail₂,
        read_lvi p f.specific_message_count rest h.specific_bits,
      )
      (ap (λ n. some (f, n - 1)) (sym (length-tmd_bytes p f)))

pub tmd_size :
    (p : Platform) (f : TransitMetadataFrame)
    → IsTmd f
    → length (tmd_bytes p f) ≡ get_serialized_size_of_tmd f
tmd_size p f h =
    length-tmd_bytes p f
    ∙ rw h.type_zero (unfold get_serialized_size_of_tmd get_size_of_lvi_to_pack in omega arith)

serialize_tmd-eq :
    (p : Platform) (a : Allocator) (f : TransitMetadataFrame) (block : List ℕ)
    → IsTmd f
    → a.malloc (get_serialized_size_of_tmd f) ≡ some block
    → serialize_tmd p a f ≡ some (tmd_bytes p f)
serialize_tmd-eq p a f block h got =
    let (rest, left, eq) =
      serialize_tmd_into_lem p f [] block 0 h.id_word
        (omega (arith, a.length-malloc _ block got, tmd_size p f h)) in
    unfold serialize_tmd serialize_tmd_into in
    rw (got, eq)
      (ap some
        (ap (λ r. tmd_bytes p f ++ r) (length-eq-zero rest left) ∙ append-nil (tmd_bytes p f)))

pub unpack_tmd-eq :
    (a : Allocator) (frame_start block : List ℕ)
    → a.malloc 28 ≡ some block
    → unpack_transit_metadata a frame_start
      ≡ (read_transit_metadata frame_start >>= λ r. some (some r))
unfolding unpack_transit_metadata
unpack_tmd-eq a frame_start block room = ground (arith, room)

-- A transit metadata frame of type 0 whose fields fit: where the blocks are given, its serialized
-- bytes are as many as the size function counts, and unpacking them, whatever follows, gives the
-- frame back and ends at its last byte.
pub unpack-serialize_tmd :
    (p : Platform) (a : Allocator) (f : TransitMetadataFrame) (rest block frame_block : List ℕ)
    → IsTmd f
    → a.malloc (get_serialized_size_of_tmd f) ≡ some block
    → a.malloc 28 ≡ some frame_block
    → (bytes : List ℕ) × (serialize_tmd p a f ≡ some bytes)
      × (length bytes ≡ get_serialized_size_of_tmd f)
      × (unpack_transit_metadata a (bytes ++ rest) ≡ some (some (f, length bytes - 1)))
unpack-serialize_tmd p a f rest block frame_block h got room = (
  tmd_bytes p f,
  serialize_tmd-eq p a f block h got,
  tmd_size p f h,
  unpack_tmd-eq a (tmd_bytes p f ++ rest) frame_block room
      ∙ ap (λ o. o >>= λ r. some (some r)) (read-tmd_bytes p f rest h),
)
