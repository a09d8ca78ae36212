-- ===== src/Messages/Serialize.antt =====
-- Messages.c: what the serializers write, on every branch.
use qmsp.Base.{ℕ, ◌+◌, ◌/◌, ◌^◌, ◌≤◌, ◌<◌, ◌≡◌, refl, arith}
use qmsp.Base.{List, [], ◌∷◌, ◌++◌, none, some, take, length, length-append}
use qmsp.Base.{inl, inr, truthy, ◌==◌, if◌then◌else◌, Bool-cases, Option-cases}
use qmsp.Base.Memory.{Platform, Allocator, word_bytes, length-take-word_bytes}
use qmsp.Base.Fill.{fill_all_four}
use qmsp.ByteSwap.{little_endian, rev_32}
use qmsp.VariableLengthInt.{get_size_of_lvi_to_pack, pack_log_var_int, pack_dir_var_int}
use qmsp.VariableLengthInt.AnyInput.{lvi_size_bounds}
use qmsp.Messages.{
  DataMessageHeader, serialize_message_stub, write_data_message_header,
  get_serialized_size_of_data_message_header, serialize_data_message_header,
}
use qmsp.Messages.Stub.{IsStub}

-- The first `n` bytes of the packed integers.
unfoldable pub dvi_bytes : Platform → ℕ → ℕ → List ℕ
dvi_bytes p n v = take n (word_bytes p p.long_size (pack_dir_var_int p v))

unfoldable pub lvi_bytes : Platform → ℕ → List ℕ
lvi_bytes p v = take (get_size_of_lvi_to_pack v) (word_bytes p 8 (pack_log_var_int p v))

unfoldable pub version_bytes : Platform → ℕ → List ℕ
version_bytes p v = take 4 (word_bytes p p.long_size (if little_endian p then rev_32 v else v))

pub length-dvi_bytes : (p : Platform) (n v : ℕ) → n ≤ p.long_size → length (dvi_bytes p n v) ≡ n
unfolding dvi_bytes
length-dvi_bytes p n v h = length-take-word_bytes p n p.long_size (pack_dir_var_int p v) h

pub length-lvi_bytes : (p : Platform) (v : ℕ) → length (lvi_bytes p v) ≡ get_size_of_lvi_to_pack v
unfolding lvi_bytes
length-lvi_bytes p v =
    length-take-word_bytes p (get_size_of_lvi_to_pack v) 8 (pack_log_var_int p v)
      (lvi_size_bounds v).1

pub length-version_bytes : (p : Platform) (v : ℕ) → 4 ≤ p.long_size → length (version_bytes p v) ≡ 4
unfolding version_bytes
length-version_bytes p v h = length-take-word_bytes p 4 p.long_size _ h

-- A serialized header: its stub, what stands between the stub and the source, the source, and
-- the message number.
unfoldable pub data_bytes : Platform → DataMessageHeader → List ℕ
data_bytes p dmh =
    ((serialize_message_stub p dmh.stub ∷ [])
      ++ dvi_bytes p (dmh.stub.chat_id_length + 1) dmh.chat_id)
    ++ (lvi_bytes p dmh.source_id
        ++ dvi_bytes p (dmh.stub.message_number_length + 1) dmh.message_number)

write_data_lem :
    (p : Platform) (dmh : DataMessageHeader) (block : List ℕ)
    → IsStub dmh.stub
    → 4 ≤ p.long_size
    → dmh.source_id < 2 ^ 62
    → length block ≡ get_serialized_size_of_data_message_header dmh
    → write_data_message_header p dmh block ≡ some (data_bytes p dmh)
unfolding write_data_message_header data_bytes dvi_bytes lvi_bytes
    get_serialized_size_of_data_message_header
write_data_lem p dmh block h wide small fits =
    let lc = length-dvi_bytes p (dmh.stub.chat_id_length + 1) dmh.chat_id (omega arith) in
    let ln =
      length-dvi_bytes p (dmh.stub.message_number_length + 1) dmh.message_number (omega arith) in
    let ls = length-lvi_bytes p dmh.source_id in
    fill_all_four some block (serialize_message_stub p dmh.stub ∷ [])
      (dvi_bytes p (dmh.stub.chat_id_length + 1) dmh.chat_id) (lvi_bytes p dmh.source_id)
      (dvi_bytes p (dmh.stub.message_number_length + 1) dmh.message_number) 1
      (1 + (dmh.stub.chat_id_length + 1))
      (1 + (dmh.stub.chat_id_length + 1) + get_size_of_lvi_to_pack dmh.source_id) refl (omega arith)
      (omega arith) (ground arith)

pub length-data_bytes :
    (p : Platform) (dmh : DataMessageHeader)
    → IsStub dmh.stub
    → 4 ≤ p.long_size
    → dmh.source_id < 2 ^ 62
    → length (data_bytes p dmh) ≡ get_serialized_size_of_data_message_header dmh
unfolding data_bytes get_serialized_size_of_data_message_header
length-data_bytes p dmh h wide small = ground (
  arith,
  length-dvi_bytes p (dmh.stub.chat_id_length + 1) dmh.chat_id,
  length-dvi_bytes p (dmh.stub.message_number_length + 1) dmh.message_number,
  length-lvi_bytes p dmh.source_id,
  length-append (dvi_bytes p (dmh.stub.chat_id_length + 1) dmh.chat_id) (
      lvi_bytes p dmh.source_id
      ++ dvi_bytes p (dmh.stub.message_number_length + 1) dmh.message_number),
  length-append (lvi_bytes p dmh.source_id)
      (dvi_bytes p (dmh.stub.message_number_length + 1) dmh.message_number),
)

-- The size is 0 exactly for a source id that needs more than 62 bits.
data_size_zero :
    (dmh : DataMessageHeader)
    → (get_serialized_size_of_data_message_header dmh == 0) ≡ truthy (dmh.source_id / 2 ^ 62)
unfolding get_serialized_size_of_data_message_header
data_size_zero dmh = ground (arith, lvi_size_bounds dmh.source_id)

-- What `serialize_data_message_header` answers for a header whose stub fits, where an `unsigned
-- long` has four bytes at least: NULL if the source id needs more than 62 bits or `malloc` fails,
-- and the header's bytes else, each of them inside the block that it asked for.
pub serialize_data_lem :
    (p : Platform) (a : Allocator) (dmh : DataMessageHeader)
    → IsStub dmh.stub
    → 4 ≤ p.long_size
    → serialize_data_message_header p a dmh ≡ (
        if truthy (dmh.source_id / 2 ^ 62)
        then some none
        else elim (a.malloc (get_serialized_size_of_data_message_header dmh)) [
          | none ↦ some none
          | some block ↦ some (some (data_bytes p dmh))
        ])
unfolding serialize_data_message_header
serialize_data_lem p a dmh h wide =
    let size = get_serialized_size_of_data_message_header dmh in
    elim (Bool-cases (truthy (dmh.source_id / 2 ^ 62))) [
      | inl large ↦ rw (data_size_zero dmh, large)
      | inr small ↦ elim (Option-cases (a.malloc size)) [
        | inl failed ↦ rw (data_size_zero dmh, small, failed)
        | inr (block, got) ↦ rw (
          data_size_zero dmh,
          small,
          got,
          write_data_lem p dmh block h wide (ground arith) (a.length-malloc size block got),
        )
      ]
    ]
