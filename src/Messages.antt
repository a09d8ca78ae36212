-- ===== src/Messages.antt =====
-- Messages.c: the stub byte, and the headers of data and control messages. The structs' bit fields
-- are numbers, cut to their width where they are assigned. Bytes are read from the list of those
-- that are left, so `loc += n` is `drop n loc`.
pub mod Stub
pub mod Serialize
pub mod RoundTrip
pub mod Control
pub mod Damage
use qmsp.Base.{ℕ, zero, suc, ◌+◌, ◌-◌, ◌*◌, ◌/◌, ◌%◌, ◌^◌, bit_and, Option, none, some, ◌>>=◌}
use qmsp.Base.{List, [], ◌∷◌, take, drop, truthy, ◌==◌, if◌then◌else◌}
use qmsp.Base.{u8, ◌<<<◌, ◌>>>◌}
use qmsp.Base.Memory.{Platform, Allocator, word_bytes, memcpy}
use qmsp.ByteSwap.{little_endian, rev_32}
use qmsp.VariableLengthInt.{
  gather, unpack_log_var_int, unpack_dir_var_int, get_size_of_lvi_to_pack, get_size_of_dvi_to_pack,
  pack_log_var_int, pack_dir_var_int,
}

pub record MessageStub : Type 0 where
  pub message_class : ℕ
  pub control_type : ℕ
  pub message_number_length : ℕ
  pub chat_id_length : ℕ
  pub data_flag : ℕ

pub record DataMessageHeader : Type 0 where
  pub stub : MessageStub
  pub chat_id : ℕ
  pub source_id : ℕ
  pub message_number : ℕ

pub record ControlMessageHeader : Type 0 where
  pub stub : MessageStub
  pub version : ℕ
  pub chat_id : ℕ
  pub source_id : ℕ
  pub message_number : ℕ

unfoldable pub get_serialized_size_of_data_message_header : DataMessageHeader → ℕ
get_serialized_size_of_data_message_header dmh =
    let my_size = 1 + (dmh.stub.chat_id_length + 1) + (dmh.stub.message_number_length + 1) in
    if truthy (dmh.source_id >>> 62) then 0 else my_size + get_size_of_lvi_to_pack dmh.source_id

unfoldable pub get_serialized_size_of_control_message_header : ControlMessageHeader → ℕ
get_serialized_size_of_control_message_header cmh =
    let my_size = 1 + 4 + (cmh.stub.chat_id_length + 1) + (cmh.stub.message_number_length + 1) in
    if truthy (cmh.source_id >>> 62) then 0 else my_size + get_size_of_lvi_to_pack cmh.source_id

-- The byte that the bit fields occupy: GCC fills it from the lowest bit on a little-endian
-- machine and from the highest on a big-endian one.
unfoldable pub stub_memory : Platform → MessageStub → ℕ
stub_memory p s =
    if p.little
    then s.message_class
      + s.control_type * 2
      + s.message_number_length * 8
      + s.chat_id_length * 32
      + s.data_flag * 128
    else s.message_class * 128
      + s.control_type * 32
      + s.message_number_length * 8
      + s.chat_id_length * 2
      + s.data_flag

-- The fields taken off the low end of `stub_byte` one by one and pushed into `hold`.
unfoldable pub reverse_stub : ℕ → ℕ
reverse_stub stub_byte =
    let hold = u8 (0 + bit_and stub_byte 1) in
    let stub_byte = stub_byte >>> 1 in
    let hold = u8 (u8 (hold <<< 2) + bit_and stub_byte 3) in
    let stub_byte = stub_byte >>> 2 in
    let hold = u8 (u8 (hold <<< 2) + bit_and stub_byte 3) in
    let stub_byte = stub_byte >>> 2 in
    let hold = u8 (u8 (hold <<< 2) + bit_and stub_byte 3) in
    let stub_byte = stub_byte >>> 2 in u8 (u8 (hold <<< 1) + bit_and stub_byte 1)

unfoldable pub serialize_message_stub : Platform → MessageStub → ℕ
serialize_message_stub p stub =
    let stub_byte = stub_memory p stub in
    if little_endian p then reverse_stub stub_byte else stub_byte

-- The four copies into the new block.
unfoldable pub write_data_message_header : Platform → DataMessageHeader → List ℕ → Option (List ℕ)
write_data_message_header p dmh my_serial = do
  let my_source_id_size = get_size_of_lvi_to_pack dmh.source_id
  let source_id_convert = pack_log_var_int p dmh.source_id
  let chat_id_convert = pack_dir_var_int p dmh.chat_id
  let msg_num_convert = pack_dir_var_int p dmh.message_number
  let my_stub_byte = serialize_message_stub p dmh.stub
  let chat_size = dmh.stub.chat_id_length + 1
  let num_size = dmh.stub.message_number_length + 1
  b₁ ← memcpy my_serial 0 (my_stub_byte ∷ [])
  b₂ ← memcpy b₁ 1 (take chat_size (word_bytes p p.long_size chat_id_convert))
  b₃ ← memcpy b₂ (1 + chat_size) (take my_source_id_size (word_bytes p 8 source_id_convert))
  b₄ ←
      memcpy b₃ (1 + chat_size + my_source_id_size)
        (take num_size (word_bytes p p.long_size msg_num_convert))
  some b₄

-- `some none` is the result NULL: the header has no size, or `malloc` failed.
unfoldable pub serialize_data_message_header :
    Platform → Allocator → DataMessageHeader → Option (Option (List ℕ))
serialize_data_message_header p a dmh =
    let my_size = get_serialized_size_of_data_message_header dmh in
    if my_size == 0 then some none else elim (a.malloc my_size) [
      | none ↦ some none
      | some my_serial ↦ write_data_message_header p dmh my_serial >>= λ b. some (some b)
    ]

-- `__builtin_bswap32` reverses four bytes, as `rev_32` does.
unfoldable pub write_control_message_header :
    Platform → ControlMessageHeader → List ℕ → Option (List ℕ)
write_control_message_header p cmh my_serial = do
  let my_source_id_size = get_size_of_lvi_to_pack cmh.source_id
  let source_id_convert = pack_log_var_int p cmh.source_id
  let chat_id_convert = pack_dir_var_int p cmh.chat_id
  let msg_num_convert = pack_dir_var_int p cmh.message_number
  let my_stub_byte = serialize_message_stub p cmh.stub
  let my_version = if little_endian p then rev_32 cmh.version else cmh.version
  let chat_size = cmh.stub.chat_id_length + 1
  let num_size = cmh.stub.message_number_length + 1
  b₁ ← memcpy my_serial 0 (my_stub_byte ∷ [])
  b₂ ← memcpy b₁ 1 (take 4 (word_bytes p p.long_size my_version))
  b₃ ← memcpy b₂ 5 (take chat_size (word_bytes p p.long_size chat_id_convert))
  b₄ ← memcpy b₃ (5 + chat_size) (take my_source_id_size (word_bytes p 8 source_id_convert))
  b₅ ←
      memcpy b₄ (5 + chat_size + my_source_id_size)
        (take num_size (word_bytes p p.long_size msg_num_convert))
  some b₅

unfoldable pub serialize_control_message_header :
    Platform → Allocator → ControlMessageHeader → Option (Option (List ℕ))
serialize_control_message_header p a cmh =
    let my_size = get_serialized_size_of_control_message_header cmh in
    if my_size == 0 then some none else elim (a.malloc my_size) [
      | none ↦ some none
      | some my_serial ↦ write_control_message_header p cmh my_serial >>= λ b. some (some b)
    ]

unfoldable pub get_message_class : List ℕ → Option ℕ
get_message_class [] = none
get_message_class (b ∷ bytes) = some (b >>> 7)

unfoldable pub stub_of_byte : ℕ → MessageStub
stub_of_byte b = record {
  message_class = (b >>> 7) % 2;
  control_type = bit_and (b >>> 5) 3 % 4;
  message_number_length = bit_and (b >>> 3) 3 % 4;
  chat_id_length = bit_and (b >>> 1) 3 % 4;
  data_flag = bit_and b 1 % 2;
}

unfoldable pub rebuild_message_stub : List ℕ → Option MessageStub
rebuild_message_stub [] = none
rebuild_message_stub (b ∷ bytes) = some (stub_of_byte b)

unfoldable pub rebuild_data_message : List ℕ → Option DataMessageHeader
rebuild_data_message serialized = do
  stub ← rebuild_message_stub serialized
  let loc₁ = drop 1 serialized
  chat_id ← unpack_dir_var_int loc₁ (stub.chat_id_length + 1)
  let loc₂ = drop (stub.chat_id_length + 1) loc₁
  source_id ← unpack_log_var_int loc₂
  let inc = get_size_of_lvi_to_pack source_id
  let loc₃ = drop inc loc₂
  message_number ← unpack_dir_var_int loc₃ (stub.message_number_length + 1)
  some (record {
    stub = stub;
    chat_id = chat_id;
    source_id = source_id;
    message_number = message_number;
  })

-- `Version = *loc; Version <<= 8; Version += *(loc + 1); ...`, four bytes of it.
unfoldable pub rebuild_version : List ℕ → Option ℕ
rebuild_version [] = none
rebuild_version (b ∷ bytes) = gather 32 3 b bytes

unfoldable pub rebuild_control_message : List ℕ → Option ControlMessageHeader
rebuild_control_message serialized = do
  stub ← rebuild_message_stub serialized
  let loc₁ = drop 1 serialized
  version ← rebuild_version loc₁
  let loc₂ = drop 4 loc₁
  chat_id ← unpack_dir_var_int loc₂ (stub.chat_id_length + 1)
  let loc₃ = drop (stub.chat_id_length + 1) loc₂
  source_id ← unpack_log_var_int loc₃
  let inc = get_size_of_lvi_to_pack source_id
  let loc₄ = drop inc loc₃
  message_number ← unpack_dir_var_int loc₄ (stub.message_number_length + 1)
  some (record {
    stub = stub;
    version = version;
    chat_id = chat_id;
    source_id = source_id;
    message_number = message_number;
  })

unfoldable pub construct_data_message_header : ℕ → ℕ → ℕ → DataMessageHeader
construct_data_message_header chat_id source_id message_number = record {
  stub = record {
    message_class = 0;
    control_type = 0;
    message_number_length = (get_size_of_dvi_to_pack message_number - 1) % 4;
    chat_id_length = (get_size_of_dvi_to_pack chat_id - 1) % 4;
    data_flag = 0;
  };
  chat_id = chat_id;
  source_id = source_id;
  message_number = message_number;
}

unfoldable pub construct_control_message_header : ℕ → ℕ → ℕ → ℕ → ℕ → ℕ → ControlMessageHeader
construct_control_message_header control_type version chat_id source_id message_number has_data =
    record {
      stub = record {
        message_class = 1;
        control_type = bit_and control_type 3 % 4;
        message_number_length = (get_size_of_dvi_to_pack message_number - 1) % 4;
        chat_id_length = (get_size_of_dvi_to_pack chat_id - 1) % 4;
        data_flag = if truthy has_data then 1 else 0;
      };
      version = version;
      chat_id = chat_id;
      source_id = source_id;
      message_number = message_number;
    }
