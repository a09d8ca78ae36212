-- ===== src/Linux/Messages.antt =====
-- OriginalLinuxCode/Messages.c: the copy of Messages.c that the program is built from, in what differs:
-- the calls of the other VariableLengthInt.c, and constructors that take an `unsigned long`. The stub,
-- the sizes and the structs are those at the root.
use qmsp.Base.{
  ℕ, ◌+◌, ◌-◌, ◌%◌, bit_and, Option, none, some, ◌>>=◌, List, [], ◌∷◌, take, drop, truthy, ◌==◌,
  if◌then◌else◌, u32,
}
use qmsp.Base.Memory.{Platform, Allocator, word_bytes, memcpy}
use qmsp.Messages.{
  DataMessageHeader, ControlMessageHeader, get_serialized_size_of_data_message_header,
  get_serialized_size_of_control_message_header, serialize_message_stub, rebuild_message_stub,
  rebuild_version,
}
use qmsp.Linux.{
  linux_little_endian, bswap, linux_unpack_log_var_int, linux_unpack_dir_var_int,
  linux_get_size_of_lvi_to_pack, linux_get_size_of_dvi_to_pack, linux_pack_log_var_int,
  linux_pack_dir_var_int,
}

-- The four copies into the new block.
unfoldable pub linux_write_data : Platform → DataMessageHeader → List ℕ → Option (List ℕ)
linux_write_data p dmh my_serial = do
  let my_source_id_size = linux_get_size_of_lvi_to_pack dmh.source_id
  let source_id_convert = linux_pack_log_var_int p dmh.source_id
  let chat_id_convert = linux_pack_dir_var_int p dmh.chat_id
  let msg_num_convert = linux_pack_dir_var_int p dmh.message_number
  let my_stub_byte = serialize_message_stub p dmh.stub
  let chat_size = dmh.stub.chat_id_length + 1
  let num_size = dmh.stub.message_number_length + 1
  b₁ ← memcpy my_serial 0 (my_stub_byte ∷ [])
  b₂ ← memcpy b₁ 1 (take chat_size (word_bytes p p.long_size chat_id_convert))
  b₃ ← memcpy b₂ (1 + chat_size) (take my_source_id_size (word_bytes p 8 source_id_convert))
  b₄ ←
      memcpy b₃ (1 + chat_size + my_source_id_size)
        (take num_size (word_bytes p p.long_size msg_num_convert))
  some b₄

-- `some none` is the result NULL: the header has no size, or `malloc` failed.
unfoldable pub linux_serialize_data :
    Platform → Allocator → DataMessageHeader → Option (Option (List ℕ))
linux_serialize_data p a dmh =
    let my_size = get_serialized_size_of_data_message_header dmh in
    if my_size == 0 then some none else elim (a.malloc my_size) [
      | none ↦ some none
      | some my_serial ↦ linux_write_data p dmh my_serial >>= λ b. some (some b)
    ]

unfoldable pub linux_write_control : Platform → ControlMessageHeader → List ℕ → Option (List ℕ)
linux_write_control p cmh my_serial = do
  let my_source_id_size = linux_get_size_of_lvi_to_pack cmh.source_id
  let source_id_convert = linux_pack_log_var_int p cmh.source_id
  let chat_id_convert = linux_pack_dir_var_int p cmh.chat_id
  let msg_num_convert = linux_pack_dir_var_int p cmh.message_number
  let my_stub_byte = serialize_message_stub p cmh.stub
  let my_version = if linux_little_endian p then bswap 4 cmh.version else cmh.version
  let chat_size = cmh.stub.chat_id_length + 1
  let num_size = cmh.stub.message_number_length + 1
  b₁ ← memcpy my_serial 0 (my_stub_byte ∷ [])
  b₂ ← memcpy b₁ 1 (take 4 (word_bytes p p.long_size my_version))
  b₃ ← memcpy b₂ 5 (take chat_size (word_bytes p p.long_size chat_id_convert))
  b₄ ← memcpy b₃ (5 + chat_size) (take my_source_id_size (word_bytes p 8 source_id_convert))
  b₅ ←
      memcpy b₄ (5 + chat_size + my_source_id_size)
        (take num_size (word_bytes p p.long_size msg_num_convert))
  some b₅

unfoldable pub linux_serialize_control :
    Platform → Allocator → ControlMessageHeader → Option (Option (List ℕ))
linux_serialize_control p a cmh =
    let my_size = get_serialized_size_of_control_message_header cmh in
    if my_size == 0 then some none else elim (a.malloc my_size) [
      | none ↦ some none
      | some my_serial ↦ linux_write_control p cmh my_serial >>= λ b. some (some b)
    ]

-- The ids are cut to the 32 bits of the struct's fields.
unfoldable pub linux_rebuild_data : Platform → List ℕ → Option DataMessageHeader
linux_rebuild_data p serialized = do
  stub ← rebuild_message_stub serialized
  let loc₁ = drop 1 serialized
  chat_id ← linux_unpack_dir_var_int p loc₁ (stub.chat_id_length + 1)
  let loc₂ = drop (stub.chat_id_length + 1) loc₁
  source_id ← linux_unpack_log_var_int p loc₂
  let inc = linux_get_size_of_lvi_to_pack source_id
  let loc₃ = drop inc loc₂
  message_number ← linux_unpack_dir_var_int p loc₃ (stub.message_number_length + 1)
  some (record {
    stub = stub;
    chat_id = u32 chat_id;
    source_id = source_id;
    message_number = u32 message_number;
  })

unfoldable pub linux_rebuild_control : Platform → List ℕ → Option ControlMessageHeader
linux_rebuild_control p serialized = do
  stub ← rebuild_message_stub serialized
  let loc₁ = drop 1 serialized
  version ← rebuild_version loc₁
  let loc₂ = drop 4 loc₁
  chat_id ← linux_unpack_dir_var_int p loc₂ (stub.chat_id_length + 1)
  let loc₃ = drop (stub.chat_id_length + 1) loc₂
  source_id ← linux_unpack_log_var_int p loc₃
  let inc = linux_get_size_of_lvi_to_pack source_id
  let loc₄ = drop inc loc₃
  message_number ← linux_unpack_dir_var_int p loc₄ (stub.message_number_length + 1)
  some (record {
    stub = stub;
    version = version;
    chat_id = u32 chat_id;
    source_id = source_id;
    message_number = u32 message_number;
  })

-- The lengths are those of the arguments, which the fields cut to 32 bits.
unfoldable pub linux_construct_data : ℕ → ℕ → ℕ → DataMessageHeader
linux_construct_data chat_id source_id message_number = record {
  stub = record {
    message_class = 0;
    control_type = 0;
    message_number_length = (linux_get_size_of_dvi_to_pack message_number - 1) % 4;
    chat_id_length = (linux_get_size_of_dvi_to_pack chat_id - 1) % 4;
    data_flag = 0;
  };
  chat_id = u32 chat_id;
  source_id = source_id;
  message_number = u32 message_number;
}

unfoldable pub linux_construct_control : ℕ → ℕ → ℕ → ℕ → ℕ → ℕ → ControlMessageHeader
linux_construct_control control_type version chat_id source_id message_number has_data = record {
  stub = record {
    message_class = 1;
    control_type = bit_and control_type 3 % 4;
    message_number_length = (linux_get_size_of_dvi_to_pack message_number - 1) % 4;
    chat_id_length = (linux_get_size_of_dvi_to_pack chat_id - 1) % 4;
    data_flag = if truthy has_data then 1 else 0;
  };
  version = u32 version;
  chat_id = u32 chat_id;
  source_id = source_id;
  message_number = u32 message_number;
}
