-- ===== src/Linux/Pack.antt =====
-- OriginalLinuxCode/Frames.c: the sizes of serialized frames and the serializers in the program's copy
-- of Frames.c.
use qmsp.Base.{
  ℕ, ◌+◌, ◌-◌, ◌^◌, bit_and, Option, none, some, ◌>>=◌, List, u64, take, truthy, leb, ◌==◌,
  if◌then◌else◌,
}
use qmsp.Base.Memory.{Platform, Allocator, word_bytes, memcpy}
use qmsp.Frames.{TransitMetadataFrame, PlaintextFrame, count_until_terminator, read_bytes}
use qmsp.Frames.Pack.{Frame, transit, plaintext}
use qmsp.Linux.{linux_little_endian, bswap, linux_get_size_of_lvi_to_pack, linux_pack_log_var_int}

unfoldable pub linux_size_of_tmd : TransitMetadataFrame → ℕ
linux_size_of_tmd frame =
    1
    + 4
    + linux_get_size_of_lvi_to_pack frame.total_message_count
    + linux_get_size_of_lvi_to_pack frame.specific_message_count

unfoldable pub linux_size_of_ptf : PlaintextFrame → Option ℕ
linux_size_of_ptf frame =
    if truthy (bit_and frame.type 1)
    then some (u64 (frame.length + linux_get_size_of_lvi_to_pack frame.length + 1))
    else (count_until_terminator frame.txtdta >>= λ counted. some (1 + (1 + counted)))

unfoldable pub linux_size_of_frame : Frame → ℕ → Option ℕ
linux_size_of_frame (transit tmd) frame_type =
    if frame_type == 0
    then some (linux_size_of_tmd tmd)
    else if leb frame_type 3
    then none
    else if leb frame_type 0x0c
    then some 1
    else if frame_type == 0x0d
    then some 2
    else if frame_type == 0x0e
    then some 1
    else some 0
linux_size_of_frame (plaintext ptf) frame_type =
    if frame_type == 0
    then none
    else if leb frame_type 3
    then linux_size_of_ptf ptf
    else if leb frame_type 0x0c
    then some 1
    else if frame_type == 0x0d
    then some 2
    else if frame_type == 0x0e
    then some 1
    else some 0

-- The four copies of both serializers of a transit metadata frame, at `loc` in a buffer.
unfoldable pub linux_write_tmd : Platform → TransitMetadataFrame → List ℕ → ℕ → Option (List ℕ × ℕ)
linux_write_tmd p frame buffer loc = do
  let type_size = linux_get_size_of_lvi_to_pack frame.type
  let t_msg_size = linux_get_size_of_lvi_to_pack frame.total_message_count
  let s_msg_size = linux_get_size_of_lvi_to_pack frame.specific_message_count
  let packed_type = linux_pack_log_var_int p frame.type
  let packed_t_msg = linux_pack_log_var_int p frame.total_message_count
  let packed_s_msg = linux_pack_log_var_int p frame.specific_message_count
  let packed_tr_id =
      if linux_little_endian p then bswap 4 frame.post_transit_id else frame.post_transit_id
  b₁ ← memcpy buffer loc (take type_size (word_bytes p 8 packed_type))
  b₂ ← memcpy b₁ (loc + type_size) (take 4 (word_bytes p 4 packed_tr_id))
  b₃ ← memcpy b₂ (loc + type_size + 4) (take t_msg_size (word_bytes p 8 packed_t_msg))
  b₄ ← memcpy b₃ (loc + type_size + 4 + t_msg_size) (take s_msg_size (word_bytes p 8 packed_s_msg))
  some (b₄, loc + type_size + 4 + t_msg_size + s_msg_size)

-- The result of `malloc` is not tested: copying to NULL is undefined.
unfoldable pub linux_serialize_tmd : Platform → Allocator → TransitMetadataFrame → Option (List ℕ)
linux_serialize_tmd p a frame = do
  my_serial ← a.malloc (linux_size_of_tmd frame)
  (bytes, after) ← linux_write_tmd p frame my_serial 0
  some bytes

unfoldable pub linux_serialize_tmd_into :
    Platform → TransitMetadataFrame → List ℕ → ℕ → Option (List ℕ × ℕ)
linux_serialize_tmd_into p frame buffer loc = linux_write_tmd p frame buffer loc

unfoldable pub linux_serialize_ptf_into :
    Platform → PlaintextFrame → List ℕ → ℕ → Option (List ℕ × ℕ)
linux_serialize_ptf_into p frame buffer loc = do
  let type_size = linux_get_size_of_lvi_to_pack frame.type
  let packed_type = linux_pack_log_var_int p frame.type
  let has_length = truthy (bit_and frame.type 1)
  let len_size = if has_length then linux_get_size_of_lvi_to_pack frame.length else 0
  let packed_len = if has_length then linux_pack_log_var_int p frame.length else 0
  size ← linux_size_of_ptf frame
  let text_size = u64 (size + 2 ^ 64 - 1 - len_size)
  text ← read_bytes text_size frame.txtdta
  b₁ ← memcpy buffer loc (take type_size (word_bytes p 8 packed_type))
  b₂ ← memcpy b₁ (loc + type_size) (take len_size (word_bytes p 8 packed_len))
  b₃ ← memcpy b₂ (loc + type_size + len_size) text
  some (b₃, loc + type_size + len_size + text_size)

-- The buffer and the next place in it; `some none` is the result NULL. Type 1 falls through to the
-- plaintext frames.
unfoldable pub linux_serialize_frame_into :
    Platform → Frame → ℕ → List ℕ → ℕ → Option (Option (List ℕ × ℕ))
linux_serialize_frame_into p (transit tmd) frame_type buffer loc =
    if frame_type == 0
    then (linux_serialize_tmd_into p tmd buffer loc >>= λ r. some (some r))
    else if leb frame_type 3
    then none
    else some none
linux_serialize_frame_into p (plaintext ptf) frame_type buffer loc =
    if frame_type == 0
    then none
    else if leb frame_type 3
    then (linux_serialize_ptf_into p ptf buffer loc >>= λ r. some (some r))
    else some none

-- Only transit metadata frames are serialized; the other types give NULL.
unfoldable pub linux_serialize_frame : Platform → Allocator → Frame → ℕ → Option (Option (List ℕ))
linux_serialize_frame p a (transit tmd) frame_type =
    if frame_type == 0 then (linux_serialize_tmd p a tmd >>= λ b. some (some b)) else some none
linux_serialize_frame p a (plaintext ptf) frame_type = if frame_type == 0 then none else some none
