-- ===== src/Frames/Pack.antt =====
-- Frames.c: the sizes of serialized frames and the serializers. A frame behind a `void*` is one of
-- the structs that are modelled; a cast to another struct is undefined here.
pub mod Laws
use qmsp.Base.{ℕ, ◌+◌, ◌-◌, bit_and, Option, none, some, ◌>>=◌, List, [], ◌∷◌, Bool, ◌||◌, ◌&&◌}
use qmsp.Base.{◌^◌, u64, take, truthy, leb, ltb, ◌==◌, if◌then◌else◌, replicate, length, drop}
use qmsp.Base.Memory.{Platform, Allocator, word_bytes, memcpy}
use qmsp.ByteSwap.{little_endian, rev_32}
use qmsp.VariableLengthInt.{get_size_of_lvi_to_pack, pack_log_var_int}
use qmsp.Frames.{TransitMetadataFrame, PlaintextFrame, count_until_terminator, read_bytes}

pub data Frame : Type 0 where
  transit : TransitMetadataFrame → Frame
  plaintext : PlaintextFrame → Frame

unfoldable pub get_serialized_size_of_tmd : TransitMetadataFrame → ℕ
get_serialized_size_of_tmd frame =
    1
    + 4
    + get_size_of_lvi_to_pack frame.total_message_count
    + get_size_of_lvi_to_pack frame.specific_message_count

-- Without a length the text is counted in the frame's memory, its terminator included.
unfoldable pub get_serialized_size_of_ptf : PlaintextFrame → Option ℕ
get_serialized_size_of_ptf frame =
    if truthy (bit_and frame.type 1)
    then some (u64 (frame.length + get_size_of_lvi_to_pack frame.length + 1))
    else (count_until_terminator frame.txtdta >>= λ counted. some (1 + (1 + counted)))

unfoldable pub get_serialized_size_of_frame : Frame → ℕ → Option ℕ
get_serialized_size_of_frame (transit tmd) frame_type =
    if frame_type == 0
    then some (get_serialized_size_of_tmd tmd)
    else if leb frame_type 3
    then none
    else if leb frame_type 0x0c
    then some 1
    else if frame_type == 0x0d
    then some 2
    else if frame_type == 0x0e
    then some 1
    else some 0
get_serialized_size_of_frame (plaintext ptf) frame_type =
    if frame_type == 0
    then none
    else if leb frame_type 3
    then get_serialized_size_of_ptf ptf
    else if leb frame_type 0x0c
    then some 1
    else if frame_type == 0x0d
    then some 2
    else if frame_type == 0x0e
    then some 1
    else some 0

-- The four copies of both serializers of a transit metadata frame, at `loc` in a buffer.
unfoldable pub write_tmd : Platform → TransitMetadataFrame → List ℕ → ℕ → Option (List ℕ × ℕ)
write_tmd p frame buffer loc = do
  let type_size = get_size_of_lvi_to_pack frame.type
  let t_msg_size = get_size_of_lvi_to_pack frame.total_message_count
  let s_msg_size = get_size_of_lvi_to_pack frame.specific_message_count
  let packed_type = pack_log_var_int p frame.type
  let packed_t_msg = pack_log_var_int p frame.total_message_count
  let packed_s_msg = pack_log_var_int p frame.specific_message_count
  let packed_tr_id = if little_endian p then rev_32 frame.post_transit_id else frame.post_transit_id
  b₁ ← memcpy buffer loc (take type_size (word_bytes p 8 packed_type))
  b₂ ← memcpy b₁ (loc + type_size) (take 4 (word_bytes p 4 packed_tr_id))
  b₃ ← memcpy b₂ (loc + type_size + 4) (take t_msg_size (word_bytes p 8 packed_t_msg))
  b₄ ← memcpy b₃ (loc + type_size + 4 + t_msg_size) (take s_msg_size (word_bytes p 8 packed_s_msg))
  some (b₄, loc + type_size + 4 + t_msg_size + s_msg_size)

-- The result of `malloc` is not tested: copying to NULL is undefined.
unfoldable pub serialize_tmd : Platform → Allocator → TransitMetadataFrame → Option (List ℕ)
serialize_tmd p a frame = do
  my_serial ← a.malloc (get_serialized_size_of_tmd frame)
  (bytes, after) ← write_tmd p frame my_serial 0
  some bytes

-- Only transit metadata frames are serialized; the other types give NULL.
unfoldable pub serialize_frame : Platform → Allocator → Frame → ℕ → Option (Option (List ℕ))
serialize_frame p a (transit tmd) frame_type =
    if frame_type == 0 then (serialize_tmd p a tmd >>= λ b. some (some b)) else some none
serialize_frame p a (plaintext ptf) frame_type = if frame_type == 0 then none else some none

unfoldable pub serialize_tmd_into :
    Platform → TransitMetadataFrame → List ℕ → ℕ → Option (List ℕ × ℕ)
serialize_tmd_into p frame buffer loc = write_tmd p frame buffer loc

-- `textSize` is the size of the frame without a byte for the type and the length's bytes.
unfoldable pub serialize_ptf_into : Platform → PlaintextFrame → List ℕ → ℕ → Option (List ℕ × ℕ)
serialize_ptf_into p frame buffer loc = do
  let type_size = get_size_of_lvi_to_pack frame.type
  let packed_type = pack_log_var_int p frame.type
  let has_length = truthy (bit_and frame.type 1)
  let len_size = if has_length then get_size_of_lvi_to_pack frame.length else 0
  let packed_len = if has_length then pack_log_var_int p frame.length else 0
  size ← get_serialized_size_of_ptf frame
  let text_size = u64 (size + 2 ^ 64 - 1 - len_size)
  text ← read_bytes text_size frame.txtdta
  b₁ ← memcpy buffer loc (take type_size (word_bytes p 8 packed_type))
  b₂ ← memcpy b₁ (loc + type_size) (take len_size (word_bytes p 8 packed_len))
  b₃ ← memcpy b₂ (loc + type_size + len_size) text
  some (b₃, loc + type_size + len_size + text_size)

-- The buffer and the next place in it; `some none` is the result NULL.
unfoldable pub serialize_frame_into :
    Platform → Frame → ℕ → List ℕ → ℕ → Option (Option (List ℕ × ℕ))
serialize_frame_into p (transit tmd) frame_type buffer loc =
    if frame_type == 0
    then (serialize_tmd_into p tmd buffer loc >>= λ r. some (some r))
    else if leb frame_type 3
    then none
    else some none
serialize_frame_into p (plaintext ptf) frame_type buffer loc =
    if frame_type == 2 || frame_type == 3
    then (serialize_ptf_into p ptf buffer loc >>= λ r. some (some r))
    else if leb frame_type 1
    then none
    else some none
