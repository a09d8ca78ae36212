-- ===== src/MessageReader.antt =====
-- OriginalLinuxCode/MessageReader.c: packing a header and frames into one message, and reading a
-- message back. The functions that it calls are those of Messages.c and Frames.c. The header's
-- struct has 21 bytes, and as many are asked for in both branches.
pub mod Wire
pub mod Pack
pub mod RoundTrip
pub mod EndToEnd
pub mod Apply
use qmsp.Base.{ℕ, ◌+◌, ◌-◌, ◌^◌, Option, none, some, ◌>>=◌, List, [], ◌∷◌, ◌++◌, take, drop, length}
use qmsp.Base.{truthy, leb, if◌then◌else◌, u64, ◌>>>◌}
use qmsp.Base.Memory.{Platform, Allocator}
use qmsp.VariableLengthInt.{get_size_of_lvi_to_pack}
use qmsp.Messages.{
  DataMessageHeader, ControlMessageHeader, rebuild_data_message, rebuild_control_message,
}
use qmsp.Frames.Pack.{Frame, transit, plaintext, get_serialized_size_of_frame, serialize_frame_into}
use qmsp.Frames.Extract.{Extracted, extract_frames}

-- `((struct Frame*) *(AllFrames + i))->type`, the first member of every frame.
unfoldable pub frame_type : Frame → ℕ
frame_type (transit f) = f.type
frame_type (plaintext f) = f.type

-- The first loop of `PackMessage`.
unfoldable pub add_sizes : List Frame → ℕ → Option ℕ
add_sizes [] cur_len = some cur_len
add_sizes (f ∷ fs) cur_len =
    get_serialized_size_of_frame f (frame_type f) >>= λ size. add_sizes fs (u64 (cur_len + size))

-- `realloc`: the old bytes, as many as there is room for, and then anything.
unfoldable pub realloc : Allocator → List ℕ → ℕ → Option (List ℕ)
realloc a old size = a.malloc size >>= λ block. some (take size old ++ drop (length old) block)

-- The second loop. `ppoint` becomes NULL where a frame's type is not serialized; the serializers
-- of the types up to 3 would then write to it.
unfoldable pub write_frames : Platform → List Frame → List ℕ → Option ℕ → Option (List ℕ)
write_frames p [] my_serial ppoint = some my_serial
write_frames p (f ∷ fs) my_serial none =
    let rest = write_frames p fs my_serial none in if leb (frame_type f) 3 then none else rest
write_frames p (f ∷ fs) my_serial (some ppoint) =
    serialize_frame_into p f (frame_type f) my_serial ppoint >>= λ r. elim r [
      | none ↦ write_frames p fs my_serial none
      | some (my_serial', ppoint') ↦ write_frames p fs my_serial' (some ppoint')
    ]

-- The array of frames has `FrameCount` entries. An offset from a NULL of `realloc` is undefined.
unfoldable pub pack_message : Platform → Allocator → List ℕ → List Frame → ℕ → Option (List ℕ)
pack_message p a header frames head_len = do
  cur_len ← add_sizes frames head_len
  my_serial ← realloc a header cur_len
  write_frames p frames my_serial (some head_len)

-- What `msghead` points to.
pub data Head : Type 0 where
  data_head : DataMessageHeader → Head
  control_head : ControlMessageHeader → Head

pub record Message : Type 0 where
  pub msghead : Head
  pub msgframes : Extracted

-- The header with the offset of the frames behind it.
unfoldable pub rebuild_head : List ℕ → Option (Head × ℕ)
rebuild_head [] = none
rebuild_head (b ∷ bytes) =
    if truthy (b >>> 7)
    then (rebuild_control_message (b ∷ bytes) >>= λ cmh. some (
      control_head cmh,
      1
          + 4
          + (cmh.stub.chat_id_length + 1)
          + get_size_of_lvi_to_pack cmh.source_id
          + (cmh.stub.message_number_length + 1),
    ))
    else (rebuild_data_message (b ∷ bytes) >>= λ dmh. some (
      data_head dmh,
      1
          + (dmh.stub.chat_id_length + 1)
          + get_size_of_lvi_to_pack dmh.source_id
          + (dmh.stub.message_number_length + 1),
    ))

-- The result of `malloc` is not tested: copying to NULL is undefined. The fuel is that of
-- `extract_frames`.
unfoldable pub unpack_message : Allocator → ℕ → List ℕ → ℕ → Option Message
unpack_message a fuel byte_stream byte_count = do
  (head, cur_loc) ← rebuild_head byte_stream
  block ← a.malloc 21
  let frames =
      extract_frames a fuel (u64 (byte_count + 2 ^ 64 - cur_loc)) (drop cur_loc byte_stream)
  some (record { msghead = head; msgframes = frames })
