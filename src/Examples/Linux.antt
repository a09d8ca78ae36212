-- ===== src/Examples/Linux.antt =====
-- The program's copies of the wire code on concrete bytes.
use qmsp.Base.{ℕ, ◌+◌, ◌*◌, ◌^◌, ◌≡◌, ◌≢◌, ◌⊎◌, inl, inr, refl, arith, List, [], ◌∷◌, ◌++◌, some}
use qmsp.VariableLengthInt.{
  unpack_log_var_int, unpack_dir_var_int, gather, get_size_of_lvi_to_pack, get_size_of_dvi_to_pack,
}
use qmsp.Messages.{
  DataMessageHeader, ControlMessageHeader, construct_data_message_header,
  construct_control_message_header, serialize_data_message_header, serialize_control_message_header,
  rebuild_data_message, rebuild_control_message,
}
use qmsp.Frames.{
  TransitMetadataFrame, read_transit_metadata, read_post_transit_id, unpack_transit_metadata,
}
use qmsp.Frames.Extract.{
  Slot, frames, fault, stuck, extract_frames, extract_loop, unpack_one, entry,
}
use qmsp.Frames.Pack.{Frame, get_serialized_size_of_frame, serialize_frame_into, serialize_frame}
use qmsp.Linux.{linux_unpack_log_var_int, linux_unpack_dir_var_int}
use qmsp.Linux.Messages.{
  linux_serialize_data, linux_serialize_control, linux_rebuild_data, linux_rebuild_control,
  linux_construct_data, linux_construct_control,
}
use qmsp.Linux.Headers.{write-linux}
use qmsp.Linux.Rebuild.{read-linux}
use qmsp.Linux.RoundTrip.{linux_seen, id_seen, linux_rebuild-serialize}
use qmsp.Linux.Frames.{
  linux_extract_frames, linux_unpack_one, linux_unpack_transit, linux_read_transit,
}
use qmsp.Linux.{linux_unpack_log_var_int, linux_get_size_of_lvi_to_pack}
use qmsp.Base.{drop, replicate}
use qmsp.ChatCache.{char_word}
use qmsp.Linux.Extract.{
  extract_frames-linux, linux_extract_frames_stuck, Comes, at_start, behind_round,
}
use qmsp.Linux.Pack.{linux_size_of_frame, linux_serialize_frame_into, linux_serialize_frame}
use qmsp.Linux.Packed.{frame-linux}
use qmsp.Examples.{x86_64, powerpc, heap}

abbrev data_header : DataMessageHeader
data_header = record {
  stub = record {
    message_class = 0;
    control_type = 0;
    message_number_length = 3;
    chat_id_length = 0;
    data_flag = 0;
  };
  chat_id = 200;
  source_id = 70000;
  message_number = 4000000000;
}

abbrev control_header : ControlMessageHeader
control_header = record {
  stub = record {
    message_class = 1;
    control_type = 2;
    message_number_length = 0;
    chat_id_length = 1;
    data_flag = 1;
  };
  version = 1;
  chat_id = 60000;
  source_id = 5;
  message_number = 7;
}

write-linux_example :
    (linux_serialize_data x86_64 heap data_header
      ≡ serialize_data_message_header x86_64 heap data_header)
    × (linux_serialize_control x86_64 heap control_header
        ≡ serialize_control_message_header x86_64 heap control_header)
    × (linux_construct_data 3 5 9 ≡ construct_data_message_header 3 5 9)
    × (linux_construct_control 2 1 3 5 9 0 ≡ construct_control_message_header 2 1 3 5 9 0)
write-linux_example =
    write-linux x86_64 heap data_header control_header 2 1 3 5 9 0 (inr (refl, refl)) (omega arith)
      (omega arith) (omega arith) (omega arith) (omega arith) (omega arith)

abbrev some_bytes : List ℕ
some_bytes = 0x43 ∷ 0xe8 ∷ 0xff ∷ 0xff ∷ []

read-linux_example :
    (linux_unpack_log_var_int powerpc some_bytes ≡ unpack_log_var_int some_bytes)
    × (linux_unpack_dir_var_int powerpc some_bytes 4 ≡ unpack_dir_var_int some_bytes 4)
    × (linux_rebuild_data powerpc some_bytes ≡ rebuild_data_message some_bytes)
    × (linux_rebuild_control powerpc some_bytes ≡ rebuild_control_message some_bytes)
read-linux_example = read-linux powerpc some_bytes 4 (inl refl) (omega arith) (omega arith)

-- The id 2^32 + 5 is sent as 5, and is read as 5 * 2^24.
large_id_seen : (linux_seen (2 ^ 32 + 5) 1 1).chat_id ≡ 5 * 2 ^ 24
unfolding linux_seen id_seen get_size_of_dvi_to_pack
large_id_seen = refl

linux_rebuild-serialize_example :
    (bytes : List ℕ) × (linux_serialize_data x86_64 heap (linux_construct_data 4294967301 1 1)
      ≡ some (some bytes))
    × (linux_rebuild_data x86_64 (bytes ++ (9 ∷ [])) ≡ some (linux_seen 4294967301 1 1))
linux_rebuild-serialize_example =
    linux_rebuild-serialize x86_64 heap 4294967301 1 1 (9 ∷ []) _ (inr (refl, refl)) (omega arith)
      (omega arith) refl

abbrev tmd : TransitMetadataFrame
tmd = record {
  type = 0;
  post_transit_id = 258;
  total_message_count = 1;
  specific_message_count = 1;
}

abbrev tmd_bytes : List ℕ
tmd_bytes = 0 ∷ 0 ∷ 0 ∷ 1 ∷ 2 ∷ 1 ∷ 1 ∷ []

tmd_bytes-frames : extract_frames heap 2 8 tmd_bytes ≡ frames (Slot.transit tmd ∷ [])
unfolding extract_frames extract_loop unpack_one entry unpack_transit_metadata read_transit_metadata
    read_post_transit_id unpack_log_var_int gather get_size_of_lvi_to_pack
tmd_bytes-frames = refl

extract_frames-linux_example :
    linux_extract_frames x86_64 heap 2 8 tmd_bytes ≡ frames (Slot.transit tmd ∷ [])
extract_frames-linux_example =
    extract_frames-linux x86_64 heap 2 8 tmd_bytes (Slot.transit tmd ∷ []) tmd_bytes-frames (tt, tt)

zero_not_one : ◌≢◌ {A = ℕ} 0 1
zero_not_one h = omega (arith, h)

-- A transit metadata frame of seven bytes, and one of post metadata behind it.
abbrev two_frames : List ℕ
two_frames = 0 ∷ 0 ∷ 0 ∷ 0 ∷ 1 ∷ 1 ∷ 1 ∷ 1 ∷ 5 ∷ 9 ∷ 0 ∷ []

behind_transit : Comes x86_64 heap 12 two_frames 7 6 2 (
    Slot.transit (record {
      type = 0;
      post_transit_id = 1;
      total_message_count = 1;
      specific_message_count = 1;
    })
    ∷ [])
unfolding linux_unpack_one linux_unpack_transit linux_read_transit linux_unpack_log_var_int entry
    gather char_word read_post_transit_id linux_get_size_of_lvi_to_pack get_size_of_lvi_to_pack
behind_transit = behind_round (replicate 8 170) 0 _ 6 at_start refl refl refl refl

one_behind : linux_unpack_log_var_int x86_64 (drop 7 two_frames) ≡ some 1
unfolding linux_unpack_log_var_int gather char_word
one_behind = refl

linux_extract_frames_stuck_example :
    (linux_extract_frames x86_64 heap 1000 12 two_frames ≡ stuck)
    ⊎ (linux_extract_frames x86_64 heap 1000 12 two_frames ≡ fault)
linux_extract_frames_stuck_example =
    linux_extract_frames_stuck x86_64 heap 12 1 two_frames 6 2 _ behind_transit (omega arith)
      one_behind (inl refl) 1000

frame-linux_example :
    (linux_size_of_frame (Frame.transit tmd) 0 ≡ get_serialized_size_of_frame (Frame.transit tmd) 0)
    × (linux_serialize_frame_into x86_64 (Frame.transit tmd) 0 tmd_bytes 0
        ≡ serialize_frame_into x86_64 (Frame.transit tmd) 0 tmd_bytes 0)
    × (linux_serialize_frame x86_64 heap (Frame.transit tmd) 0
        ≡ serialize_frame x86_64 heap (Frame.transit tmd) 0)
frame-linux_example =
    frame-linux x86_64 heap (Frame.transit tmd) 0 tmd_bytes 0 (omega arith) zero_not_one
