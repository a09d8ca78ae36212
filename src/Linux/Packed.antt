-- ===== src/Linux/Packed.antt =====
-- OriginalLinuxCode/Frames.c and Frames.c: both write the same frames.
use mathlib.Core.Path.{fun_ext}
use qmsp.Base.{ℕ, ◌^◌, ◌<◌, ◌≡◌, ◌≢◌, refl, ap, arith, Option, some, ◌>>=◌, List}
use qmsp.Base.Memory.{Platform, Allocator}
use qmsp.VariableLengthInt.{get_size_of_lvi_to_pack, pack_log_var_int}
use qmsp.Frames.{TransitMetadataFrame, PlaintextFrame}
use qmsp.Frames.Pack.{
  Frame, transit, plaintext, serialize_frame, get_serialized_size_of_tmd,
  get_serialized_size_of_ptf, get_serialized_size_of_frame, write_tmd, serialize_tmd,
  serialize_tmd_into, serialize_ptf_into, serialize_frame_into,
}
use qmsp.Linux.{linux_get_size_of_lvi_to_pack, linux_pack_log_var_int}
use qmsp.Linux.Integers.{linux_little_endian_lem, bswap-32, size_lvi-linux, pack_log-linux}
use qmsp.Linux.Pack.{
  linux_size_of_tmd, linux_size_of_ptf, linux_size_of_frame, linux_write_tmd, linux_serialize_tmd,
  linux_serialize_tmd_into, linux_serialize_ptf_into, linux_serialize_frame_into,
  linux_serialize_frame,
}

size_same : linux_get_size_of_lvi_to_pack ≡ get_size_of_lvi_to_pack
size_same = fun_ext size_lvi-linux

pack_same : (p : Platform) → linux_pack_log_var_int p ≡ pack_log_var_int p
pack_same p = fun_ext (pack_log-linux p)

size_tmd-linux :
    (frame : TransitMetadataFrame) → linux_size_of_tmd frame ≡ get_serialized_size_of_tmd frame
unfolding linux_size_of_tmd get_serialized_size_of_tmd
size_tmd-linux frame = rw size_same refl

size_ptf-linux :
    (frame : PlaintextFrame) → linux_size_of_ptf frame ≡ get_serialized_size_of_ptf frame
unfolding linux_size_of_ptf get_serialized_size_of_ptf
size_ptf-linux frame = rw size_same refl

size_frame-linux :
    (frame : Frame) (frame_type : ℕ)
    → linux_size_of_frame frame frame_type ≡ get_serialized_size_of_frame frame frame_type
unfolding linux_size_of_frame get_serialized_size_of_frame
size_frame-linux (transit tmd) frame_type = rw (size_tmd-linux tmd) refl
size_frame-linux (plaintext ptf) frame_type = rw (size_ptf-linux ptf) refl

write_tmd-linux :
    (p : Platform) (frame : TransitMetadataFrame) (buffer : List ℕ) (loc : ℕ)
    → frame.post_transit_id < 2 ^ 32
    → linux_write_tmd p frame buffer loc ≡ write_tmd p frame buffer loc
unfolding linux_write_tmd write_tmd
write_tmd-linux p frame buffer loc word =
    rw (size_same, pack_same p, linux_little_endian_lem p, bswap-32 frame.post_transit_id word) refl

write_ptf-linux :
    (p : Platform) (frame : PlaintextFrame) (buffer : List ℕ) (loc : ℕ)
    → linux_serialize_ptf_into p frame buffer loc ≡ serialize_ptf_into p frame buffer loc
unfolding linux_serialize_ptf_into serialize_ptf_into
write_ptf-linux p frame buffer loc = rw (size_same, pack_same p, size_ptf-linux frame) refl

-- The identifier of a post in transit is a word.
abbrev pub IsFrame : Frame → Type 0
IsFrame (transit tmd) = tmd.post_transit_id < 2 ^ 32
IsFrame (plaintext ptf) = Unit

write_frame-linux :
    (p : Platform) (frame : Frame) (frame_type : ℕ) (buffer : List ℕ) (loc : ℕ)
    → IsFrame frame
    → frame_type ≢ 1
    → linux_serialize_frame_into p frame frame_type buffer loc
      ≡ serialize_frame_into p frame frame_type buffer loc
unfolding linux_serialize_frame_into serialize_frame_into linux_serialize_tmd_into
    serialize_tmd_into
write_frame-linux p (transit tmd) frame_type buffer loc word other =
    rw (write_tmd-linux p tmd buffer loc word) refl
write_frame-linux p (plaintext ptf) frame_type buffer loc word other =
    rw (write_ptf-linux p ptf buffer loc) (ground (arith, other))

serialize_tmd-linux :
    (p : Platform) (a : Allocator) (frame : TransitMetadataFrame)
    → frame.post_transit_id < 2 ^ 32
    → linux_serialize_tmd p a frame ≡ serialize_tmd p a frame
unfolding linux_serialize_tmd serialize_tmd
serialize_tmd-linux p a frame word = rw (size_tmd-linux frame) (
    ap
      (λ (write : List ℕ → ℕ → Option (List ℕ × ℕ)).
        a.malloc (get_serialized_size_of_tmd frame) >>= λ my_serial.
        write my_serial 0 >>= λ written. some written.0)
      (fun_ext (λ buffer. fun_ext (λ loc. write_tmd-linux p frame buffer loc word))))

serialize_frame-linux :
    (p : Platform) (a : Allocator) (frame : Frame) (frame_type : ℕ)
    → IsFrame frame
    → linux_serialize_frame p a frame frame_type ≡ serialize_frame p a frame frame_type
unfolding linux_serialize_frame serialize_frame
serialize_frame-linux p a (transit tmd) frame_type word = rw (serialize_tmd-linux p a tmd word) refl
serialize_frame-linux p a (plaintext ptf) frame_type word = refl

-- The program's copy takes a frame to have the size that Frames.c takes it to have, and writes it into a
-- buffer as Frames.c does, whatever the type it is told, but for type 1: a transit metadata frame whose
-- identifier is a 32-bit word, and any plaintext frame. A frame that it writes into a block of its own is
-- the same, too.
pub frame-linux :
    (p : Platform) (a : Allocator) (frame : Frame) (frame_type : ℕ) (buffer : List ℕ) (loc : ℕ)
    → IsFrame frame
    → frame_type ≢ 1
    → (linux_size_of_frame frame frame_type ≡ get_serialized_size_of_frame frame frame_type)
      × (linux_serialize_frame_into p frame frame_type buffer loc
          ≡ serialize_frame_into p frame frame_type buffer loc)
      × (linux_serialize_frame p a frame frame_type ≡ serialize_frame p a frame frame_type)
frame-linux p a frame frame_type buffer loc word other = (
  size_frame-linux frame frame_type,
  write_frame-linux p frame frame_type buffer loc word other,
  serialize_frame-linux p a frame frame_type word,
)
