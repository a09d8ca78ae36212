-- ===== src/Linux/Headers.antt =====
-- OriginalLinuxCode/Messages.c and Messages.c: both write the same bytes.
use mathlib.Core.Path.{fun_ext}
use qmsp.Base.{
  ℕ, ◌+◌, ◌^◌, ◌<◌, ◌≡◌, refl, ap, arith, Option, none, some, ◌>>=◌, List, u32, if◌then◌else◌, ◌==◌,
}
use qmsp.Base.Memory.{Platform, Allocator}
use qmsp.Messages.{
  MessageStub, DataMessageHeader, ControlMessageHeader, serialize_data_message_header,
  write_data_message_header, serialize_control_message_header, write_control_message_header,
  get_serialized_size_of_data_message_header, get_serialized_size_of_control_message_header,
  construct_data_message_header, construct_control_message_header,
}
use qmsp.Linux.Integers.{
  linux_little_endian_lem, bswap-32, size_lvi-linux, size_dvi-linux, pack_log-linux,
  take-pack_dir-linux, LinuxLong,
}
use qmsp.Linux.Messages.{
  linux_write_data, linux_serialize_data, linux_write_control, linux_serialize_control,
  linux_construct_data, linux_construct_control,
}

-- The lengths of a stub are two bits.
abbrev pub ShortStub : MessageStub → Type 0
ShortStub s = (s.chat_id_length < 4) × (s.message_number_length < 4)

write_data-linux :
    (p : Platform) (dmh : DataMessageHeader) (block : List ℕ)
    → LinuxLong p
    → ShortStub dmh.stub
    → linux_write_data p dmh block ≡ write_data_message_header p dmh block
unfolding linux_write_data write_data_message_header
write_data-linux p dmh block fits (short, short') =
    rw
      (
        pack_log-linux p dmh.source_id,
        take-pack_dir-linux p (dmh.stub.chat_id_length + 1) dmh.chat_id fits (omega (arith, short)),
        take-pack_dir-linux p (dmh.stub.message_number_length + 1) dmh.message_number fits
            (omega (arith, short')),
        size_lvi-linux dmh.source_id,
      )
      refl

write_control-linux :
    (p : Platform) (cmh : ControlMessageHeader) (block : List ℕ)
    → LinuxLong p
    → ShortStub cmh.stub
    → cmh.version < 2 ^ 32
    → linux_write_control p cmh block ≡ write_control_message_header p cmh block
unfolding linux_write_control write_control_message_header
write_control-linux p cmh block fits (short, short') word =
    rw
      (
        pack_log-linux p cmh.source_id,
        take-pack_dir-linux p (cmh.stub.chat_id_length + 1) cmh.chat_id fits (omega (arith, short)),
        take-pack_dir-linux p (cmh.stub.message_number_length + 1) cmh.message_number fits
            (omega (arith, short')),
        size_lvi-linux cmh.source_id,
        linux_little_endian_lem p,
        bswap-32 cmh.version word,
      )
      refl

pub serialize_data-linux :
    (p : Platform) (a : Allocator) (dmh : DataMessageHeader)
    → LinuxLong p
    → ShortStub dmh.stub
    → linux_serialize_data p a dmh ≡ serialize_data_message_header p a dmh
unfolding linux_serialize_data serialize_data_message_header
serialize_data-linux p a dmh fits short =
    ap
      (λ (write : List ℕ → Option (List ℕ)).
        if get_serialized_size_of_data_message_header dmh == 0
        then some none
        else elim (a.malloc (get_serialized_size_of_data_message_header dmh)) [
          | none ↦ some none
          | some my_serial ↦ write my_serial >>= λ b. some (some b)
        ])
      (fun_ext (λ block. write_data-linux p dmh block fits short))

pub serialize_control-linux :
    (p : Platform) (a : Allocator) (cmh : ControlMessageHeader)
    → LinuxLong p
    → ShortStub cmh.stub
    → cmh.version < 2 ^ 32
    → linux_serialize_control p a cmh ≡ serialize_control_message_header p a cmh
unfolding linux_serialize_control serialize_control_message_header
serialize_control-linux p a cmh fits short word =
    ap
      (λ (write : List ℕ → Option (List ℕ)).
        if get_serialized_size_of_control_message_header cmh == 0
        then some none
        else elim (a.malloc (get_serialized_size_of_control_message_header cmh)) [
          | none ↦ some none
          | some my_serial ↦ write my_serial >>= λ b. some (some b)
        ])
      (fun_ext (λ block. write_control-linux p cmh block fits short word))

-- The constructors make the same headers of 32-bit ids.
pub construct_data-linux :
    (c s m : ℕ)
    → c < 2 ^ 32
    → m < 2 ^ 32
    → linux_construct_data c s m ≡ construct_data_message_header c s m
unfolding linux_construct_data construct_data_message_header
construct_data-linux c s m hc hm =
    let chat : u32 c ≡ c = omega (arith, hc) in
    let number : u32 m ≡ m = omega (arith, hm) in
    rw (chat, number, size_dvi-linux c, size_dvi-linux m) refl

pub construct_control-linux :
    (t v c s m d : ℕ)
    → v < 2 ^ 32
    → c < 2 ^ 32
    → m < 2 ^ 32
    → linux_construct_control t v c s m d ≡ construct_control_message_header t v c s m d
unfolding linux_construct_control construct_control_message_header
construct_control-linux t v c s m d hv hc hm =
    let version : u32 v ≡ v = omega (arith, hv) in
    let chat : u32 c ≡ c = omega (arith, hc) in
    let number : u32 m ≡ m = omega (arith, hm) in
    rw (version, chat, number, size_dvi-linux c, size_dvi-linux m) refl

-- On the machines of LinuxLong, the program's copy of Messages.c makes the headers that Messages.c makes,
-- of ids and a version of 32 bits, and writes the bytes that Messages.c writes: of each data header, and
-- of each control header whose version has 32 bits, with lengths of two bits in its stub.
pub write-linux :
    (p : Platform) (a : Allocator) (dmh : DataMessageHeader) (cmh : ControlMessageHeader)
    (t v c s m d : ℕ)
    → LinuxLong p
    → ShortStub dmh.stub
    → ShortStub cmh.stub
    → cmh.version < 2 ^ 32
    → v < 2 ^ 32
    → c < 2 ^ 32
    → m < 2 ^ 32
    → (linux_serialize_data p a dmh ≡ serialize_data_message_header p a dmh)
      × (linux_serialize_control p a cmh ≡ serialize_control_message_header p a cmh)
      × (linux_construct_data c s m ≡ construct_data_message_header c s m)
      × (linux_construct_control t v c s m d ≡ construct_control_message_header t v c s m d)
write-linux p a dmh cmh t v c s m d fits data_stub control_stub word hv hc hm = (
  serialize_data-linux p a dmh fits data_stub,
  serialize_control-linux p a cmh fits control_stub word,
  construct_data-linux c s m hc hm,
  construct_control-linux t v c s m d hv hc hm,
)
