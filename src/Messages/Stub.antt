-- ===== src/Messages/Stub.antt =====
-- Messages.c: the stub byte on the wire.
use qmsp.Base.{ℕ, ◌+◌, ◌*◌, ◌/◌, ◌%◌, ◌^◌, ◌<◌, ◌≡◌, arith}
use qmsp.Base.Bits.{bit_and-one, bit_and_three}
use qmsp.Base.Memory.{Platform}
use qmsp.ByteSwap.Laws.{little_endian_lem}
use qmsp.Messages.{MessageStub, stub_memory, reverse_stub, serialize_message_stub, stub_of_byte}

-- The fields fit their widths.
pub record IsStub (s : MessageStub) : Type 0 where
  pub class_bit : s.message_class < 2
  pub type_bits : s.control_type < 4
  pub number_bits : s.message_number_length < 4
  pub chat_bits : s.chat_id_length < 4
  pub flag_bit : s.data_flag < 2

-- The byte of the format: the fields from the highest bit down.
unfoldable pub stub_value : MessageStub → ℕ
stub_value s =
    s.message_class * 128
    + s.control_type * 32
    + s.message_number_length * 8
    + s.chat_id_length * 2
    + s.data_flag

reverse_stub_sum :
    (x : ℕ)
    → x < 256
    → reverse_stub x ≡ x % 2 * 128 + x / 2 % 4 * 32 + x / 8 % 4 * 8 + x / 32 % 4 * 2 + x / 128
unfolding reverse_stub
reverse_stub_sum x h = omega (
  arith,
  bit_and-one x,
  bit_and_three (x / 2 ^ 1),
  bit_and_three (x / 2 ^ 1 / 2 ^ 2),
  bit_and_three (x / 2 ^ 1 / 2 ^ 2 / 2 ^ 2),
  bit_and-one (x / 2 ^ 1 / 2 ^ 2 / 2 ^ 2 / 2 ^ 2),
)

-- Both byte orders give the byte of the format.
pub serialize_message_stub_lem :
    (p : Platform) (s : MessageStub) → IsStub s → serialize_message_stub p s ≡ stub_value s
unfolding serialize_message_stub stub_memory stub_value
serialize_message_stub_lem p s h =
    ground (arith, little_endian_lem p, reverse_stub_sum (stub_memory p s))

stub_of_byte_fields :
    (b : ℕ)
    → b < 256
    → stub_of_byte b ≡ record {
      message_class = b / 128;
      control_type = b / 32 % 4;
      message_number_length = b / 8 % 4;
      chat_id_length = b / 2 % 4;
      data_flag = b % 2;
    }
unfolding stub_of_byte
stub_of_byte_fields b h = ground (
  arith,
  bit_and_three (b / 2 ^ 5),
  bit_and_three (b / 2 ^ 3),
  bit_and_three (b / 2 ^ 1),
  bit_and-one b,
)

pub serialize_message_stub-lt :
    (p : Platform) (s : MessageStub) → IsStub s → serialize_message_stub p s < 256
serialize_message_stub-lt p s h =
    rw (serialize_message_stub_lem p s h) (unfold stub_value in omega arith)

pub stub_of_byte-IsStub : (b : ℕ) → b < 256 → IsStub (stub_of_byte b)
stub_of_byte-IsStub b h = rw (stub_of_byte_fields b h) (omega arith)

pub stub_of_byte-serialize :
    (p : Platform) (s : MessageStub) → IsStub s → stub_of_byte (serialize_message_stub p s) ≡ s
stub_of_byte-serialize p s h =
    rw
      (
        stub_of_byte_fields (serialize_message_stub p s) (serialize_message_stub-lt p s h),
        serialize_message_stub_lem p s h,
      )
      (unfold stub_value in ground arith)

serialize-stub_of_byte :
    (p : Platform) (b : ℕ) → b < 256 → serialize_message_stub p (stub_of_byte b) ≡ b
serialize-stub_of_byte p b h =
    rw
      (
        serialize_message_stub_lem p (stub_of_byte b) (stub_of_byte-IsStub b h),
        stub_of_byte_fields b h,
      )
      (unfold stub_value in omega arith)

-- On either kind of machine a stub whose fields fit is rebuilt from its byte, and a byte is
-- serialized back from the stub that it gives, whose fields fit.
pub stub_of_byte-serialize_message_stub :
    (p : Platform) (s : MessageStub) (b : ℕ)
    → IsStub s
    → b < 256
    → (stub_of_byte (serialize_message_stub p s) ≡ s)
      × IsStub (stub_of_byte b)
      × (serialize_message_stub p (stub_of_byte b) ≡ b)
stub_of_byte-serialize_message_stub p s b hs hb =
    (stub_of_byte-serialize p s hs, stub_of_byte-IsStub b hb, serialize-stub_of_byte p b hb)
