-- ===== src/ByteSwap/Laws.antt =====
-- ByteSwap.c: reversing a word turns its bytes in memory round.
use qmsp.Base.{ℕ, ◌+◌, ◌*◌, ◌/◌, ◌%◌, ◌^◌, ◌<◌, ◌≡◌, sym, arith, bit_and}
use qmsp.Base.{none, ◌++◌, u16, if◌then◌else◌}
use qmsp.Base.Bits.{bit_and_mask}
use qmsp.Base.Memory.{Platform, word_bytes, le_bytes, be_bytes}
use qmsp.ByteSwap.{is_little_endian, little_endian, rev_16, rev_32, rev_64}

rev_16_sum : (x : ℕ) → x < 2 ^ 16 → rev_16 x ≡ x % 256 * 256 + x / 256
unfolding rev_16
rev_16_sum x h = omega (arith, bit_and_mask 8 x)

rev_32_sum :
    (x : ℕ)
    → x < 2 ^ 32
    → rev_32 x ≡ x % 256 * 2 ^ 24 + x / 256 % 256 * 2 ^ 16 + x / 2 ^ 16 % 256 * 256 + x / 2 ^ 24
unfolding rev_32
rev_32_sum x h = omega (
  arith,
  bit_and_mask 16 x,
  rev_16_sum (u16 (bit_and x 0xffff)) (omega arith),
  rev_16_sum (u16 (x / 2 ^ 16)) (omega arith),
)

pub le_bytes-rev_32 : (x : ℕ) → x < 2 ^ 32 → le_bytes 4 (rev_32 x) ≡ be_bytes 4 x
unfolding le_bytes be_bytes
le_bytes-rev_32 x h = ground (arith, rev_32_sum x h)

pub rev_32-lt : (x : ℕ) → x < 2 ^ 32 → rev_32 x < 2 ^ 32
rev_32-lt x h = omega (arith, rev_32_sum x h)

rev_64_halves : (x : ℕ) → x < 2 ^ 64 → rev_64 x ≡ rev_32 (x % 2 ^ 32) * 2 ^ 32 + rev_32 (x / 2 ^ 32)
unfolding rev_64
rev_64_halves x h = ground (
  arith,
  bit_and_mask 32 x,
  rev_32-lt (x % 2 ^ 32) (omega arith),
  rev_32-lt (x / 2 ^ 32) (omega arith),
)

le_bytes_halves :
    (hi lo : ℕ) → lo < 2 ^ 32 → le_bytes 8 (hi * 2 ^ 32 + lo) ≡ le_bytes 4 lo ++ le_bytes 4 hi
unfolding le_bytes be_bytes
le_bytes_halves hi lo h = ground arith

be_bytes_halves :
    (x : ℕ) → x < 2 ^ 64 → be_bytes 8 x ≡ be_bytes 4 (x / 2 ^ 32) ++ be_bytes 4 (x % 2 ^ 32)
unfolding le_bytes be_bytes
be_bytes_halves x h = ground arith

-- The bytes that a reversed 64-bit word occupies on a little-endian machine are the word's own
-- bytes from the highest down.
pub le_bytes-rev_64 : (x : ℕ) → x < 2 ^ 64 → le_bytes 8 (rev_64 x) ≡ be_bytes 8 x
le_bytes-rev_64 x h =
    rw
      (
        rev_64_halves x h,
        le_bytes_halves (rev_32 (x % 2 ^ 32)) (rev_32 (x / 2 ^ 32)) (rev_32-lt _ (omega arith)),
        le_bytes-rev_32 (x / 2 ^ 32) (omega arith),
        le_bytes-rev_32 (x % 2 ^ 32) (omega arith),
      )
      (sym (be_bytes_halves x h))

-- The global `litend` caches the machine's byte order: the answer is 1 exactly on a
-- little-endian machine, and a later call returns it again.
pub is_little_endian_cached :
    (p : Platform)
    → ((is_little_endian p none).0 ≡ (if p.little then 1 else 0))
      × (is_little_endian p (is_little_endian p none).1 ≡ is_little_endian p none)
unfolding is_little_endian word_bytes le_bytes be_bytes
is_little_endian_cached p = ground arith

pub little_endian_lem : (p : Platform) → little_endian p ≡ p.little
unfolding little_endian word_bytes le_bytes be_bytes
little_endian_lem p = ground arith

rev_16-rev_16 : (x : ℕ) → x < 2 ^ 16 → rev_16 (rev_16 x) ≡ x
rev_16-rev_16 x h =
    omega (arith, rev_16_sum x h, rev_16_sum (rev_16 x) (omega (arith, rev_16_sum x h)))

rev_32-rev_32 : (x : ℕ) → x < 2 ^ 32 → rev_32 (rev_32 x) ≡ x
rev_32-rev_32 x h = omega (arith, rev_32_sum x h, rev_32_sum (rev_32 x) (rev_32-lt x h))

rev_64-rev_64 : (x : ℕ) → x < 2 ^ 64 → rev_64 (rev_64 x) ≡ x
rev_64-rev_64 x h = ground (
  arith,
  rev_64_halves x h,
  rev_64_halves (rev_64 x),
  rev_32-lt (x % 2 ^ 32),
  rev_32-lt (x / 2 ^ 32),
  rev_32-rev_32 (x % 2 ^ 32),
  rev_32-rev_32 (x / 2 ^ 32),
)

-- Reversing the bytes of a word twice gives the word back, at each of the three widths, for words
-- of that width.
pub rev_involutive :
    (x y z : ℕ)
    → x < 2 ^ 16
    → y < 2 ^ 32
    → z < 2 ^ 64
    → (rev_16 (rev_16 x) ≡ x) × (rev_32 (rev_32 y) ≡ y) × (rev_64 (rev_64 z) ≡ z)
rev_involutive x y z hx hy hz = (rev_16-rev_16 x hx, rev_32-rev_32 y hy, rev_64-rev_64 z hz)

pub rev_64-lt : (x : ℕ) → x < 2 ^ 64 → rev_64 x < 2 ^ 64
rev_64-lt x h = omega (
  arith,
  rev_64_halves x h,
  rev_32-lt (x % 2 ^ 32) (omega arith),
  rev_32-lt (x / 2 ^ 32) (omega arith),
)
