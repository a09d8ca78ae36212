-- ===== src/VariableLengthInt/Direct.antt =====
-- Direct variable integers: what `pack_dir_var_int` puts into memory, and reading `n` bytes back.
use native.Mathlib.Nat.{pow-suc, pow-le-pow_right, one-le-pow}
use qmsp.Base.{ℕ, zero, suc, ◌+◌, ◌-◌, ◌*◌, ◌/◌, ◌%◌, ◌^◌, ◌≤◌, ◌<◌, ◌≡◌, refl, ap, arith}
use qmsp.Base.{List, ◌∷◌, ◌++◌, some, take, if◌then◌else◌, true}
use qmsp.Base.{◌⊎◌}
use qmsp.Base.Memory.{Platform, be_bytes, le_bytes, word_bytes}
use qmsp.ByteSwap.{little_endian, rev_32}
use qmsp.ByteSwap.Laws.{little_endian_lem, le_bytes-rev_32}
use qmsp.VariableLengthInt.{unpack_dir_var_int, get_size_of_dvi_to_pack, pack_dir_var_int}
use qmsp.VariableLengthInt.Gather.{gather-be_bytes, split_digit}

-- The machines on which the first four bytes of an `unsigned long` hold a 32-bit word: all
-- little-endian ones, and the others where `unsigned long` has four bytes.
abbrev pub LongFits : Platform → Type 0
LongFits p = (p.little ≡ true) × (4 ≤ p.long_size) ⊎ (p.long_size ≡ 4)

pub take-le_bytes : (n w x : ℕ) → n ≤ w → take n (le_bytes w x) ≡ le_bytes n x
unfolding le_bytes
take-le_bytes zero w x h = refl
take-le_bytes (suc n) zero x h = absurd (omega arith)
take-le_bytes (suc n) (suc w) x h =
    ap (λ r. (x % 256) ∷ r) (take-le_bytes n w (x / 256) (omega arith))

-- The first bytes of a 32-bit word that was reversed on a little-endian machine only.
pub take-word_bytes_long :
    (p : Platform) (n c : ℕ)
    → LongFits p
    → n ≤ 4
    → c < 2 ^ 32
    → take n (word_bytes p p.long_size (if little_endian p then rev_32 c else c))
      ≡ take n (be_bytes 4 c)
unfolding word_bytes
take-word_bytes_long p n c fits few h = ground (
  arith,
  little_endian_lem p,
  take-le_bytes n p.long_size (rev_32 c),
  take-le_bytes n 4 (rev_32 c),
  le_bytes-rev_32 c,
)

pub take-be_bytes : (n x : ℕ) → n ≤ 4 → take n (be_bytes 4 x) ≡ be_bytes n (x / 256 ^ (4 - n))
unfolding be_bytes
take-be_bytes zero x h = refl
take-be_bytes (suc zero) x h = ground arith
take-be_bytes (suc (suc zero)) x h = ground arith
take-be_bytes (suc (suc (suc zero))) x h = ground arith
take-be_bytes (suc (suc (suc (suc zero)))) x h = ground arith
take-be_bytes (suc (suc (suc (suc (suc n))))) x h = absurd (omega arith)

-- The word that `pack_dir_var_int` builds before its bytes are reversed.
unfoldable pub dvi_word : ℕ → ℕ
dvi_word v = v * 2 ^ ((4 - get_size_of_dvi_to_pack v) * 8)

dvi_word-lt : (v : ℕ) → v < 2 ^ 32 → dvi_word v < 2 ^ 32
unfolding dvi_word get_size_of_dvi_to_pack
dvi_word-lt v h = ground arith

pub take-pack_dir_var_int :
    (p : Platform) (n v : ℕ)
    → LongFits p
    → n ≤ 4
    → v < 2 ^ 32
    → take n (word_bytes p p.long_size (pack_dir_var_int p v))
      ≡ be_bytes n (dvi_word v / 256 ^ (4 - n))
unfolding pack_dir_var_int dvi_word
take-pack_dir_var_int p n v fits few h = ground (
  arith,
  take-word_bytes_long p n (dvi_word v) fits few,
  take-be_bytes n (dvi_word v) few,
  dvi_word-lt v h,
)

room_for_byte : (q p : ℕ) → p * 256 ≤ 2 ^ 32 → q % 256 * p + p ≤ 2 ^ 32
room_for_byte q p fits = grind arith

-- Reading `n` bytes of a number gives its lowest `n` bytes.
pub unpack-be_bytes :
    (n x : ℕ) (rest : List ℕ)
    → 1 ≤ n
    → n ≤ 4
    → unpack_dir_var_int (be_bytes n x ++ rest) n ≡ some (x % 256 ^ n)
unfolding unpack_dir_var_int be_bytes
unpack-be_bytes zero x rest pos few = absurd (omega arith)
unpack-be_bytes (suc n) x rest pos few =
    let small : 256 ^ n * 256 ≤ 2 ^ 32 =
      rw (← pow-suc 256 n) (pow-le-pow_right {n = 256} (omega arith) {i = suc n} {j = 4} few) in
    let rounds : suc n - 1 ≡ n = omega arith in
    let p : 0 < 256 ^ n = one-le-pow n 256 (omega arith) in
    rw (rounds, pow-suc 256 n, split_digit x (256 ^ n) p)
      (gather-be_bytes 32 n (x / 256 ^ n % 256) x rest
        (room_for_byte (x / 256 ^ n) (256 ^ n) small))
