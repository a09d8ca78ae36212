-- ===== src/VariableLengthInt/RoundTrip.antt =====
-- VariableLengthInt.c: unpacking what was packed, for both kinds of integer.
use native.Mathlib.Nat.{one-le-pow, mul-div_cancel}
use qmsp.Base.{ℕ, zero, suc, ◌-◌, ◌*◌, ◌/◌, ◌%◌, ◌^◌, ◌≤◌, ◌<◌, ◌≡◌, refl, ap, ◌∙◌, inr, arith}
use qmsp.Base.{List, ◌++◌, some, take}
use qmsp.Base.Memory.{Platform, be_bytes, word_bytes}
use qmsp.VariableLengthInt.{unpack_log_var_int, unpack_dir_var_int, get_size_of_lvi_to_pack}
use qmsp.VariableLengthInt.{get_size_of_dvi_to_pack, pack_log_var_int, pack_dir_var_int, gather}
use qmsp.VariableLengthInt.Log.{
  take-pack_log_var_int, unpack-encoding, packed_zero, word_bytes_zero,
}
use qmsp.VariableLengthInt.Direct.{LongFits, dvi_word, take-pack_dir_var_int, unpack-be_bytes}

-- On either kind of machine, a value below 2 ^ 62 that is packed and copied with its size is read
-- back, whatever follows it.
pub unpack-pack_log :
    (p : Platform) (v : ℕ) (rest : List ℕ)
    → v < 2 ^ 62
    → unpack_log_var_int
        (take (get_size_of_lvi_to_pack v) (word_bytes p 8 (pack_log_var_int p v)) ++ rest)
      ≡ some v
unpack-pack_log p v rest h = rw (take-pack_log_var_int p v h) (unpack-encoding v rest h)

size_too_large : (v : ℕ) → 2 ^ 62 ≤ v → get_size_of_lvi_to_pack v ≡ 8
unfolding get_size_of_lvi_to_pack
size_too_large v h = ground arith

read_zeros : (rest : List ℕ) → unpack_log_var_int (take 8 (be_bytes 8 0) ++ rest) ≡ some 0
unfolding unpack_log_var_int gather be_bytes
read_zeros rest = refl

-- A 64-bit value of 2 ^ 62 or more is packed into eight bytes all the same, which read back as 0.
pub unpack-pack_log_too_large :
    (p : Platform) (v : ℕ) (rest : List ℕ)
    → 2 ^ 62 ≤ v
    → unpack_log_var_int
        (take (get_size_of_lvi_to_pack v) (word_bytes p 8 (pack_log_var_int p v)) ++ rest)
      ≡ some 0
unpack-pack_log_too_large p v rest h =
    rw (packed_zero p v (inr h), word_bytes_zero, size_too_large v h) (read_zeros rest)

dvi_word_digits :
    (n v : ℕ)
    → n ≤ 4
    → v < 2 ^ 32
    → dvi_word v / 256 ^ (4 - n) % 256 ^ n
      ≡ v * 256 ^ (4 - get_size_of_dvi_to_pack v) / 256 ^ (4 - n)
unfolding dvi_word get_size_of_dvi_to_pack
dvi_word_digits zero v few h = ground arith
dvi_word_digits (suc zero) v few h = ground arith
dvi_word_digits (suc (suc zero)) v few h = ground arith
dvi_word_digits (suc (suc (suc zero))) v few h = ground arith
dvi_word_digits (suc (suc (suc (suc zero)))) v few h = ground arith
dvi_word_digits (suc (suc (suc (suc (suc n))))) v few h = absurd (omega arith)

pub dvi_size_bounds : (v : ℕ) → (1 ≤ get_size_of_dvi_to_pack v) × (get_size_of_dvi_to_pack v ≤ 4)
unfolding get_size_of_dvi_to_pack
dvi_size_bounds v = ground arith

pub scale_back : (v k : ℕ) → v * 256 ^ k / 256 ^ k ≡ v
scale_back v k = mul-div_cancel v (one-le-pow k 256 (omega arith))

-- A 32-bit value that is packed, copied with `n` bytes and read with length `n`: it comes back
-- when `n` is its size, scaled by 256 for each byte that `n` is larger, and without its lowest
-- bytes where `n` is smaller. This holds where an `unsigned long` begins with the packed word.
pub unpack-pack_dir :
    (p : Platform) (n v : ℕ) (rest : List ℕ)
    → LongFits p
    → 1 ≤ n
    → n ≤ 4
    → v < 2 ^ 32
    → unpack_dir_var_int (take n (word_bytes p p.long_size (pack_dir_var_int p v)) ++ rest) n
      ≡ some (v * 256 ^ (4 - get_size_of_dvi_to_pack v) / 256 ^ (4 - n))
unpack-pack_dir p n v rest fits pos few h =
    rw
      (
        take-pack_dir_var_int p n v fits few h,
        unpack-be_bytes n (dvi_word v / 256 ^ (4 - n)) rest pos few,
      )
      (ap some (dvi_word_digits n v few h))

-- A value copied and read with its own size is read back.
pub unpack-pack_dir_own_size :
    (p : Platform) (v : ℕ) (rest : List ℕ)
    → LongFits p
    → v < 2 ^ 32
    → unpack_dir_var_int
        (take (get_size_of_dvi_to_pack v) (word_bytes p p.long_size (pack_dir_var_int p v)) ++ rest)
        (get_size_of_dvi_to_pack v)
      ≡ some v
unpack-pack_dir_own_size p v rest fits h =
    let (pos, few) = dvi_size_bounds v in
    unpack-pack_dir p (get_size_of_dvi_to_pack v) v rest fits pos few h
    ∙ ap some (scale_back v (4 - get_size_of_dvi_to_pack v))
