-- ===== src/VariableLengthInt/AnyInput.antt =====
-- VariableLengthInt.c: `unpack_log_var_int` on any bytes, whoever wrote them.
use native.Mathlib.Nat.{pow-suc, mod-le, le_trans, mul-le-mul_right}
use qmsp.Base.{ℕ, zero, suc, ◌+◌, ◌-◌, ◌*◌, ◌/◌, ◌%◌, ◌^◌, ◌≤◌, ◌<◌, ◌≡◌, refl, arith}
use qmsp.Base.{List, [], ◌∷◌, some, All, length, bit_and}
use qmsp.Base.Bits.{bit_and_mask}
use qmsp.VariableLengthInt.{unpack_log_var_int, get_size_of_lvi_to_pack, gather}

abbrev pub IsByte : ℕ → Type 0
IsByte b = b < 256

pub lvi_size_bounds : (v : ℕ) → (1 ≤ get_size_of_lvi_to_pack v) × (get_size_of_lvi_to_pack v ≤ 8)
unfolding get_size_of_lvi_to_pack
lvi_size_bounds v = ground arith

-- One more byte keeps the bound on what is read.
next_bound :
    (value b r p m : ℕ)
    → b < 256
    → r < ((value * 2 ^ 8 % m + b) % m + 1) * p
    → r < (value + 1) * (p * 256)
next_bound value b r p m small h =
    let below : (value * 2 ^ 8 % m + b) % m + 1 ≤ (value + 1) * 256 =
      omega (arith, mod-le (value * 2 ^ 8) m, mod-le (value * 2 ^ 8 % m + b) m) in
    omega (arith, le_trans h (mul-le-mul_right p below))

gather-lt :
    (bits n value : ℕ) (bytes : List ℕ) (r : ℕ)
    → All IsByte bytes
    → gather bits n value bytes ≡ some r
    → r < (value + 1) * 256 ^ n
unfolding gather
gather-lt bits zero value bytes r h e = ground arith
gather-lt bits (suc n) value [] r h e = cc
gather-lt bits (suc n) value (b ∷ bytes) r (small, h) e = rw (pow-suc 256 n) (
    next_bound value b r (256 ^ n) (2 ^ bits) small
      (gather-lt bits n ((value * 2 ^ 8 % 2 ^ bits + b) % 2 ^ bits) bytes r h e))

gather_total :
    (bits n value : ℕ) (bytes : List ℕ)
    → n ≤ length bytes
    → (r : ℕ) × (gather bits n value bytes ≡ some r)
unfolding gather
gather_total bits zero value bytes h = (value, refl)
gather_total bits (suc n) value [] h = absurd (omega arith)
gather_total bits (suc n) value (b ∷ bytes) h = gather_total bits n _ bytes (omega arith)

size-le : (v k : ℕ) → k < 4 → v < 64 * 256 ^ (2 ^ k - 1) → get_size_of_lvi_to_pack v ≤ 2 ^ k
unfolding get_size_of_lvi_to_pack
size-le v zero h b = ground arith
size-le v (suc zero) h b = ground arith
size-le v (suc (suc zero)) h b = ground arith
size-le v (suc (suc (suc zero))) h b = ground arith
size-le v (suc (suc (suc (suc k)))) h b = absurd (omega arith)

largest : (v k : ℕ) → k < 4 → v < 64 * 256 ^ (2 ^ k - 1) → v < 2 ^ 62
largest v zero h b = omega arith
largest v (suc zero) h b = omega arith
largest v (suc (suc zero)) h b = omega arith
largest v (suc (suc (suc zero))) h b = omega arith
largest v (suc (suc (suc (suc k)))) h b = absurd (omega arith)

mask_bound : (first v p : ℕ) → v < (bit_and first 63 + 1) * p → v < 64 * p
mask_bound first v p h =
    let below : bit_and first 63 + 1 ≤ 64 = omega (arith, bit_and_mask 6 first) in
    le_trans h (mul-le-mul_right p below)

-- Whatever value is read from a list of bytes, it is below 2 ^ 62, and the size by which the
-- callers go on is at most the number of bytes that were read.
pub unpack_advance :
    (first : ℕ) (bytes : List ℕ) (v : ℕ)
    → All IsByte (first ∷ bytes)
    → unpack_log_var_int (first ∷ bytes) ≡ some v
    → (v < 2 ^ 62) × (get_size_of_lvi_to_pack v ≤ 2 ^ (first / 64))
unfolding unpack_log_var_int
unpack_advance first bytes v (small, h) e =
    let one_shift : 1 * 2 ^ (first / 2 ^ 6) - 1 ≡ 2 ^ (first / 64) - 1 = omega arith in
    let bound : v < (bit_and first 63 + 1) * 256 ^ (2 ^ (first / 64) - 1) =
      gather-lt 64 (2 ^ (first / 64) - 1) (bit_and first 63) bytes v h (rw one_shift at e) in
    let bound' = mask_bound first v (256 ^ (2 ^ (first / 64) - 1)) bound in
    (largest v (first / 64) (omega arith) bound', size-le v (first / 64) (omega arith) bound')

-- Bytes enough for the length that the first one tells are always read.
pub unpack_total :
    (first : ℕ) (bytes : List ℕ)
    → 2 ^ (first / 64) ≤ length bytes + 1
    → (v : ℕ) × (unpack_log_var_int (first ∷ bytes) ≡ some v)
unfolding unpack_log_var_int
unpack_total first bytes h = gather_total 64 _ (bit_and first 63) bytes (omega arith)

-- A value below 64 written in two bytes is read, but the callers go on by one byte: the next
-- thing that they read begins inside the number.
pub unpack_padded :
    (v : ℕ) (rest : List ℕ)
    → v < 64
    → (unpack_log_var_int (64 ∷ v ∷ rest) ≡ some v) × (get_size_of_lvi_to_pack v ≡ 1)
unfolding unpack_log_var_int gather get_size_of_lvi_to_pack
unpack_padded v rest h = (ground arith, ground arith)
