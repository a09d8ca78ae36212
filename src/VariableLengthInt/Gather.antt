-- ===== src/VariableLengthInt/Gather.antt =====
-- The read loop of both unpackers, against the bytes of a number.
use native.Mathlib.Nat.{
  pow-suc, add-mul-mod_self_right, mod-lt, div-add-mod', one-le-pow, mod-eq_of_lt,
}
use qmsp.Base.{ℕ, zero, suc, ◌+◌, ◌*◌, ◌/◌, ◌%◌, ◌^◌, ◌≤◌, ◌<◌, ◌≡◌, ap, ◌∙◌, arith}
use qmsp.Base.{List, ◌++◌, some}
use qmsp.Base.Memory.{be_bytes}
use qmsp.VariableLengthInt.{gather}

-- One more byte in front: the digit above and what is below it.
pub split_digit : (x p : ℕ) → 0 < p → x % (p * 256) ≡ x / p % 256 * p + x % p
split_digit x p pos =
    ap (λ t. t % (p * 256)) whole
    ∙ add-mul-mod_self_right (x / p % 256 * p + x % p) (x / p / 256) (p * 256)
    ∙ mod-eq_of_lt (grind (arith, mod-lt x pos, below))
  where
    whole : x ≡ x / p % 256 * p + x % p + x / p / 256 * (p * 256)
    whole = omega (arith, div-add-mod' x p, ap (λ (t : ℕ). t * p) (div-add-mod' (x / p) 256))

    below : x / p % 256 * p ≤ 255 * p
    below = grind arith

-- A byte enters a word that has room for it.
enter :
    (value b m : ℕ) → b < 256 → value * 256 + 256 ≤ m → (value * 256 % m + b) % m ≡ value * 256 + b
enter value b m small room =
    let fits : value * 256 < m = omega arith in rw (mod-eq_of_lt fits) (mod-eq_of_lt (omega arith))

room_now : (value p m : ℕ) → 0 < p → value * (p * 256) + p * 256 ≤ m → value * 256 + 256 ≤ m
room_now value p m pos room = grind arith

room_next :
    (value b p m : ℕ) → b < 256 → value * (p * 256) + p * 256 ≤ m → (value * 256 + b) * p + p ≤ m
room_next value b p m small room = grind arith

-- Reading the lowest `n` bytes of `x` behind `value`, where the word has room for them.
pub gather-be_bytes :
    (bits n value x : ℕ) (rest : List ℕ)
    → value * 256 ^ n + 256 ^ n ≤ 2 ^ bits
    → gather bits n value (be_bytes n x ++ rest) ≡ some (value * 256 ^ n + x % 256 ^ n)
unfolding gather be_bytes
gather-be_bytes bits zero value x rest fits = ground arith
gather-be_bytes bits (suc n) value x rest fits =
    let b = x / 256 ^ n % 256 in
    let fits' : value * (256 ^ n * 256) + 256 ^ n * 256 ≤ 2 ^ bits = rw (pow-suc 256 n) at fits in
    let pos : 0 < 256 ^ n = one-le-pow n 256 (omega arith) in
    rw
      (
        enter value b (2 ^ bits) (omega arith) (room_now value (256 ^ n) (2 ^ bits) pos fits'),
        gather-be_bytes bits n (value * 256 + b) x rest
            (room_next value b (256 ^ n) (2 ^ bits) (omega arith) fits'),
        pow-suc 256 n,
        split_digit x (256 ^ n) pos,
      )
      (ap some (omega arith))
