-- ===== src/VariableLengthInt/Log.antt =====
-- Logarithmic variable integers: what `pack_log_var_int` puts into memory, and reading it back.
use native.Mathlib.Nat.{pow-suc, mod-eq_of_lt}
use qmsp.Base.{ℕ, zero, suc, ◌+◌, ◌-◌, ◌*◌, ◌/◌, ◌%◌, ◌^◌, ◌≤◌, ◌<◌, ◌≡◌, refl, ap, arith}
use qmsp.Base.{List, [], ◌∷◌, ◌++◌, some, take, if◌then◌else◌}
use qmsp.Base.{bit_and, ◌⊎◌, inl, inr, ltb, Bool-cases}
use qmsp.Base.Bits.{bit_and_mask}
use qmsp.Base.Memory.{Platform, be_bytes, le_bytes, word_bytes}
use qmsp.ByteSwap.{little_endian, rev_64}
use qmsp.ByteSwap.Laws.{little_endian_lem, le_bytes-rev_64}
use qmsp.VariableLengthInt.{unpack_log_var_int, get_size_of_lvi_to_pack, move_to_front}
use qmsp.VariableLengthInt.{codify, pack_log_var_int}
use qmsp.VariableLengthInt.Gather.{gather-be_bytes}

-- What the format says of a value: its length and the number spelled by its bytes.
pub lvi_word : ℕ → ℕ
lvi_word v =
    if ltb v (2 ^ 6)
    then v
    else if ltb v (2 ^ 14)
    then 2 ^ 14 + v
    else if ltb v (2 ^ 30)
    then 2 ^ 31 + v
    else 3 * 2 ^ 62 + v

pub lvi_encoding : ℕ → List ℕ
lvi_encoding v = be_bytes (get_size_of_lvi_to_pack v) (lvi_word v)

front_step : (f c : ℕ) → c < 2 ^ 56 → move_to_front (suc f) c ≡ move_to_front f (c * 256)
unfolding move_to_front
front_step f c h = ground arith

front_done : (f c : ℕ) → 2 ^ 56 ≤ c → move_to_front (suc f) c ≡ c
unfolding move_to_front
front_done f c h = ground arith

-- With `f` rounds, the loop brings a 64-bit word to the front by whole bytes and ends by its own
-- test, if `f` bytes are enough to move it there, as seven are for any word but 0.
pub move_to_front_ends :
    (f c : ℕ)
    → c < 2 ^ 64
    → 2 ^ 56 ≤ c * 256 ^ f
    → (k : ℕ) × (k ≤ f)
      × (move_to_front f c ≡ c * 256 ^ k)
      × (2 ^ 56 ≤ c * 256 ^ k)
      × (c * 256 ^ k < 2 ^ 64)
move_to_front_ends zero c h big =
    (0, omega arith, unfold move_to_front in omega arith, big, omega arith)
move_to_front_ends (suc f) c h big = elim (Bool-cases (ltb c (2 ^ 56))) [
  | inl low ↦
      let shorter : 2 ^ 56 ≤ c * 256 * 256 ^ f =
        omega (arith, ap (λ (t : ℕ). c * t) (pow-suc 256 f)) in
      let (k, less, same, high, word) = move_to_front_ends f (c * 256) (ground arith) shorter in
      (
        suc k,
        omega arith,
        ground (arith, front_step f c, ap (λ (t : ℕ). c * t) (pow-suc 256 k)),
        omega (arith, ap (λ (t : ℕ). c * t) (pow-suc 256 k)),
        omega (arith, ap (λ (t : ℕ). c * t) (pow-suc 256 k)),
      )
  | inr high ↦ (0, omega arith, ground (arith, front_done f c), ground arith, omega arith)
]

front_one : (c : ℕ) → 0 < c → c < 2 ^ 8 → move_to_front 8 c ≡ c * 2 ^ 56
front_one c pos h = ground (
  arith,
  front_step 7 c,
  front_step 6 (c * 256),
  front_step 5 (c * 2 ^ 16),
  front_step 4 (c * 2 ^ 24),
  front_step 3 (c * 2 ^ 32),
  front_step 2 (c * 2 ^ 40),
  front_step 1 (c * 2 ^ 48),
  front_done 0 (c * 2 ^ 56),
)

front_two : (c : ℕ) → 2 ^ 14 ≤ c → c < 2 ^ 15 → move_to_front 8 c ≡ c * 2 ^ 48
front_two c lo h = ground (
  arith,
  front_step 7 c,
  front_step 6 (c * 256),
  front_step 5 (c * 2 ^ 16),
  front_step 4 (c * 2 ^ 24),
  front_step 3 (c * 2 ^ 32),
  front_step 2 (c * 2 ^ 40),
  front_done 1 (c * 2 ^ 48),
)

front_four : (c : ℕ) → 2 ^ 31 ≤ c → c < 2 ^ 32 → move_to_front 8 c ≡ c * 2 ^ 32
front_four c lo h = ground (
  arith,
  front_step 7 c,
  front_step 6 (c * 256),
  front_step 5 (c * 2 ^ 16),
  front_step 4 (c * 2 ^ 24),
  front_done 3 (c * 2 ^ 32),
)

codify_word : (v : ℕ) → v < 2 ^ 62 → codify v ≡ lvi_word v
unfolding codify get_size_of_lvi_to_pack lvi_word
codify_word v h = ground arith

front_bytes :
    (v : ℕ)
    → 0 < v
    → v < 2 ^ 62
    → take (get_size_of_lvi_to_pack v) (be_bytes 8 (move_to_front 8 (lvi_word v))) ≡ lvi_encoding v
unfolding lvi_encoding lvi_word be_bytes get_size_of_lvi_to_pack
front_bytes v pos h = ground (
  arith,
  front_one v pos,
  front_two (2 ^ 14 + v),
  front_four (2 ^ 31 + v),
  front_done 7 (3 * 2 ^ 62 + v),
)

lvi_word-lt : (v : ℕ) → v < 2 ^ 62 → lvi_word v < 2 ^ 64
unfolding lvi_word
lvi_word-lt v h = ground arith

front-lt : (f c : ℕ) → c < 2 ^ 64 → move_to_front f c < 2 ^ 64
unfolding move_to_front
front-lt zero c h = h
front-lt (suc f) c h = ground (arith, front-lt f (c * 256 % 2 ^ 64))

-- The bytes in memory of a packed word, on either kind of machine.
packed_bytes :
    (p : Platform) (c : ℕ)
    → c < 2 ^ 64
    → word_bytes p 8 (if little_endian p then rev_64 c else c) ≡ be_bytes 8 c
unfolding word_bytes
packed_bytes p c h = ground (arith, little_endian_lem p, le_bytes-rev_64 c h)

pub word_bytes_zero : (p : Platform) → word_bytes p 8 0 ≡ be_bytes 8 0
unfolding word_bytes le_bytes be_bytes
word_bytes_zero p = ground arith

packed_pos :
    (p : Platform) (v : ℕ)
    → 0 < v
    → v < 2 ^ 62
    → word_bytes p 8 (pack_log_var_int p v) ≡ be_bytes 8 (move_to_front 8 (lvi_word v))
unfolding pack_log_var_int
packed_pos p v pos h = ground (
  arith,
  codify_word v h,
  packed_bytes p (move_to_front 8 (lvi_word v)),
  front-lt 8 (lvi_word v),
  lvi_word-lt v,
)

pub packed_zero : (p : Platform) (v : ℕ) → (v ≡ 0) ⊎ (2 ^ 62 ≤ v) → pack_log_var_int p v ≡ 0
unfolding pack_log_var_int
packed_zero p v h = ground arith

encoding_zero : lvi_encoding 0 ≡ 0 ∷ []
unfolding lvi_encoding lvi_word get_size_of_lvi_to_pack be_bytes
encoding_zero = refl

-- On either kind of machine the first bytes of a packed value, as many as
-- `get_size_of_lvi_to_pack` says, are its encoding, for every value below 2 ^ 62.
pub take-pack_log_var_int :
    (p : Platform) (v : ℕ)
    → v < 2 ^ 62
    → take (get_size_of_lvi_to_pack v) (word_bytes p 8 (pack_log_var_int p v)) ≡ lvi_encoding v
take-pack_log_var_int p zero h =
    rw (packed_zero p 0 (inl refl), word_bytes_zero, encoding_zero)
      (unfold get_size_of_lvi_to_pack be_bytes in refl)
take-pack_log_var_int p (suc v) h =
    rw (packed_pos p (suc v) (omega arith) h) (front_bytes (suc v) (omega arith) h)

room_for_six : (q p : ℕ) → 64 * p ≤ 2 ^ 64 → q % 64 * p + p ≤ 2 ^ 64
room_for_six q p fits = grind arith

-- Reading `n + 1` bytes whose first two bits say so.
unpack_word :
    (n w : ℕ) (rest : List ℕ)
    → w / 256 ^ n < 256
    → 2 ^ (w / 256 ^ n / 64) ≡ n + 1
    → 64 * 256 ^ n ≤ 2 ^ 64
    → unpack_log_var_int (be_bytes (suc n) w ++ rest)
      ≡ some (w / 256 ^ n % 64 * 256 ^ n + w % 256 ^ n)
unfolding unpack_log_var_int be_bytes
unpack_word n w rest byte tag fits =
    let first = w / 256 ^ n % 256 in
    let rounds : 1 * 2 ^ (first / 2 ^ 6) - 1 ≡ n =
      omega (arith, ap (λ (t : ℕ). 2 ^ (t / 64)) (mod-eq_of_lt byte)) in
    let low : bit_and first 63 ≡ w / 256 ^ n % 64 = omega (arith, bit_and_mask 6 first) in
    rw (rounds, low)
      (gather-be_bytes 64 n (w / 256 ^ n % 64) w rest (room_for_six (w / 256 ^ n) (256 ^ n) fits))

-- Reading an encoding gives the value back and does not look past it.
pub unpack-encoding :
    (v : ℕ) (rest : List ℕ) → v < 2 ^ 62 → unpack_log_var_int (lvi_encoding v ++ rest) ≡ some v
unfolding lvi_encoding lvi_word get_size_of_lvi_to_pack
unpack-encoding v rest h = ground (
  arith,
  unpack_word 0 v rest,
  unpack_word 1 (2 ^ 14 + v) rest,
  unpack_word 3 (2 ^ 31 + v) rest,
  unpack_word 7 (3 * 2 ^ 62 + v) rest,
)
