-- ===== src/Messages/Damage.antt =====
-- Messages.c: header bytes that do not come back as they were sent.
use qmsp.Base.{ℕ, zero, suc, ◌^◌, ◌≤◌, ◌<◌, ◌≡◌, refl, ap, ◌∙◌, arith}
use qmsp.Base.{List, ◌++◌, some, take, replicate, false}
use qmsp.Base.Memory.{Platform, be_bytes, word_bytes}
use qmsp.VariableLengthInt.{unpack_dir_var_int, pack_dir_var_int, gather}
use qmsp.ByteSwap.Laws.{little_endian_lem}
use qmsp.Messages.Serialize.{dvi_bytes}

pack-lt : (p : Platform) (v : ℕ) → p.little ≡ false → pack_dir_var_int p v < 2 ^ 32
unfolding pack_dir_var_int
pack-lt p v big = ground (arith, little_endian_lem p)

high_zeros : (n x : ℕ) → n ≤ 4 → x < 2 ^ 32 → take n (be_bytes 8 x) ≡ replicate n 0
unfolding be_bytes
high_zeros zero x few h = refl
high_zeros (suc zero) x few h = ground arith
high_zeros (suc (suc zero)) x few h = ground arith
high_zeros (suc (suc (suc zero))) x few h = ground arith
high_zeros (suc (suc (suc (suc zero)))) x few h = ground arith
high_zeros (suc (suc (suc (suc (suc n))))) x few h = absurd (omega arith)

read_zeros :
    (n : ℕ) (rest : List ℕ) → 1 ≤ n → n ≤ 4 → unpack_dir_var_int (replicate n 0 ++ rest) n ≡ some 0
unfolding unpack_dir_var_int gather
read_zeros zero rest pos few = absurd (omega arith)
read_zeros (suc zero) rest pos few = refl
read_zeros (suc (suc zero)) rest pos few = refl
read_zeros (suc (suc (suc zero))) rest pos few = refl
read_zeros (suc (suc (suc (suc zero)))) rest pos few = refl
read_zeros (suc (suc (suc (suc (suc n))))) rest pos few = absurd (omega arith)

word_bytes_big : (p : Platform) (w x : ℕ) → p.little ≡ false → word_bytes p w x ≡ be_bytes w x
unfolding word_bytes
word_bytes_big p w x big = rw big

-- On a big-endian machine whose `unsigned long` has eight bytes, the one to four bytes that the
-- serializers copy of a chat id or a message number are those of the high half: whatever the
-- value, zeros are written and 0 is read.
pub big_endian_long_lost :
    (p : Platform) (n v : ℕ) (rest : List ℕ)
    → p.little ≡ false
    → p.long_size ≡ 8
    → 1 ≤ n
    → n ≤ 4
    → (dvi_bytes p n v ≡ replicate n 0) × (unpack_dir_var_int (dvi_bytes p n v ++ rest) n ≡ some 0)
unfolding dvi_bytes
big_endian_long_lost p n v rest big eight pos few =
    let packed = pack_dir_var_int p v in
    let zeros : take n (word_bytes p p.long_size packed) ≡ replicate n 0 =
      ap (λ l. take n l) (word_bytes_big p p.long_size packed big)
      ∙ ap (λ w. take n (be_bytes w packed)) eight
      ∙ high_zeros n packed few (pack-lt p v big) in
    (zeros, rw zeros (read_zeros n rest pos few))
