-- ===== src/Linux/Integers.antt =====
-- OriginalLinuxCode/VariableLengthInt.c and VariableLengthInt.c: where the two agree.
use qmsp.Base.{
  ℕ, zero, suc, ◌+◌, ◌-◌, ◌*◌, ◌%◌, ◌^◌, ◌≤◌, ◌<◌, ◌≡◌, refl, sym, ap, ◌∙◌, arith, bit_and, List,
  [], ◌∷◌, true, leb, if◌then◌else◌, u32, u64, take, All, inl, inr, ◌⊎◌, Bool-cases,
}
use qmsp.Base.Bits.{bit_and_mask}
use qmsp.Base.Memory.{Platform, le_bytes, word_bytes}
use qmsp.Base.Memory.Load.{le_word, le_word-le_bytes}
use qmsp.ByteSwap.{little_endian, rev_32, rev_64}
use qmsp.ByteSwap.Laws.{le_bytes-rev_32, le_bytes-rev_64, rev_32-lt, rev_64-lt}
use qmsp.VariableLengthInt.{
  gather, move_to_front, codify, unpack_log_var_int, unpack_dir_var_int, get_size_of_lvi_to_pack,
  get_size_of_dvi_to_pack, pack_log_var_int, pack_dir_var_int,
}
use qmsp.VariableLengthInt.AnyInput.{IsByte}
use qmsp.VariableLengthInt.Direct.{take-le_bytes}
use qmsp.ChatCache.{char_word}
use qmsp.Linux.{
  linux_little_endian, bswap, linux_unpack_log_var_int, linux_unpack_dir_var_int,
  linux_get_size_of_lvi_to_pack, linux_get_size_of_dvi_to_pack, linux_pack_log_var_int, long_of_int,
  linux_pack_dir_var_int,
}

pub linux_little_endian_lem : (p : Platform) → linux_little_endian p ≡ little_endian p
unfolding linux_little_endian little_endian
linux_little_endian_lem p = refl

pub bswap-32 : (x : ℕ) → x < 2 ^ 32 → bswap 4 x ≡ rev_32 x
unfolding bswap
bswap-32 x h =
    ap le_word (sym (le_bytes-rev_32 x h))
    ∙ le_word-le_bytes 4 (rev_32 x) (omega (arith, rev_32-lt x h))

bswap-64 : (x : ℕ) → x < 2 ^ 64 → bswap 8 x ≡ rev_64 x
unfolding bswap
bswap-64 x h =
    ap le_word (sym (le_bytes-rev_64 x h))
    ∙ le_word-le_bytes 8 (rev_64 x) (omega (arith, rev_64-lt x h))

pub size_lvi-linux : (v : ℕ) → linux_get_size_of_lvi_to_pack v ≡ get_size_of_lvi_to_pack v
unfolding linux_get_size_of_lvi_to_pack get_size_of_lvi_to_pack
size_lvi-linux v = refl

pub size_dvi-linux : (v : ℕ) → linux_get_size_of_dvi_to_pack v ≡ get_size_of_dvi_to_pack v
unfolding linux_get_size_of_dvi_to_pack get_size_of_dvi_to_pack
size_dvi-linux v = refl

pub unpack_log-linux :
    (p : Platform) (bytes : List ℕ) → linux_unpack_log_var_int p bytes ≡ unpack_log_var_int bytes
unfolding linux_unpack_log_var_int unpack_log_var_int char_word
unpack_log-linux p [] = refl
unpack_log-linux p (first ∷ bytes) =
    let small : char_word p (bit_and first 63) ≡ bit_and first 63 =
      ground (arith, bit_and_mask 6 first) in
    rw small refl

-- No round of up to four leaves 32 bits.
gather_step_32 :
    (k v b : ℕ) (bytes : List ℕ)
    → v < 2 ^ 24
    → b < 256
    → gather 32 (suc k) v (b ∷ bytes) ≡ gather 32 k (v * 256 + b) bytes
unfolding gather
gather_step_32 k v b bytes small byte =
    let same : (v * 2 ^ 8 % 2 ^ 32 + b) % 2 ^ 32 ≡ v * 256 + b = omega (arith, small, byte) in
    ap (λ n. gather 32 k n bytes) same

gather_step_64 :
    (k v b : ℕ) (bytes : List ℕ)
    → v < 2 ^ 24
    → b < 256
    → gather 64 (suc k) v (b ∷ bytes) ≡ gather 64 k (v * 256 + b) bytes
unfolding gather
gather_step_64 k v b bytes small byte =
    let same : (v * 2 ^ 8 % 2 ^ 64 + b) % 2 ^ 64 ≡ v * 256 + b = omega (arith, small, byte) in
    ap (λ n. gather 64 k n bytes) same

gather_next :
    (k v b : ℕ) (bytes : List ℕ)
    → v < 2 ^ 24
    → b < 256
    → gather 64 k (v * 256 + b) bytes ≡ gather 32 k (v * 256 + b) bytes
    → gather 64 (suc k) v (b ∷ bytes) ≡ gather 32 (suc k) v (b ∷ bytes)
gather_next k v b bytes small byte same =
    gather_step_64 k v b bytes small byte ∙ same ∙ sym (gather_step_32 k v b bytes small byte)

gather_end : (k v : ℕ) → gather 64 k v [] ≡ gather 32 k v []
unfolding gather
gather_end zero v = refl
gather_end (suc k) v = refl

gather_none : (v : ℕ) (bytes : List ℕ) → gather 64 0 v bytes ≡ gather 32 0 v bytes
unfolding gather
gather_none v bytes = refl

gather_one :
    (v : ℕ) (bytes : List ℕ)
    → v < 2 ^ 24
    → All IsByte bytes
    → gather 64 1 v bytes ≡ gather 32 1 v bytes
gather_one v [] small h = gather_end 1 v
gather_one v (b ∷ bytes) small (h, hs) =
    gather_next 0 v b bytes small h (gather_none (v * 256 + b) bytes)

gather_two :
    (v : ℕ) (bytes : List ℕ)
    → v < 2 ^ 16
    → All IsByte bytes
    → gather 64 2 v bytes ≡ gather 32 2 v bytes
gather_two v [] small h = gather_end 2 v
gather_two v (b ∷ bytes) small (h, hs) =
    gather_next 1 v b bytes (omega arith) h
      (gather_one (v * 256 + b) bytes (omega (arith, h, small)) hs)

gather_three :
    (v : ℕ) (bytes : List ℕ)
    → v < 2 ^ 8
    → All IsByte bytes
    → gather 64 3 v bytes ≡ gather 32 3 v bytes
gather_three v [] small h = gather_end 3 v
gather_three v (b ∷ bytes) small (h, hs) =
    gather_next 2 v b bytes (omega arith) h
      (gather_two (v * 256 + b) bytes (omega (arith, h, small)) hs)

gather_few :
    (k v : ℕ) (bytes : List ℕ)
    → k ≤ 3
    → v < 2 ^ 8
    → All IsByte bytes
    → gather 64 k v bytes ≡ gather 32 k v bytes
gather_few zero v bytes few small h = gather_none v bytes
gather_few (suc zero) v bytes few small h = gather_one v bytes (omega arith) h
gather_few (suc (suc zero)) v bytes few small h = gather_two v bytes (omega arith) h
gather_few (suc (suc (suc zero))) v bytes few small h = gather_three v bytes small h
gather_few (suc (suc (suc (suc k)))) v bytes few small h = absurd (omega arith)

-- An `unsigned long` of four or eight bytes takes up to four bytes in as 32 bits do.
pub unpack_dir-linux :
    (p : Platform) (bytes : List ℕ) (n : ℕ)
    → (p.long_size ≡ 4) ⊎ (p.long_size ≡ 8)
    → n ≤ 4
    → All IsByte bytes
    → linux_unpack_dir_var_int p bytes n ≡ unpack_dir_var_int bytes n
unfolding linux_unpack_dir_var_int unpack_dir_var_int
unpack_dir-linux p [] n long few h = refl
unpack_dir-linux p (b ∷ bytes) n (inl four) few (h, hs) = rw four refl
unpack_dir-linux p (b ∷ bytes) n (inr eight) few (h, hs) =
    rw eight (gather_few (n - 1) b bytes (omega arith) h hs)

move_to_front-lt : (f c : ℕ) → c < 2 ^ 64 → move_to_front f c < 2 ^ 64
unfolding move_to_front
move_to_front-lt zero c h = h
move_to_front-lt (suc f) c h = ground (arith, move_to_front-lt f (u64 (c * 2 ^ 8)) (omega arith))

codify-lt : (v : ℕ) → codify v < 2 ^ 64
unfolding codify
codify-lt v = omega arith

pub pack_log-linux : (p : Platform) (v : ℕ) → linux_pack_log_var_int p v ≡ pack_log_var_int p v
unfolding linux_pack_log_var_int pack_log_var_int
pack_log-linux p v =
    rw
      (
        linux_little_endian_lem p,
        bswap-64 (move_to_front 8 (codify v)) (move_to_front-lt 8 (codify v) (codify-lt v)),
      )
      refl

-- The machines of the program: an `unsigned long` has four bytes, or eight with the lowest first.
abbrev pub LinuxLong : Platform → Type 0
LinuxLong p = (p.long_size ≡ 4) ⊎ (p.little ≡ true) × (p.long_size ≡ 8)

le_bytes_low : (n w m : ℕ) → n ≤ 4 → le_bytes n (w + m * 2 ^ 32) ≡ le_bytes n w
unfolding le_bytes
le_bytes_low zero w m few = refl
le_bytes_low (suc zero) w m few = ground arith
le_bytes_low (suc (suc zero)) w m few = ground arith
le_bytes_low (suc (suc (suc zero))) w m few = ground arith
le_bytes_low (suc (suc (suc (suc zero)))) w m few = ground arith
le_bytes_low (suc (suc (suc (suc (suc n))))) w m few = absurd (omega arith)

take-word_bytes_little :
    (p : Platform) (n x : ℕ) → p.little ≡ true → n ≤ 4 → take n (word_bytes p 8 x) ≡ le_bytes n x
unfolding word_bytes
take-word_bytes_little p n x little few = rw little (take-le_bytes n 8 x (omega arith))

long_low : (n w : ℕ) → n ≤ 4 → le_bytes n (w + (2 ^ 64 - 2 ^ 32)) ≡ le_bytes n w
long_low n w few =
    let split : w + (2 ^ 64 - 2 ^ 32) ≡ w + 4294967295 * 2 ^ 32 = omega arith in
    ap (le_bytes n) split ∙ le_bytes_low n w 4294967295 few

-- The sign is in the upper half.
long_of_int_low :
    (p : Platform) (n w : ℕ)
    → LinuxLong p
    → n ≤ 4
    → w < 2 ^ 32
    → take n (word_bytes p p.long_size (long_of_int p w)) ≡ take n (word_bytes p p.long_size w)
unfolding long_of_int word_bytes
long_of_int_low p n w (inl four) few small = rw four (ground arith)
long_of_int_low p n w (inr (little, eight)) few small =
    rw (eight, take-word_bytes_little p n w little few)
      (elim (Bool-cases (leb (2 ^ 31) w)) [
        | inl e ↦
            rw e (take-word_bytes_little p n (w + (2 ^ 64 - 2 ^ 32)) little few ∙ long_low n w few)
        | inr e ↦ rw e (take-word_bytes_little p n w little few)
      ])

pub take-pack_dir-linux :
    (p : Platform) (n v : ℕ)
    → LinuxLong p
    → n ≤ 4
    → take n (word_bytes p p.long_size (linux_pack_dir_var_int p v))
      ≡ take n (word_bytes p p.long_size (pack_dir_var_int p v))
unfolding linux_pack_dir_var_int pack_dir_var_int
take-pack_dir-linux p n v fits few =
    let w = u32 (v * 2 ^ ((4 - get_size_of_dvi_to_pack v) * 8)) in
    let small : w < 2 ^ 32 = omega arith in
    rw (linux_little_endian_lem p, size_dvi-linux v, bswap-32 w small)
      (long_of_int_low p n (if little_endian p then rev_32 w else w) fits few
        (ground (arith, rev_32-lt w small)))
