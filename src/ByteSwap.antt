-- ===== src/ByteSwap.antt =====
-- ByteSwap.c: the byte order of the machine, and reversing the bytes of a word.
pub mod Laws
use qmsp.Base.{ℕ, ◌+◌, bit_and, Option, none, some, Bool, truthy, List, [], ◌∷◌}
use qmsp.Base.{u8, u16, u32, u64, ◌<<<◌, ◌>>>◌}
use qmsp.Base.Memory.{Platform, word_bytes}

-- The first of some bytes; an empty list is no object of C.
abbrev pub first_byte : List ℕ → ℕ
first_byte [] = 0
first_byte (b ∷ bs) = b

-- The result and the new value of the global `litend`; `none` is its initial -1.
unfoldable pub is_little_endian : Platform → Option ℕ → ℕ × Option ℕ
is_little_endian p (some l) = (l, some l)
is_little_endian p none = let l = first_byte (word_bytes p 4 1) in (l, some l)

-- The condition `isLittleEndian()`. The global only caches the answer (see ByteSwap/Laws).
unfoldable pub little_endian : Platform → Bool
unfolding is_little_endian
little_endian p = truthy (is_little_endian p none).0

unfoldable pub rev_16 : ℕ → ℕ
rev_16 orig =
    let hold1 = u8 (orig >>> 8) in
    let hold2 = u8 (bit_and orig 0xff) in
    let rever = u16 (0 + hold2) in let rever = u16 (rever <<< 8) in u16 (rever + hold1)

unfoldable pub rev_32 : ℕ → ℕ
rev_32 orig =
    let hold1 = u16 (orig >>> 16) in
    let hold2 = u16 (bit_and orig 0xffff) in
    let rever = u32 (0 + rev_16 hold2) in
    let rever = u32 (rever <<< 16) in u32 (rever + rev_16 hold1)

unfoldable pub rev_64 : ℕ → ℕ
rev_64 orig =
    let hold1 = u32 (orig >>> 32) in
    let hold2 = u32 (bit_and orig 0xffff_ffff) in
    let rever = u64 (0 + rev_32 hold2) in
    let rever = u64 (rever <<< 32) in u64 (rever + rev_32 hold1)
