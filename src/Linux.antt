-- ===== src/Linux.antt =====
-- OriginalLinuxCode/VariableLengthInt.c: the copy of VariableLengthInt.c that the program is built
-- from. An integer with its length elsewhere is an `unsigned long` here, and is packed in an `int`.
pub mod Integers
pub mod Messages
pub mod Headers
pub mod Rebuild
pub mod RoundTrip
pub mod Frames
pub mod Extract
pub mod Pack
pub mod Packed
use qmsp.Base.{
  ℕ, ◌+◌, ◌-◌, ◌*◌, ◌/◌, ◌%◌, ◌^◌, bit_and, Option, none, some, List, [], ◌∷◌, Bool, truthy, leb,
  ◌==◌, if◌then◌else◌, u32, u64, ◌<<<◌, ◌>>>◌,
}
use qmsp.Base.Memory.{Platform, be_bytes, word_bytes}
use qmsp.Base.Memory.Load.{le_word}
use qmsp.ByteSwap.{first_byte}
use qmsp.VariableLengthInt.{gather, move_to_front, codify}
use qmsp.ChatCache.{char_word}

-- `isLittleEndian()` of this file, with its global: the result, and the new value of
-- `littleEndianVal`, whose initial -1 is `none`.
unfoldable pub linux_is_little_endian : Platform → Option ℕ → ℕ × Option ℕ
linux_is_little_endian p (some l) = (l, some l)
linux_is_little_endian p none = let l = first_byte (word_bytes p 4 1) in (l, some l)

unfoldable pub linux_little_endian : Platform → Bool
unfolding linux_is_little_endian
linux_little_endian p = truthy (linux_is_little_endian p none).0

-- `__builtin_bswap32` and `__builtin_bswap64`: the word whose bytes from the lowest up are these from
-- the highest down.
unfoldable pub bswap : ℕ → ℕ → ℕ
bswap size x = le_word (be_bytes size x)

-- The first byte's value is kept in a `char`. The loop is the one at the root.
unfoldable pub linux_unpack_log_var_int : Platform → List ℕ → Option ℕ
linux_unpack_log_var_int p [] = none
linux_unpack_log_var_int p (first ∷ bytes) =
    let num_size = 1 <<< (first >>> 6) in
    let first_byte_val = bit_and first 63 in
    gather 64 (num_size - 1) (char_word p first_byte_val) bytes

-- The loop starts at 1, so one byte is read whatever `length` is.
unfoldable pub linux_unpack_dir_var_int : Platform → List ℕ → ℕ → Option ℕ
linux_unpack_dir_var_int p [] length = none
linux_unpack_dir_var_int p (first ∷ bytes) length =
    gather (8 * p.long_size) (length - 1) first bytes

unfoldable pub linux_get_size_of_lvi_to_pack : ℕ → ℕ
linux_get_size_of_lvi_to_pack lvi =
    if truthy (lvi >>> 6)
    then if truthy (lvi >>> 14) then if truthy (lvi >>> 30) then 8 else 4 else 2
    else 1

unfoldable pub linux_get_size_of_dvi_to_pack : ℕ → ℕ
linux_get_size_of_dvi_to_pack dvi =
    if truthy (dvi >>> 8)
    then if truthy (dvi >>> 16) then if truthy (dvi >>> 24) then 4 else 3 else 2
    else 1

-- The bits for the length and the loop behind them are those at the root.
unfoldable pub linux_pack_log_var_int : Platform → ℕ → ℕ
linux_pack_log_var_int p value =
    if value == 0
    then value
    else if truthy (value >>> 62)
    then 0
    else let codified = move_to_front 8 (codify value) in
      if linux_little_endian p then bswap 8 codified else codified

-- An `int`, by its 32 bits, as an `unsigned long`.
unfoldable pub long_of_int : Platform → ℕ → ℕ
long_of_int p n = if leb (2 ^ 31) n then n + (2 ^ (8 * p.long_size) - 2 ^ 32) else n

unfoldable pub linux_pack_dir_var_int : Platform → ℕ → ℕ
linux_pack_dir_var_int p value =
    let dvi_size = linux_get_size_of_dvi_to_pack value in
    let packed = u32 (value <<< ((4 - dvi_size) * 8)) in
    long_of_int p (if linux_little_endian p then bswap 4 packed else packed)
