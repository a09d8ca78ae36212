-- ===== src/VariableLengthInt.antt =====
-- VariableLengthInt.c: integers in 1, 2, 4 or 8 bytes whose first two bits give the length (LVI),
-- and integers in 1 to 4 bytes whose length is stored elsewhere (DVI).
mod Gather
pub mod Log
pub mod Direct
pub mod AnyInput
pub mod RoundTrip
use qmsp.Base.{ℕ, zero, suc, ◌+◌, ◌-◌, ◌*◌, ◌/◌, ◌%◌, ◌^◌, bit_and, Option, none, some}
use qmsp.Base.{List, [], ◌∷◌, not, ◌&&◌, truthy, ltb, ◌==◌, if◌then◌else◌}
use qmsp.Base.{u32, u64, ◌<<<◌, ◌>>>◌}
use qmsp.Base.Memory.{Platform}
use qmsp.ByteSwap.{little_endian, rev_32, rev_64}

-- The loop of both unpackers, with `rounds` bytes still to be read into a word of `bits` bits:
-- `value <<= 8; value += *next`. A read past the end of the bytes is undefined.
unfoldable pub gather : ℕ → ℕ → ℕ → List ℕ → Option ℕ
gather bits zero value bytes = some value
gather bits (suc rounds) value [] = none
gather bits (suc rounds) value (b ∷ bytes) =
    gather bits rounds ((value * 2 ^ 8 % 2 ^ bits + b) % 2 ^ bits) bytes

unfoldable pub unpack_log_var_int : List ℕ → Option ℕ
unpack_log_var_int [] = none
unpack_log_var_int (first ∷ bytes) =
    let num_size = 1 <<< (first >>> 6) in
    let first_byte_val = bit_and first 63 in gather 64 (num_size - 1) first_byte_val bytes

-- The loop starts at 1, so one byte is read whatever `length` is.
unfoldable pub unpack_dir_var_int : List ℕ → ℕ → Option ℕ
unpack_dir_var_int [] length = none
unpack_dir_var_int (first ∷ bytes) length = gather 32 (length - 1) first bytes

unfoldable pub get_size_of_lvi_to_pack : ℕ → ℕ
get_size_of_lvi_to_pack lvi =
    if truthy (lvi >>> 6)
    then if truthy (lvi >>> 14) then if truthy (lvi >>> 30) then 8 else 4 else 2
    else 1

unfoldable pub get_size_of_dvi_to_pack : ℕ → ℕ
get_size_of_dvi_to_pack dvi =
    if truthy (dvi >>> 8)
    then if truthy (dvi >>> 16) then if truthy (dvi >>> 24) then 4 else 3 else 2
    else 1

-- `while(!(codified >> 62) && !(codified >> 56)) codified <<= 8`, with fuel. Seven rounds bring
-- any value but 0 to the front (see Log).
unfoldable pub move_to_front : ℕ → ℕ → ℕ
move_to_front zero codified = codified
move_to_front (suc fuel) codified =
    let rest = move_to_front fuel (u64 (codified <<< 8)) in
    if not (truthy (codified >>> 62)) && not (truthy (codified >>> 56)) then rest else codified

-- The value with the bits that tell its length in front of it.
unfoldable pub codify : ℕ → ℕ
codify value =
    let lvi_size = get_size_of_lvi_to_pack value in
    let codified =
      if ltb 4 lvi_size
      then 3 <<< 62
      else if ltb 2 lvi_size
      then 2 <<< 30
      else if ltb 1 lvi_size
      then 1 <<< 14
      else 0 in
    u64 (codified + value)

-- A value of 2 ^ 62 or more is answered by 0.
unfoldable pub pack_log_var_int : Platform → ℕ → ℕ
pack_log_var_int p value =
    if value == 0
    then value
    else if truthy (value >>> 62)
    then 0
    else let codified = move_to_front 8 (codify value) in
      if little_endian p then rev_64 codified else codified

unfoldable pub pack_dir_var_int : Platform → ℕ → ℕ
pack_dir_var_int p value =
    let dvi_size = get_size_of_dvi_to_pack value in
    let packed = u32 (value <<< ((4 - dvi_size) * 8)) in
    if little_endian p then rev_32 packed else packed
