-- ===== src/Examples/Numbers.antt =====
-- VariableLengthInt.c and ByteSwap.c on concrete numbers.
use qmsp.Base.{◌-◌, ◌*◌, ◌/◌, ◌^◌, ◌≡◌, refl, arith, inr}
use qmsp.Base.{[], ◌∷◌, ◌++◌, some, take}
use qmsp.Base.Memory.{word_bytes, le_bytes}
use qmsp.ByteSwap.{is_little_endian, rev_16, rev_32, rev_64}
use qmsp.VariableLengthInt.{
  unpack_log_var_int, unpack_dir_var_int, get_size_of_lvi_to_pack, get_size_of_dvi_to_pack,
  move_to_front, codify, pack_log_var_int, pack_dir_var_int,
}
use qmsp.VariableLengthInt.RoundTrip.{unpack-pack_log, unpack-pack_dir}
use qmsp.Examples.{x86_64, s390x, powerpc}

-- 1000 takes two bytes, 0x43 and 0xE8.
packed_bytes : take 2 (word_bytes x86_64 8 (pack_log_var_int x86_64 1000)) ≡ 0x43 ∷ 0xe8 ∷ []
unfolding word_bytes le_bytes pack_log_var_int move_to_front codify get_size_of_lvi_to_pack
    is_little_endian rev_16 rev_32 rev_64 qmsp.ByteSwap.little_endian
packed_bytes = refl

packed_sizes :
    (get_size_of_lvi_to_pack 63 ≡ 1)
    × (get_size_of_lvi_to_pack 64 ≡ 2)
    × (get_size_of_lvi_to_pack 16384 ≡ 4)
    × (get_size_of_lvi_to_pack (2 ^ 30) ≡ 8)
unfolding get_size_of_lvi_to_pack
packed_sizes = (refl, refl, refl, refl)

unpack-pack_log_example :
    unpack_log_var_int (
      take (get_size_of_lvi_to_pack 70000) (word_bytes s390x 8 (pack_log_var_int s390x 70000))
      ++ (9 ∷ []))
    ≡ some 70000
unpack-pack_log_example = unpack-pack_log s390x 70000 (9 ∷ []) (omega arith)

unpack-pack_dir_example :
    unpack_dir_var_int
      (take 3 (word_bytes powerpc powerpc.long_size (pack_dir_var_int powerpc 300)) ++ (7 ∷ []))
      3
    ≡ some (300 * 256 ^ (4 - get_size_of_dvi_to_pack 300) / 256 ^ (4 - 3))
unpack-pack_dir_example =
    unpack-pack_dir powerpc 3 300 (7 ∷ []) (inr refl) (omega arith) (omega arith) (omega arith)
