-- ===== src/Examples/FrameBytes.antt =====
-- Frames.c on concrete frames.
use qmsp.Base.{
  ℕ, ◌+◌, ◌-◌, ◌≡◌, refl, arith, List, [], ◌∷◌, ◌++◌, some, replicate, length, length-replicate,
}
use qmsp.VariableLengthInt.{gather, unpack_log_var_int, get_size_of_lvi_to_pack}
use qmsp.Frames.{
  TransitMetadataFrame, unpack_transit_metadata, unpack_plaintext, text_extent, read_bytes,
}
use qmsp.Frames.Pack.{get_serialized_size_of_tmd, serialize_tmd, serialize_tmd_into}
use qmsp.Frames.Pack.Laws.{tmd_bytes, serialize_tmd_into_lem}
use qmsp.Frames.RoundTrip.{IsTmd, unpack-serialize_tmd}
use qmsp.Examples.{x86_64, s390x, heap}

abbrev transit_frame : TransitMetadataFrame
transit_frame = record {
  type = 0;
  post_transit_id = 0x01020304;
  total_message_count = 300;
  specific_message_count = 7;
}

transit_frame-IsTmd : IsTmd transit_frame
transit_frame-IsTmd = record {
  type_zero = refl;
  id_word = omega arith;
  total_bits = omega arith;
  specific_bits = omega arith;
}

-- A plaintext frame with its length, "Hi!" and its terminator.
text_frame :
    unpack_plaintext heap (3 ∷ 4 ∷ 72 ∷ 105 ∷ 33 ∷ 0 ∷ [])
    ≡ some (some (record { type = 3; length = 4; txtdta = 72 ∷ 105 ∷ 33 ∷ 0 ∷ [] }, 5))
unfolding unpack_plaintext text_extent read_bytes unpack_log_var_int gather get_size_of_lvi_to_pack
text_frame = refl

unpack-serialize_tmd_example :
    (bytes : List ℕ) × (serialize_tmd x86_64 heap transit_frame ≡ some bytes)
    × (length bytes ≡ get_serialized_size_of_tmd transit_frame)
    × (unpack_transit_metadata heap (bytes ++ (3 ∷ []))
        ≡ some (some (transit_frame, length bytes - 1)))
unpack-serialize_tmd_example =
    unpack-serialize_tmd x86_64 heap transit_frame (3 ∷ [])
      (replicate (get_serialized_size_of_tmd transit_frame) 170) (replicate 28 170)
      transit_frame-IsTmd refl refl

serialize_tmd_into_lem_example :
    (rest' : List ℕ) × (length rest' ≡ 2)
    × (serialize_tmd_into s390x transit_frame
          ((1 ∷ []) ++ replicate (length (tmd_bytes s390x transit_frame) + 2) 170)
          1
        ≡ some (
          ((1 ∷ []) ++ tmd_bytes s390x transit_frame) ++ rest',
          1 + length (tmd_bytes s390x transit_frame),
        ))
serialize_tmd_into_lem_example =
    serialize_tmd_into_lem s390x transit_frame (1 ∷ [])
      (replicate (length (tmd_bytes s390x transit_frame) + 2) 170) 2 (omega arith)
      (length-replicate (length (tmd_bytes s390x transit_frame) + 2) 170)
