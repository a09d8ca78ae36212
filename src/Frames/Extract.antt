-- ===== src/Frames/Extract.antt =====
-- Frames.c: `extractFrames`, the loop over the frames of a message.
use qmsp.Base.{ℕ, zero, suc, ◌+◌, ◌*◌, Option, none, some, List, [], ◌∷◌, ◌++◌, ◌||◌, true, false}
use qmsp.Base.{drop, ltb, ◌==◌, if◌then◌else◌}
use qmsp.Base.Memory.{Allocator}
use qmsp.VariableLengthInt.{unpack_log_var_int}
use qmsp.Frames.{
  TransitMetadataFrame, PostMetadataFrame, PlaintextFrame, unpack_transit_metadata,
  unpack_post_metadata, unpack_plaintext,
}

-- An entry of `myFrames`: a frame, NULL, or the pointer that was never written.
pub data Slot : Type 0 where
  transit : TransitMetadataFrame → Slot
  post : PostMetadataFrame → Slot
  plaintext : PlaintextFrame → Slot
  null unset : Slot

-- How the loop ends: with the frames, in undefined behaviour, or not within the fuel.
pub data Extracted : Type 0 where
  frames : List Slot → Extracted
  fault stuck : Extracted

-- One call of an unpacker: the new entry, and the new `lastEnd` for a frame that starts at `cur`;
-- NULL leaves it as it was.
unfoldable pub entry {ℓ} :
    {F : Type ℓ} → (F → Slot) → ℕ → ℕ → Option (Option (F × ℕ)) → Option (Slot × ℕ)
entry make cur last_end none = none
entry make cur last_end (some none) = some (null, last_end)
entry make cur last_end (some (some (f, my_end))) = some (make f, cur + my_end)

-- The `switch` over the type: most types are not unpacked.
unfoldable pub unpack_one : Allocator → ℕ → List ℕ → ℕ → ℕ → Option (Slot × ℕ)
unpack_one a type_value bytes cur last_end =
    if type_value == 0
    then entry transit cur last_end (unpack_transit_metadata a (drop cur bytes))
    else if type_value == 1
    then entry post cur last_end (unpack_post_metadata a (drop cur bytes))
    else if type_value == 2 || type_value == 3
    then entry plaintext cur last_end (unpack_plaintext a (drop cur bytes))
    else some (unset, last_end)

-- The result of `realloc` for the array is not tested: writing to NULL is undefined. A pointer has
-- eight bytes.
unfoldable pub extract_loop : Allocator → ℕ → ℕ → List ℕ → ℕ → ℕ → ℕ → List Slot → Extracted
extract_loop a zero byte_count bytes cur last_end frm_count my_frames = stuck
extract_loop a (suc fuel) byte_count bytes cur last_end frm_count my_frames =
    elim (ltb (last_end + 2) byte_count) [
      | false ↦ frames my_frames
      | true ↦ elim (a.malloc (frm_count * 8)) [
        | none ↦ fault
        | some block ↦ elim (unpack_log_var_int (drop cur bytes)) [
          | none ↦ fault
          | some type_value ↦ elim (unpack_one a type_value bytes cur last_end) [
            | none ↦ fault
            | some (slot, last_end') ↦
                extract_loop a fuel byte_count bytes (last_end' + 1) last_end' (frm_count + 1)
                  (my_frames ++ (slot ∷ []))
          ]
        ]
      ]
    ]

-- A call, with fuel: `extractFrames` itself has no bound on its rounds (see Frames/Stuck).
unfoldable pub extract_frames : Allocator → ℕ → ℕ → List ℕ → Extracted
extract_frames a fuel byte_count bytes = extract_loop a fuel byte_count bytes 0 0 1 []
