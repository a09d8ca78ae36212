-- ===== src/Frames/Stuck.antt =====
-- Frames.c: inputs on which `extractFrames` does not end, and the frame that is never unpacked.
use qmsp.Base.{
  ℕ, zero, suc, ◌+◌, ◌*◌, ◌≤◌, ◌<◌, ◌≡◌, refl, arith, none, some, List, [], ◌∷◌, ◌++◌, ◌⊎◌, inl,
  inr,
}
use qmsp.Base.{drop, length, Option-cases}
use qmsp.Base.Memory.{Allocator}
use qmsp.VariableLengthInt.{unpack_log_var_int, get_size_of_lvi_to_pack}
use qmsp.Frames.{store, link_loop, unpack_post_metadata}
use qmsp.Frames.Extract.{Slot, unset, stuck, fault, unpack_one, extract_loop}

unpack_one_unset :
    (a : Allocator) (type : ℕ) (bytes : List ℕ) (cur last_end : ℕ)
    → 4 ≤ type
    → unpack_one a type bytes cur last_end ≡ some (unset, last_end)
unfolding unpack_one
unpack_one_unset a type bytes cur last_end h = ground arith

-- Where the next frame has a type that is not unpacked (4 or more) and at least two bytes are left
-- of the message behind the last frame, the loop never returns: whatever number of rounds it is
-- given, it is not done, or `realloc` has failed and it has written through NULL.
pub extract_loop_stuck :
    (a : Allocator) (fuel byte_count type : ℕ) (bytes : List ℕ) (last_end frm_count : ℕ)
    (my_frames : List Slot)
    → last_end + 2 < byte_count
    → unpack_log_var_int (drop (last_end + 1) bytes) ≡ some type
    → 4 ≤ type
    → (extract_loop a fuel byte_count bytes (last_end + 1) last_end frm_count my_frames ≡ stuck)
      ⊎ (extract_loop a fuel byte_count bytes (last_end + 1) last_end frm_count my_frames ≡ fault)
unfolding extract_loop
extract_loop_stuck a zero byte_count type bytes last_end frm_count my_frames more read other =
    inl refl
extract_loop_stuck a (suc fuel) byte_count type bytes last_end frm_count my_frames more read other =
    let again =
      extract_loop_stuck a fuel byte_count type bytes last_end (frm_count + 1)
        (my_frames ++ (unset ∷ [])) more read other in
    elim (Option-cases (a.malloc (frm_count * 8))) [
      | inl failed ↦ ground arith
      | inr (block, got) ↦
          ground (arith, unpack_one_unset a type bytes (last_end + 1) last_end other)
    ]

link_loop_faults :
    (a : Allocator) (fuel : ℕ) (bytes : List ℕ) (cur : ℕ)
    → (link_loop a fuel bytes cur 0 9 (24 * (cur + 1)) [] ≡ none)
      ⊎ (link_loop a fuel bytes cur 0 9 (24 * (cur + 1)) [] ≡ some none)
unfolding link_loop store
link_loop_faults a zero bytes cur = inl refl
link_loop_faults a (suc fuel) bytes cur = ground arith

-- A post metadata frame is never unpacked, whatever the bytes are: the result is undefined
-- behaviour, a read past the bytes or a write past the block, or NULL.
pub post_metadata_never :
    (a : Allocator) (bytes : List ℕ)
    → (unpack_post_metadata a bytes ≡ none) ⊎ (unpack_post_metadata a bytes ≡ some none)
unfolding unpack_post_metadata
post_metadata_never a bytes = elim (Option-cases (unpack_log_var_int bytes)) [
  | inl e ↦ ground arith
  | inr (type, e) ↦
      let cur₁ = get_size_of_lvi_to_pack type in
      elim (Option-cases (unpack_log_var_int (drop cur₁ bytes))) [
        | inl e₁ ↦ ground arith
        | inr (post_id, e₁) ↦
            let cur₂ = cur₁ + get_size_of_lvi_to_pack post_id in
            elim (Option-cases (unpack_log_var_int (drop cur₂ bytes))) [
              | inl e₂ ↦ ground arith
              | inr (timestamp, e₂) ↦
                  let cur₃ = cur₂ + get_size_of_lvi_to_pack timestamp in
                  ground (arith, link_loop_faults a (length bytes) bytes cur₃)
            ]
      ]
]
