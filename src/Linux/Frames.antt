-- ===== src/Linux/Frames.antt =====
-- OriginalLinuxCode/Frames.c: reading frames in the program's copy of Frames.c, which has no post
-- metadata frames: their case in the `switch` leaves the entry as `realloc` gave it.
use qmsp.Base.{
  ℕ, zero, suc, ◌+◌, ◌-◌, ◌*◌, bit_and, Option, none, some, ◌>>=◌, List, [], ◌∷◌, ◌++◌, true, false,
  ◌||◌, drop, truthy, ltb, ◌==◌, if◌then◌else◌,
}
use qmsp.Base.Memory.{Platform, Allocator}
use qmsp.Frames.{
  TransitMetadataFrame, PlaintextFrame, count_until_terminator, read_post_transit_id, read_bytes,
}
use qmsp.Frames.Extract.{Slot, transit, plaintext, unset, Extracted, frames, fault, stuck, entry}
use qmsp.Linux.{linux_unpack_log_var_int, linux_get_size_of_lvi_to_pack}

unfoldable pub linux_read_transit : Platform → List ℕ → Option (TransitMetadataFrame × ℕ)
linux_read_transit p frame_start = do
  type ← linux_unpack_log_var_int p frame_start
  let loc₁ = drop (linux_get_size_of_lvi_to_pack type) frame_start
  post_transit_id ← read_post_transit_id loc₁
  let loc₂ = drop 4 loc₁
  total ← linux_unpack_log_var_int p loc₂
  let loc₃ = drop (linux_get_size_of_lvi_to_pack total) loc₂
  specific ← linux_unpack_log_var_int p loc₃
  let cur_loc = linux_get_size_of_lvi_to_pack type + 4 + linux_get_size_of_lvi_to_pack total
  some (
    record {
      type = type;
      post_transit_id = post_transit_id;
      total_message_count = total;
      specific_message_count = specific;
    },
    cur_loc + linux_get_size_of_lvi_to_pack specific - 1,
  )

unfoldable pub linux_unpack_transit :
    Platform → Allocator → List ℕ → Option (Option (TransitMetadataFrame × ℕ))
linux_unpack_transit p a frame_start = elim (a.malloc 28) [
  | none ↦ some none
  | some block ↦ linux_read_transit p frame_start >>= λ r. some (some r)
]

-- The length of the text and the offset at which it starts.
unfoldable pub linux_text_extent : Platform → ℕ → List ℕ → Option (ℕ × ℕ)
linux_text_extent p type frame_start =
    let type_size = linux_get_size_of_lvi_to_pack type in
    let cur_loc = drop type_size frame_start in
    if truthy (bit_and type 1)
    then (linux_unpack_log_var_int p cur_loc >>= λ len.
        some (len, type_size + linux_get_size_of_lvi_to_pack len))
    else (count_until_terminator cur_loc >>= λ hold. some (hold, type_size))

unfoldable pub linux_unpack_plaintext :
    Platform → Allocator → List ℕ → Option (Option (PlaintextFrame × ℕ))
linux_unpack_plaintext p a frame_start = elim (a.malloc 16) [
  | none ↦ some none
  | some block ↦ do
    type ← linux_unpack_log_var_int p frame_start
    (hold, off) ← linux_text_extent p type frame_start
    elim (a.malloc (16 + hold)) [
      | none ↦ some none
      | some tempy ↦ do
        text ← read_bytes hold (drop off frame_start)
        some (some (record { type = type; length = hold; txtdta = text }, off + hold - 1))
    ]
]

-- The `switch` over the type.
unfoldable pub linux_unpack_one : Platform → Allocator → ℕ → List ℕ → ℕ → ℕ → Option (Slot × ℕ)
linux_unpack_one p a type_value bytes cur last_end =
    if type_value == 0
    then entry transit cur last_end (linux_unpack_transit p a (drop cur bytes))
    else if type_value == 2 || type_value == 3
    then entry plaintext cur last_end (linux_unpack_plaintext p a (drop cur bytes))
    else some (unset, last_end)

-- The loop, with fuel (see Linux/Extract).
unfoldable pub linux_extract_loop :
    Platform → Allocator → ℕ → ℕ → List ℕ → ℕ → ℕ → ℕ → List Slot → Extracted
linux_extract_loop p a zero byte_count bytes cur last_end frm_count my_frames = stuck
linux_extract_loop p a (suc fuel) byte_count bytes cur last_end frm_count my_frames =
    elim (ltb (last_end + 2) byte_count) [
      | false ↦ frames my_frames
      | true ↦ elim (a.malloc (frm_count * 8)) [
        | none ↦ fault
        | some block ↦ elim (linux_unpack_log_var_int p (drop cur bytes)) [
          | none ↦ fault
          | some type_value ↦ elim (linux_unpack_one p a type_value bytes cur last_end) [
            | none ↦ fault
            | some (slot, last_end') ↦
                linux_extract_loop p a fuel byte_count bytes (last_end' + 1) last_end'
                  (frm_count + 1) (my_frames ++ (slot ∷ []))
          ]
        ]
      ]
    ]

unfoldable pub linux_extract_frames : Platform → Allocator → ℕ → ℕ → List ℕ → Extracted
linux_extract_frames p a fuel byte_count bytes =
    linux_extract_loop p a fuel byte_count bytes 0 0 1 []
