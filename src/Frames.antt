-- ===== src/Frames.antt =====
-- Frames.c: reading frames from the bytes of a message. A pointer into the bytes is its offset, and
-- a frame's `*myEnd` is the offset of its last byte from its first. `realloc` to a size fails where
-- `malloc` of that size does. The result `none` is undefined behaviour, `some none` is NULL.
pub mod Extract
pub mod Pack
pub mod Stuck
pub mod RoundTrip
pub mod Plaintext
use qmsp.Base.{ℕ, zero, suc, ◌+◌, ◌-◌, ◌*◌, bit_and, Option, none, some, ◌>>=◌, List, [], ◌∷◌, ◌++◌}
use qmsp.Base.{true, false, take, drop, length, truthy, leb, ltb, ◌==◌, if◌then◌else◌}
use qmsp.Base.Memory.{Allocator}
use qmsp.VariableLengthInt.{gather, unpack_log_var_int, get_size_of_lvi_to_pack}

pub record TransitMetadataFrame : Type 0 where
  pub type : ℕ
  pub post_transit_id : ℕ
  pub total_message_count : ℕ
  pub specific_message_count : ℕ

pub record LinkageIndex : Type 0 where
  pub link_type : ℕ
  pub link_id : ℕ

pub record PostMetadataFrame : Type 0 where
  pub type : ℕ
  pub post_id : ℕ
  pub timestamp : ℕ
  pub linkage : List LinkageIndex

-- `txtdta` is the memory from that member to the end of the frame's block.
pub record PlaintextFrame : Type 0 where
  pub type : ℕ
  pub length : ℕ
  pub txtdta : List ℕ

unfoldable pub count_until_terminator : List ℕ → Option ℕ
count_until_terminator [] = none
count_until_terminator (b ∷ bytes) =
    let rest = count_until_terminator bytes in
    if b == 0 then some 0 else rest >>= λ counter. some (counter + 1)

-- `PostTransitID = *curLoc; PostTransitID <<= 8; curLoc += 1; PostTransitID += *curLoc; ...`
unfoldable pub read_post_transit_id : List ℕ → Option ℕ
read_post_transit_id [] = none
read_post_transit_id (b ∷ bytes) = gather 32 3 b bytes

-- `sizeof(struct TransitMetadataFrame)` is 28.
unfoldable pub read_transit_metadata : List ℕ → Option (TransitMetadataFrame × ℕ)
read_transit_metadata frame_start = do
  type ← unpack_log_var_int frame_start
  let loc₁ = drop (get_size_of_lvi_to_pack type) frame_start
  post_transit_id ← read_post_transit_id loc₁
  let loc₂ = drop 4 loc₁
  total ← unpack_log_var_int loc₂
  let loc₃ = drop (get_size_of_lvi_to_pack total) loc₂
  specific ← unpack_log_var_int loc₃
  let cur_loc = get_size_of_lvi_to_pack type + 4 + get_size_of_lvi_to_pack total
  some (
    record {
      type = type;
      post_transit_id = post_transit_id;
      total_message_count = total;
      specific_message_count = specific;
    },
    cur_loc + get_size_of_lvi_to_pack specific - 1,
  )

unfoldable pub unpack_transit_metadata :
    Allocator → List ℕ → Option (Option (TransitMetadataFrame × ℕ))
unpack_transit_metadata a frame_start = elim (a.malloc 28) [
  | none ↦ some none
  | some block ↦ read_transit_metadata frame_start >>= λ r. some (some r)
]

-- A write of `n` bytes at an offset of a block of `size` bytes.
unfoldable pub store : ℕ → ℕ → ℕ → Option (Unit {0})
store size off n = if leb (off + n) size then some tt else none

-- The loop of `unpackPostMetadata`, with the linkage read so far. `tempy` points to structs of 24
-- bytes, so `tempy + n` is 24 * n bytes further; the block has 8 + 1 + 9 * lcount bytes. A round
-- reads two bytes at least: the number of bytes is fuel enough.
unfoldable pub link_loop :
    Allocator
    → ℕ
    → List ℕ
    → ℕ
    → ℕ
    → ℕ
    → ℕ
    → List LinkageIndex
    → Option (Option (List LinkageIndex × ℕ))
link_loop a zero frame_start cur_loc lcount size cpy_loc links = none
link_loop a (suc fuel) frame_start cur_loc lcount size cpy_loc links =
    elim (drop cur_loc frame_start) [
      | [] ↦ none
      | b ∷ bytes ↦ elim (b == 0) [
        | true ↦ do written ← store size cpy_loc 1; some (some (links, cur_loc))
        | false ↦
            let size' = 8 + 1 + 9 * (lcount + 1) in
            elim (a.malloc size') [
              | none ↦ some none
              | some block ↦ do
                let cpy₁ = 24 * (cur_loc + 1)
                written ← store size' cpy₁ 1
                linkid ← unpack_log_var_int bytes
                let lidsze = get_size_of_lvi_to_pack linkid
                copied ← store size' (cpy₁ + 1) lidsze
                link_loop a fuel frame_start (cur_loc + 1 + lidsze) (lcount + 1) size'
                    (cpy₁ + 1 + lidsze) (links ++ (record { link_type = b; link_id = linkid } ∷ []))
            ]
      ]
    ]

-- `sizeof(struct PostMetadataFrame)` is 24, and `sizeof(newPMD)` is that of a pointer, 8.
unfoldable pub unpack_post_metadata : Allocator → List ℕ → Option (Option (PostMetadataFrame × ℕ))
unpack_post_metadata a frame_start = elim (a.malloc 24) [
  | none ↦ some none
  | some block ↦ do
    type ← unpack_log_var_int frame_start
    let cur₁ = get_size_of_lvi_to_pack type
    post_id ← unpack_log_var_int (drop cur₁ frame_start)
    let cur₂ = cur₁ + get_size_of_lvi_to_pack post_id
    timestamp ← unpack_log_var_int (drop cur₂ frame_start)
    let cur₃ = cur₂ + get_size_of_lvi_to_pack timestamp
    elim (a.malloc (8 + 1)) [
      | none ↦ some none
      | some tempy ↦
          link_loop a (length frame_start) frame_start cur₃ 0 (8 + 1) (24 * (cur₃ + 1)) [] >>= λ r.
          elim r [
            | none ↦ some none
            | some (links, my_end) ↦
                let pmd : PostMetadataFrame = record {
                  type = type;
                  post_id = post_id;
                  timestamp = timestamp;
                  linkage = links;
                } in
                some (some (pmd, my_end))
          ]
    ]
]

-- The bytes that `memcpy(..., loc, n)` reads.
unfoldable pub read_bytes : ℕ → List ℕ → Option (List ℕ)
read_bytes n loc = if leb n (length loc) then some (take n loc) else none

-- The length of the text and the offset at which it starts.
unfoldable pub text_extent : ℕ → List ℕ → Option (ℕ × ℕ)
text_extent type frame_start =
    let type_size = get_size_of_lvi_to_pack type in
    let cur_loc = drop type_size frame_start in
    if truthy (bit_and type 1)
    then (unpack_log_var_int cur_loc >>= λ len. some (len, type_size + get_size_of_lvi_to_pack len))
    else (count_until_terminator cur_loc >>= λ hold. some (hold, type_size))

-- `sizeof(struct PlaintextFrame)` is 16.
unfoldable pub unpack_plaintext : Allocator → List ℕ → Option (Option (PlaintextFrame × ℕ))
unpack_plaintext a frame_start = elim (a.malloc 16) [
  | none ↦ some none
  | some block ↦ do
    type ← unpack_log_var_int frame_start
    (hold, off) ← text_extent type frame_start
    elim (a.malloc (16 + hold)) [
      | none ↦ some none
      | some tempy ↦ do
        text ← read_bytes hold (drop off frame_start)
        some (some (record { type = type; length = hold; txtdta = text }, off + hold - 1))
    ]
]
