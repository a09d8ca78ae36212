-- ===== src/Linux/RoundTrip.antt =====
-- OriginalLinuxCode/Messages.c: what becomes of the ids that a data header is constructed with. The
-- constructor takes each as an `unsigned long`, and the header keeps 32 bits of it.
use native.Mathlib.Decide.{dec_lt}
use qmsp.Base.{
  ℕ, zero, suc, ◌+◌, ◌-◌, ◌*◌, ◌/◌, ◌%◌, ◌^◌, ◌≤◌, ◌<◌, ◌≡◌, refl, ap, ◌∙◌, arith, some, List, [],
  ◌∷◌, ◌++◌, All, take, inl, inr, u32, ltb, true, false, if◌then◌else◌,
}
use qmsp.Base.Memory.{Platform, Allocator, word_bytes, le_bytes, be_bytes}
use qmsp.ChatFiles.Stdio.Laws.{All-append}
use qmsp.VariableLengthInt.{get_size_of_dvi_to_pack}
use qmsp.VariableLengthInt.AnyInput.{IsByte}
use qmsp.VariableLengthInt.Direct.{LongFits}
use qmsp.VariableLengthInt.RoundTrip.{dvi_size_bounds}
use qmsp.Messages.{DataMessageHeader, get_serialized_size_of_data_message_header}
use qmsp.Messages.Stub.{IsStub, serialize_message_stub-lt}
use qmsp.Messages.Serialize.{dvi_bytes, lvi_bytes, data_bytes, serialize_data_lem}
use qmsp.Messages.RoundTrip.{
  IsData, data_seen, sent_as, sent_as_own_size, rebuild-data_bytes, source_small,
}
use qmsp.Linux.Integers.{LinuxLong, size_dvi-linux}
use qmsp.Linux.Messages.{linux_construct_data, linux_serialize_data, linux_rebuild_data}
use qmsp.Linux.Headers.{serialize_data-linux}
use qmsp.Linux.Rebuild.{rebuild_data-linux}

-- Serialized headers are bytes.
le_bytes-IsByte : (n x : ℕ) → All IsByte (le_bytes n x)
unfolding le_bytes
le_bytes-IsByte zero x = tt
le_bytes-IsByte (suc n) x = (omega arith, le_bytes-IsByte n (x / 256))

be_bytes-IsByte : (n x : ℕ) → All IsByte (be_bytes n x)
unfolding be_bytes
be_bytes-IsByte zero x = tt
be_bytes-IsByte (suc n) x = (omega arith, be_bytes-IsByte n x)

All-take : (n : ℕ) (xs : List ℕ) → All IsByte xs → All IsByte (take n xs)
All-take zero xs h = tt
All-take (suc n) [] h = tt
All-take (suc n) (x ∷ xs) (h, hs) = (h, All-take n xs hs)

word_bytes-IsByte : (p : Platform) (w x : ℕ) → All IsByte (word_bytes p w x)
unfolding word_bytes
word_bytes-IsByte p w x =
    elim p.little as (λ b. All IsByte (if b then le_bytes w x else be_bytes w x)) [
      | true ↦ le_bytes-IsByte w x
      | false ↦ be_bytes-IsByte w x
    ]

data_bytes-IsByte :
    (p : Platform) (dmh : DataMessageHeader) → IsStub dmh.stub → All IsByte (data_bytes p dmh)
unfolding data_bytes dvi_bytes lvi_bytes
data_bytes-IsByte p dmh h = (
  serialize_message_stub-lt p dmh.stub h,
  All-append IsByte (dvi_bytes p (dmh.stub.chat_id_length + 1) dmh.chat_id) _
      (All-take _ _ (word_bytes-IsByte p p.long_size _))
      (All-append IsByte (lvi_bytes p dmh.source_id) _ (All-take _ _ (word_bytes-IsByte p 8 _))
        (All-take _ _ (word_bytes-IsByte p p.long_size _))),
)

LinuxLong-LongFits : (p : Platform) → LinuxLong p → LongFits p
LinuxLong-LongFits p (inl four) = inr four
LinuxLong-LongFits p (inr (little, eight)) = inl (little, omega (arith, eight))

-- An id of more than 32 bits is sent in four bytes, and its low 32 bits are shifted to their front.
unfoldable pub id_seen : ℕ → ℕ
id_seen v = if ltb v (2 ^ 32) then v else u32 v * 256 ^ (4 - get_size_of_dvi_to_pack (u32 v))

size_large : (v : ℕ) → 2 ^ 32 ≤ v → get_size_of_dvi_to_pack v ≡ 4
unfolding get_size_of_dvi_to_pack
size_large v h = ground arith

sent_as_four : (w : ℕ) → sent_as 4 w ≡ w * 256 ^ (4 - get_size_of_dvi_to_pack w)
unfolding sent_as
sent_as_four w = ground arith

id_seen_lem : (v : ℕ) → sent_as ((get_size_of_dvi_to_pack v - 1) % 4 + 1) (u32 v) ≡ id_seen v
unfolding id_seen
id_seen_lem v = elim (dec_lt v (2 ^ 32)) [
  | yes small ↦
      let cut : u32 v ≡ v = omega arith in
      let own : (get_size_of_dvi_to_pack v - 1) % 4 + 1 ≡ get_size_of_dvi_to_pack v =
        omega (arith, dvi_size_bounds v) in
      rw (cut, own, sent_as_own_size (get_size_of_dvi_to_pack v) v refl) (ground arith)
  | no large ↦
      let four : (get_size_of_dvi_to_pack v - 1) % 4 + 1 ≡ 4 = omega (arith, size_large v) in
      rw (four, sent_as_four (u32 v)) (ground arith)
]

-- The header as it arrives.
unfoldable pub linux_seen : ℕ → ℕ → ℕ → DataMessageHeader
linux_seen chat_id source_id message_number =
    record (linux_construct_data chat_id source_id message_number) {
      chat_id = id_seen chat_id;
      message_number = id_seen message_number;
    }

data_seen-linux : (c s m : ℕ) → data_seen (linux_construct_data c s m) ≡ linux_seen c s m
unfolding data_seen linux_seen linux_construct_data
data_seen-linux c s m = rw (size_dvi-linux c, size_dvi-linux m, id_seen_lem c, id_seen_lem m) refl

linux_construct_data-IsData : (c s m : ℕ) → s < 2 ^ 62 → IsData (linux_construct_data c s m)
unfolding linux_construct_data
linux_construct_data-IsData c s m small = record {
  stub_fits = omega arith;
  chat_word = omega arith;
  source_bits = small;
  number_word = omega arith;
}

-- A data header that is constructed from any ids and a source id of at most 62 bits is serialized into
-- bytes from which it is rebuilt, whatever bytes follow, with the ids that are below 2^32 as they were
-- and each larger id as its low 32 bits, shifted to the front of four bytes. This holds on the machines
-- of LinuxLong, where `malloc` gives a block.
pub linux_rebuild-serialize :
    (p : Platform) (a : Allocator) (chat_id source_id message_number : ℕ) (rest block : List ℕ)
    → LinuxLong p
    → source_id < 2 ^ 62
    → All IsByte rest
    → a.malloc (
        get_serialized_size_of_data_message_header
          (linux_construct_data chat_id source_id message_number))
      ≡ some block
    → (bytes : List ℕ) × (linux_serialize_data p a
          (linux_construct_data chat_id source_id message_number)
        ≡ some (some bytes))
      × (linux_rebuild_data p (bytes ++ rest) ≡ some (linux_seen chat_id source_id message_number))
linux_rebuild-serialize p a c s m rest block fits small h got =
    let dmh = linux_construct_data c s m in
    let d = linux_construct_data-IsData c s m small in
    (
      data_bytes p dmh,
      serialize_data-linux p a dmh fits (d.stub_fits.chat_bits, d.stub_fits.number_bits)
          ∙ serialize_data_lem p a dmh d.stub_fits (omega (arith, LinuxLong-LongFits p fits))
          ∙ rw (source_small dmh.source_id d.source_bits, got) refl,
      rebuild_data-linux p (data_bytes p dmh ++ rest) fits
            (All-append IsByte (data_bytes p dmh) rest (data_bytes-IsByte p dmh d.stub_fits) h)
          ∙ rebuild-data_bytes p (LinuxLong-LongFits p fits) dmh rest d
          ∙ ap some (data_seen-linux c s m),
    )
