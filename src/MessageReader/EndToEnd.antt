-- ===== src/MessageReader/EndToEnd.antt =====
-- From the sender's calls to the receiver's: SerializeDataMessageHeader, PackMessage, unpackMessage.
use qmsp.Base.{ℕ, ◌+◌, ◌-◌, ◌^◌, ◌<◌, ◌≤◌, ◌≡◌, refl, ap, ◌∙◌, arith, List, ◌∷◌, ◌++◌, some}
use qmsp.Base.{length, length-append, drop-append_self, u64}
use qmsp.Base.Memory.{Platform, Allocator}
use qmsp.VariableLengthInt.{get_size_of_lvi_to_pack}
use qmsp.VariableLengthInt.AnyInput.{lvi_size_bounds}
use qmsp.VariableLengthInt.Direct.{LongFits}
use qmsp.Messages.{
  DataMessageHeader, serialize_message_stub, serialize_data_message_header, rebuild_data_message,
  construct_data_message_header, get_serialized_size_of_data_message_header,
}
use qmsp.Messages.Stub.{IsStub, stub_value, serialize_message_stub_lem}
use qmsp.Messages.Serialize.{data_bytes, length-data_bytes, serialize_data_lem}
use qmsp.Messages.RoundTrip.{
  IsData, IsCanonical, data_seen_canonical, rebuild-data_bytes, source_small, constructed,
}
use qmsp.Frames.Pack.{Frame}
use qmsp.Frames.Extract.{Slot, frames}
use qmsp.MessageReader.{Head, data_head, rebuild_head, pack_message, unpack_message}
use qmsp.MessageReader.Wire.{Frames, Gives}
use qmsp.MessageReader.Pack.{pack_message-Frames}
use qmsp.MessageReader.RoundTrip.{extract_frames-Frames}

stub_below :
    (p : Platform) (dmh : DataMessageHeader)
    → IsStub dmh.stub
    → dmh.stub.message_class ≡ 0
    → serialize_message_stub p dmh.stub < 128
stub_below p dmh h data_class =
    rw (serialize_message_stub_lem p dmh.stub h) (unfold stub_value in omega arith)

data_branch :
    (first : ℕ) (bytes : List ℕ) (dmh : DataMessageHeader)
    → first < 128
    → rebuild_data_message (first ∷ bytes) ≡ some dmh
    → rebuild_head (first ∷ bytes)
      ≡ some (
        data_head dmh,
        1
            + (dmh.stub.chat_id_length + 1)
            + get_size_of_lvi_to_pack dmh.source_id
            + (dmh.stub.message_number_length + 1),
      )
unfolding rebuild_head
data_branch first bytes dmh low read = ground arith

data_size :
    (dmh : DataMessageHeader)
    → dmh.source_id < 2 ^ 62
    → get_serialized_size_of_data_message_header dmh
      ≡ 1
        + (dmh.stub.chat_id_length + 1)
        + get_size_of_lvi_to_pack dmh.source_id
        + (dmh.stub.message_number_length + 1)
unfolding get_serialized_size_of_data_message_header
data_size dmh small = ground (arith, source_small dmh.source_id small)

rebuild_head-data_bytes :
    (p : Platform) (dmh : DataMessageHeader) (rest : List ℕ)
    → LongFits p
    → IsData dmh
    → IsCanonical dmh
    → dmh.stub.message_class ≡ 0
    → rebuild_head (data_bytes p dmh ++ rest) ≡ some (data_head dmh, length (data_bytes p dmh))
unfolding data_bytes
rebuild_head-data_bytes p dmh rest fits h canonical data_class =
    data_branch (serialize_message_stub p dmh.stub) _ dmh (stub_below p dmh h.stub_fits data_class)
      (rebuild-data_bytes p fits dmh rest h ∙ ap some (data_seen_canonical dmh canonical))
    ∙ ap (λ n. some (data_head dmh, n))
        (omega (
          arith,
          data_size dmh h.source_bits,
          length-data_bytes p dmh h.stub_fits (omega arith) h.source_bits,
        ))

constructed_class :
    (chat_id source_id message_number : ℕ)
    → (construct_data_message_header chat_id source_id message_number).stub.message_class ≡ 0
unfolding construct_data_message_header
constructed_class c s m = refl

unpack_behind :
    (p : Platform) (a : Allocator) (fuel : ℕ) (head bytes : List ℕ) (h : Head) (fs : List Frame)
    (ss : List Slot)
    → Gives a
    → Frames p fs bytes ss
    → 3 ≤ length bytes
    → length head + length bytes < 2 ^ 64
    → length ss < fuel
    → rebuild_head (head ++ bytes) ≡ some (h, length head)
    → unpack_message a fuel (head ++ bytes) (length (head ++ bytes))
      ≡ some (record { msghead = h; msgframes = frames ss })
unfolding unpack_message
unpack_behind p a fuel head bytes h fs ss gives sent few fits enough read =
    let (b, got) = gives 21 in
    let left : u64 (length (head ++ bytes) + 2 ^ 64 - length head) ≡ length bytes =
      omega (arith, length-append head bytes) in
    rw
      (
        read,
        got,
        left,
        drop-append_self (length head) head bytes refl,
        extract_frames-Frames p a fuel fs bytes ss gives sent few enough,
      )
      refl

-- What the program does to send a message and what it does with the bytes that arrive fit
-- together. A header that is constructed from 32-bit ids and a source id of at most 62 bits is
-- serialized, in as many bytes as the size function says; frames that can be sent, of at least three
-- and less than 2^62 bytes together, are packed behind it, and nothing else; and `unpack_message` of
-- the result finds that header and those frames, in order. This holds where memory never runs out, on
-- a machine whose `unsigned long` begins with the packed word, and the loop over the frames ends by
-- itself within a round more than there are frames.
pub unpack-pack_message :
    (p : Platform) (a : Allocator) (fuel chat_id source_id message_number : ℕ) (fs : List Frame)
    (bytes : List ℕ) (ss : List Slot)
    → LongFits p
    → Gives a
    → chat_id < 2 ^ 32
    → source_id < 2 ^ 62
    → message_number < 2 ^ 32
    → Frames p fs bytes ss
    → 3 ≤ length bytes
    → length bytes < 2 ^ 62
    → length ss < fuel
    → let dmh = construct_data_message_header chat_id source_id message_number in
      (header : List ℕ) × (message : List ℕ) × (serialize_data_message_header p a dmh
        ≡ some (some header))
      × (length header ≡ get_serialized_size_of_data_message_header dmh)
      × (pack_message p a header fs (length header) ≡ some message)
      × (message ≡ header ++ bytes)
      × (unpack_message a fuel message (length message)
          ≡ some (record { msghead = data_head dmh; msgframes = frames ss }))
unpack-pack_message p a fuel c s m fs bytes ss fits gives hc hs hm sent few many enough =
    let dmh = construct_data_message_header c s m in
    let (h, canonical) = constructed c s m hc hs hm in
    let header = data_bytes p dmh in
    let (b₁, got₁) = gives (get_serialized_size_of_data_message_header dmh) in
    let (b₂, got₂) = gives (length header + length bytes) in
    let short : length header < 32 = omega (
      arith,
      data_size dmh h.source_bits,
      lvi_size_bounds dmh.source_id,
      length-data_bytes p dmh h.stub_fits (omega arith) h.source_bits,
      h.stub_fits.number_bits,
      h.stub_fits.chat_bits,
    ) in
    (
      header,
      header ++ bytes,
      serialize_data_lem p a dmh h.stub_fits (omega arith)
          ∙ rw (source_small dmh.source_id h.source_bits, got₁) refl,
      omega (arith, length-data_bytes p dmh h.stub_fits (omega arith) h.source_bits),
      pack_message-Frames p a header bytes b₂ fs ss sent (omega arith) got₂,
      refl,
      unpack_behind p a fuel header bytes (data_head dmh) fs ss gives sent few (omega arith) enough
          (rebuild_head-data_bytes p dmh bytes fits h canonical (constructed_class c s m)),
    )
