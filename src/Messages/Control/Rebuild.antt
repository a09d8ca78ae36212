-- ===== src/Messages/Control/Rebuild.antt =====
-- Messages.c: a control message's header rebuilt from the bytes that the serializer writes.
use qmsp.Base.{ℕ, ◌+◌, ◌^◌, ◌≤◌, ◌<◌, ◌≡◌, refl, sym, ap, ◌∙◌, arith}
use qmsp.Base.{List, [], ◌∷◌, ◌++◌, append_assoc, some, drop, length}
use qmsp.Base.{drop-append_self}
use qmsp.Base.Bits.{bit_and_three}
use qmsp.Base.Memory.{Platform, Allocator, be_bytes}
use qmsp.VariableLengthInt.{unpack_dir_var_int, get_size_of_dvi_to_pack}
use qmsp.VariableLengthInt.Direct.{LongFits, take-word_bytes_long, take-be_bytes, unpack-be_bytes}
use qmsp.VariableLengthInt.RoundTrip.{dvi_size_bounds}
use qmsp.Messages.{
  ControlMessageHeader, get_serialized_size_of_control_message_header,
  serialize_control_message_header, rebuild_control_message, rebuild_version, rebuild_message_stub,
  construct_control_message_header,
}
use qmsp.Messages.Stub.{IsStub, stub_of_byte-serialize}
use qmsp.Messages.Serialize.{dvi_bytes, lvi_bytes, version_bytes, length-version_bytes}
use qmsp.Messages.RoundTrip.{
  sent_as, sent_as_own_size, read_dvi, skip_dvi, read_lvi, skip_lvi, source_small,
}
use qmsp.Messages.Control.{control_bytes, length-control_bytes, serialize_control_lem}

version_as_bytes :
    (p : Platform) (v : ℕ) → LongFits p → v < 2 ^ 32 → version_bytes p v ≡ be_bytes 4 v
unfolding version_bytes
version_as_bytes p v fits h =
    take-word_bytes_long p 4 v fits (omega arith) h
    ∙ take-be_bytes 4 v (omega arith)
    ∙ ap (λ t. be_bytes 4 t) (omega arith)

rebuild_version-eq : (loc : List ℕ) → rebuild_version loc ≡ unpack_dir_var_int loc 4
unfolding rebuild_version unpack_dir_var_int
rebuild_version-eq [] = refl
rebuild_version-eq (b ∷ bytes) = refl

read_version :
    (p : Platform) (v : ℕ) (rest : List ℕ)
    → LongFits p
    → v < 2 ^ 32
    → rebuild_version (version_bytes p v ++ rest) ≡ some v
read_version p v rest fits h =
    rebuild_version-eq (version_bytes p v ++ rest)
    ∙ ap (λ l. unpack_dir_var_int (l ++ rest) 4) (version_as_bytes p v fits h)
    ∙ unpack-be_bytes 4 v rest (omega arith) (omega arith)
    ∙ ap some (omega arith)

skip_version :
    (p : Platform) (v : ℕ) (rest : List ℕ)
    → 4 ≤ p.long_size
    → drop 4 (version_bytes p v ++ rest) ≡ rest
skip_version p v rest wide =
    drop-append_self 4 (version_bytes p v) rest (sym (length-version_bytes p v wide))

-- A header as it arrives.
control_seen : ControlMessageHeader → ControlMessageHeader
control_seen cmh = record cmh {
  chat_id = sent_as (cmh.stub.chat_id_length + 1) cmh.chat_id;
  message_number = sent_as (cmh.stub.message_number_length + 1) cmh.message_number;
}

-- The ranges of the fields.
pub record IsControl (cmh : ControlMessageHeader) : Type 0 where
  pub stub_fits : IsStub cmh.stub
  pub version_word : cmh.version < 2 ^ 32
  pub chat_word : cmh.chat_id < 2 ^ 32
  pub source_bits : cmh.source_id < 2 ^ 62
  pub number_word : cmh.message_number < 2 ^ 32

rebuild-control_bytes :
    (p : Platform) (cmh : ControlMessageHeader) (rest : List ℕ)
    → LongFits p
    → IsControl cmh
    → rebuild_control_message (control_bytes p cmh ++ rest) ≡ some (control_seen cmh)
unfolding rebuild_control_message control_bytes rebuild_message_stub control_seen
rebuild-control_bytes p cmh rest fits h =
    let n₁ = cmh.stub.chat_id_length + 1 in
    let n₂ = cmh.stub.message_number_length + 1 in
    let version = version_bytes p cmh.version in
    let chat = dvi_bytes p n₁ cmh.chat_id in
    let source = lvi_bytes p cmh.source_id in
    let number = dvi_bytes p n₂ cmh.message_number in
    let tail₂ = number ++ rest in
    let tail₁ = source ++ tail₂ in
    let line : ((version ++ chat) ++ (source ++ number)) ++ rest ≡ version ++ (chat ++ tail₁) =
      append_assoc (version ++ chat) (source ++ number) rest
      ∙ ap (λ r. (version ++ chat) ++ r) (append_assoc source number rest)
      ∙ append_assoc version chat tail₁ in
    rw
      (
        stub_of_byte-serialize p cmh.stub h.stub_fits,
        line,
        read_version p cmh.version (chat ++ tail₁) fits h.version_word,
        skip_version p cmh.version (chat ++ tail₁) (omega arith),
        read_dvi p fits n₁ cmh.chat_id tail₁ (omega arith) (omega arith) h.chat_word,
        skip_dvi p fits n₁ cmh.chat_id tail₁ (omega arith),
        read_lvi p fits cmh.source_id tail₂ h.source_bits,
        skip_lvi p fits cmh.source_id tail₂,
        read_dvi p fits n₂ cmh.message_number rest (omega arith) (omega arith) h.number_word,
      )
      refl

-- The lengths in the stub are those of the two 32-bit fields.
pub record IsCanonical (cmh : ControlMessageHeader) : Type 0 where
  pub chat_length : cmh.stub.chat_id_length + 1 ≡ get_size_of_dvi_to_pack cmh.chat_id
  pub number_length :
      cmh.stub.message_number_length + 1 ≡ get_size_of_dvi_to_pack cmh.message_number

control_seen_canonical : (cmh : ControlMessageHeader) → IsCanonical cmh → control_seen cmh ≡ cmh
unfolding control_seen
control_seen_canonical cmh c = ground (
  arith,
  sent_as_own_size (cmh.stub.chat_id_length + 1) cmh.chat_id c.chat_length,
  sent_as_own_size (cmh.stub.message_number_length + 1) cmh.message_number c.number_length,
)

-- A control header whose fields fit and whose stub has their lengths: where `malloc` gives a
-- block, and on a machine whose `unsigned long` begins with the packed word, the serializer
-- returns bytes, as many as the size function says, from which the header is rebuilt, whatever
-- follows them.
pub rebuild-serialize_control :
    (p : Platform) (a : Allocator) (cmh : ControlMessageHeader) (rest block : List ℕ)
    → LongFits p
    → IsControl cmh
    → IsCanonical cmh
    → a.malloc (get_serialized_size_of_control_message_header cmh) ≡ some block
    → (bytes : List ℕ) × (serialize_control_message_header p a cmh ≡ some (some bytes))
      × (length bytes ≡ get_serialized_size_of_control_message_header cmh)
      × (rebuild_control_message (bytes ++ rest) ≡ some cmh)
rebuild-serialize_control p a cmh rest block fits h c got = (
  control_bytes p cmh,
  serialize_control_lem p a cmh h.stub_fits (omega arith)
      ∙ rw (source_small cmh.source_id h.source_bits, got),
  length-control_bytes p cmh h.stub_fits (omega arith) h.source_bits,
  rebuild-control_bytes p cmh rest fits h ∙ ap some (control_seen_canonical cmh c),
)

-- The headers that `construct_control_message_header` makes, whatever its first and last
-- argument, of a 32-bit version, ids and number and a source id of at most 62 bits, meet the
-- conditions of the round trip.
pub construct-IsControl :
    (control_type version chat_id source_id message_number has_data : ℕ)
    → version < 2 ^ 32
    → chat_id < 2 ^ 32
    → source_id < 2 ^ 62
    → message_number < 2 ^ 32
    → IsControl (
        construct_control_message_header control_type version chat_id source_id message_number
          has_data)
      × IsCanonical (
          construct_control_message_header control_type version chat_id source_id message_number
            has_data)
unfolding construct_control_message_header
construct-IsControl t v c s m d hv hc hs hm =
    let bc = dvi_size_bounds c in
    let bm = dvi_size_bounds m in
    (
      record {
        stub_fits = ground (arith, bit_and_three t);
        version_word = hv;
        chat_word = hc;
        source_bits = hs;
        number_word = hm;
      },
      record { chat_length = omega arith; number_length = omega arith },
    )
