-- ===== src/Messages/RoundTrip.antt =====
-- Messages.c: rebuilding a header from the bytes that the serializers write.
use qmsp.Base.{ℕ, ◌+◌, ◌-◌, ◌*◌, ◌/◌, ◌^◌, ◌≤◌, ◌<◌, ◌≡◌, refl, sym, ap, ◌∙◌, arith}
use qmsp.Base.{List, ◌++◌, append_assoc, some, drop, length, drop-append_self, truthy, false}
use qmsp.Base.Memory.{Platform, Allocator}
use qmsp.VariableLengthInt.{
  unpack_log_var_int, unpack_dir_var_int, get_size_of_lvi_to_pack, get_size_of_dvi_to_pack,
}
use qmsp.VariableLengthInt.Direct.{LongFits}
use qmsp.VariableLengthInt.RoundTrip.{unpack-pack_log, unpack-pack_dir, dvi_size_bounds, scale_back}
use qmsp.Messages.{DataMessageHeader, rebuild_data_message, rebuild_message_stub}
use qmsp.Messages.{
  get_serialized_size_of_data_message_header, serialize_data_message_header,
  construct_data_message_header,
}
use qmsp.Messages.Stub.{IsStub, stub_of_byte-serialize}
use qmsp.Messages.Serialize.{
  dvi_bytes, lvi_bytes, data_bytes, length-dvi_bytes, length-lvi_bytes, length-data_bytes,
  serialize_data_lem,
}

-- What a 32-bit value becomes that is sent and read with `n` bytes.
unfoldable pub sent_as : ℕ → ℕ → ℕ
sent_as n v = v * 256 ^ (4 - get_size_of_dvi_to_pack v) / 256 ^ (4 - n)

pub sent_as_own_size : (n v : ℕ) → n ≡ get_size_of_dvi_to_pack v → sent_as n v ≡ v
unfolding sent_as
sent_as_own_size n v e = rw e (scale_back v (4 - get_size_of_dvi_to_pack v))

-- A header as it arrives.
unfoldable pub data_seen : DataMessageHeader → DataMessageHeader
data_seen dmh = record dmh {
  chat_id = sent_as (dmh.stub.chat_id_length + 1) dmh.chat_id;
  message_number = sent_as (dmh.stub.message_number_length + 1) dmh.message_number;
}

-- The ranges of the fields.
pub record IsData (dmh : DataMessageHeader) : Type 0 where
  pub stub_fits : IsStub dmh.stub
  pub chat_word : dmh.chat_id < 2 ^ 32
  pub source_bits : dmh.source_id < 2 ^ 62
  pub number_word : dmh.message_number < 2 ^ 32

module _ (p : Platform) (fits : LongFits p) where
  pub read_dvi :
      (n v : ℕ) (rest : List ℕ)
      → 1 ≤ n
      → n ≤ 4
      → v < 2 ^ 32
      → unpack_dir_var_int (dvi_bytes p n v ++ rest) n ≡ some (sent_as n v)
  unfolding dvi_bytes sent_as
  read_dvi n v rest pos few h = unpack-pack_dir p n v rest fits pos few h

  pub skip_dvi : (n v : ℕ) (rest : List ℕ) → n ≤ 4 → drop n (dvi_bytes p n v ++ rest) ≡ rest
  skip_dvi n v rest few =
      drop-append_self n (dvi_bytes p n v) rest (sym (length-dvi_bytes p n v (omega arith)))

  pub read_lvi :
      (v : ℕ) (rest : List ℕ) → v < 2 ^ 62 → unpack_log_var_int (lvi_bytes p v ++ rest) ≡ some v
  unfolding lvi_bytes
  read_lvi v rest h = unpack-pack_log p v rest h

  pub skip_lvi :
      (v : ℕ) (rest : List ℕ) → drop (get_size_of_lvi_to_pack v) (lvi_bytes p v ++ rest) ≡ rest
  skip_lvi v rest =
      drop-append_self (get_size_of_lvi_to_pack v) (lvi_bytes p v) rest (sym (length-lvi_bytes p v))

  -- The header that is rebuilt from the bytes of any header, whatever follows them.
  pub rebuild-data_bytes :
      (dmh : DataMessageHeader) (rest : List ℕ)
      → IsData dmh
      → rebuild_data_message (data_bytes p dmh ++ rest) ≡ some (data_seen dmh)
  unfolding rebuild_data_message data_bytes rebuild_message_stub data_seen
  rebuild-data_bytes dmh rest h =
      let n₁ = dmh.stub.chat_id_length + 1 in
      let n₂ = dmh.stub.message_number_length + 1 in
      let chat = dvi_bytes p n₁ dmh.chat_id in
      let source = lvi_bytes p dmh.source_id in
      let number = dvi_bytes p n₂ dmh.message_number in
      let tail₂ = number ++ rest in
      let tail₁ = source ++ tail₂ in
      let line : (chat ++ (source ++ number)) ++ rest ≡ chat ++ tail₁ =
        append_assoc chat (source ++ number) rest
        ∙ ap (λ r. chat ++ r) (append_assoc source number rest) in
      rw
        (
          stub_of_byte-serialize p dmh.stub h.stub_fits,
          line,
          read_dvi n₁ dmh.chat_id tail₁ (omega arith) (omega arith) h.chat_word,
          skip_dvi n₁ dmh.chat_id tail₁ (omega arith),
          read_lvi dmh.source_id tail₂ h.source_bits,
          skip_lvi dmh.source_id tail₂,
          read_dvi n₂ dmh.message_number rest (omega arith) (omega arith) h.number_word,
        )
        refl

pub source_small : (s : ℕ) → s < 2 ^ 62 → truthy (s / 2 ^ 62) ≡ false
source_small s h = ground arith

-- The lengths in the stub are those of the two 32-bit fields.
pub record IsCanonical (dmh : DataMessageHeader) : Type 0 where
  pub chat_length : dmh.stub.chat_id_length + 1 ≡ get_size_of_dvi_to_pack dmh.chat_id
  pub number_length :
      dmh.stub.message_number_length + 1 ≡ get_size_of_dvi_to_pack dmh.message_number

pub data_seen_canonical : (dmh : DataMessageHeader) → IsCanonical dmh → data_seen dmh ≡ dmh
unfolding data_seen
data_seen_canonical dmh c = ground (
  arith,
  sent_as_own_size (dmh.stub.chat_id_length + 1) dmh.chat_id c.chat_length,
  sent_as_own_size (dmh.stub.message_number_length + 1) dmh.message_number c.number_length,
)

-- A header whose fields fit and whose stub has their lengths: where `malloc` gives a block, the
-- serializer returns bytes, as many as the size function says, from which the header is rebuilt,
-- whatever follows them.
pub rebuild-serialize_data :
    (p : Platform) (a : Allocator) (dmh : DataMessageHeader) (rest block : List ℕ)
    → LongFits p
    → IsData dmh
    → IsCanonical dmh
    → a.malloc (get_serialized_size_of_data_message_header dmh) ≡ some block
    → (bytes : List ℕ) × (serialize_data_message_header p a dmh ≡ some (some bytes))
      × (length bytes ≡ get_serialized_size_of_data_message_header dmh)
      × (rebuild_data_message (bytes ++ rest) ≡ some dmh)
rebuild-serialize_data p a dmh rest block fits h c got = (
  data_bytes p dmh,
  serialize_data_lem p a dmh h.stub_fits (omega arith)
      ∙ rw (source_small dmh.source_id h.source_bits, got),
  length-data_bytes p dmh h.stub_fits (omega arith) h.source_bits,
  rebuild-data_bytes p fits dmh rest h ∙ ap some (data_seen_canonical dmh c),
)

pub constructed :
    (chat_id source_id message_number : ℕ)
    → chat_id < 2 ^ 32
    → source_id < 2 ^ 62
    → message_number < 2 ^ 32
    → let dmh = construct_data_message_header chat_id source_id message_number in
      IsData dmh × IsCanonical dmh
unfolding construct_data_message_header
constructed c s m hc hs hm =
    let bc = dvi_size_bounds c in
    let bm = dvi_size_bounds m in
    (
      record { stub_fits = omega arith; chat_word = hc; source_bits = hs; number_word = hm },
      record { chat_length = omega arith; number_length = omega arith },
    )

-- Every header that `construct_data_message_header` makes from 32-bit ids and a source id of at
-- most 62 bits comes back from its serialized bytes, whatever follows them, and they are as many
-- as the size function says: where `malloc` gives a block, and on a machine whose `unsigned long`
-- begins with the packed word.
pub rebuild-serialize-construct :
    (p : Platform) (a : Allocator) (chat_id source_id message_number : ℕ) (rest block : List ℕ)
    → LongFits p
    → chat_id < 2 ^ 32
    → source_id < 2 ^ 62
    → message_number < 2 ^ 32
    → a.malloc (
        get_serialized_size_of_data_message_header
          (construct_data_message_header chat_id source_id message_number))
      ≡ some block
    → (bytes : List ℕ) × (serialize_data_message_header p a
          (construct_data_message_header chat_id source_id message_number)
        ≡ some (some bytes))
      × (length bytes
          ≡ get_serialized_size_of_data_message_header
              (construct_data_message_header chat_id source_id message_number))
      × (rebuild_data_message (bytes ++ rest)
          ≡ some (construct_data_message_header chat_id source_id message_number))
rebuild-serialize-construct p a c s m rest block fits hc hs hm got =
    let (h, canonical) = constructed c s m hc hs hm in
    rebuild-serialize_data p a (construct_data_message_header c s m) rest block fits h canonical got
