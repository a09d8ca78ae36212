-- ===== src/Messages/Control.antt =====
-- Messages.c: the header of a control message, written on every branch.
pub mod Rebuild
use qmsp.Base.{ℕ, zero, suc, ◌+◌, ◌-◌, ◌*◌, ◌/◌, ◌%◌, ◌^◌, ◌≤◌, ◌<◌, ◌≡◌, refl, sym, ap, ◌∙◌, arith}
use qmsp.Base.{List, [], ◌∷◌, ◌++◌, append_assoc, Option, none, some, ◌>>=◌, take, drop, length}
use qmsp.Base.{
  length-append, drop-append_self, truthy, ◌==◌, if◌then◌else◌, Bool-cases, Option-cases, inl, inr,
  false,
}
use qmsp.Base.Memory.{Platform, Allocator, word_bytes, be_bytes}
use qmsp.Base.Fill.{fill_all_five}
use qmsp.VariableLengthInt.{
  gather, unpack_dir_var_int, get_size_of_lvi_to_pack, get_size_of_dvi_to_pack,
}
use qmsp.VariableLengthInt.Direct.{LongFits, take-word_bytes_long, take-be_bytes, unpack-be_bytes}
use qmsp.VariableLengthInt.RoundTrip.{dvi_size_bounds}
use qmsp.VariableLengthInt.AnyInput.{lvi_size_bounds}
use qmsp.Messages.{
  ControlMessageHeader, serialize_message_stub, write_control_message_header,
  get_serialized_size_of_control_message_header, serialize_control_message_header,
  rebuild_control_message, rebuild_version, rebuild_message_stub, construct_control_message_header,
}
use qmsp.Messages.Stub.{IsStub, stub_of_byte-serialize}
use qmsp.Messages.Serialize.{
  dvi_bytes, lvi_bytes, version_bytes, length-dvi_bytes, length-lvi_bytes, length-version_bytes,
}
use qmsp.Messages.RoundTrip.{
  sent_as, sent_as_own_size, read_dvi, skip_dvi, read_lvi, skip_lvi, source_small,
}

unfoldable pub control_bytes : Platform → ControlMessageHeader → List ℕ
control_bytes p cmh =
    (serialize_message_stub p cmh.stub ∷ [])
    ++ ((version_bytes p cmh.version ++ dvi_bytes p (cmh.stub.chat_id_length + 1) cmh.chat_id)
        ++ (lvi_bytes p cmh.source_id
            ++ dvi_bytes p (cmh.stub.message_number_length + 1) cmh.message_number))

write_control_lem :
    (p : Platform) (cmh : ControlMessageHeader) (block : List ℕ)
    → IsStub cmh.stub
    → 4 ≤ p.long_size
    → cmh.source_id < 2 ^ 62
    → length block ≡ get_serialized_size_of_control_message_header cmh
    → write_control_message_header p cmh block ≡ some (control_bytes p cmh)
unfolding write_control_message_header control_bytes dvi_bytes lvi_bytes version_bytes
    get_serialized_size_of_control_message_header
write_control_lem p cmh block h wide small fits =
    let n₁ = cmh.stub.chat_id_length + 1 in
    let n₂ = cmh.stub.message_number_length + 1 in
    let lc = length-dvi_bytes p n₁ cmh.chat_id (omega arith) in
    let ln = length-dvi_bytes p n₂ cmh.message_number (omega arith) in
    let ls = length-lvi_bytes p cmh.source_id in
    let lv = length-version_bytes p cmh.version wide in
    fill_all_five some block (serialize_message_stub p cmh.stub ∷ []) (version_bytes p cmh.version)
      (dvi_bytes p n₁ cmh.chat_id) (lvi_bytes p cmh.source_id) (dvi_bytes p n₂ cmh.message_number) 1
      5 (5 + n₁) (5 + n₁ + get_size_of_lvi_to_pack cmh.source_id) refl (omega arith) (omega arith)
      (omega arith) (ground arith)

pub length-control_bytes :
    (p : Platform) (cmh : ControlMessageHeader)
    → IsStub cmh.stub
    → 4 ≤ p.long_size
    → cmh.source_id < 2 ^ 62
    → length (control_bytes p cmh) ≡ get_serialized_size_of_control_message_header cmh
unfolding control_bytes get_serialized_size_of_control_message_header
length-control_bytes p cmh h wide small =
    let version = version_bytes p cmh.version in
    let chat = dvi_bytes p (cmh.stub.chat_id_length + 1) cmh.chat_id in
    let source = lvi_bytes p cmh.source_id in
    let number = dvi_bytes p (cmh.stub.message_number_length + 1) cmh.message_number in
    ground (
      arith,
      length-dvi_bytes p (cmh.stub.chat_id_length + 1) cmh.chat_id,
      length-dvi_bytes p (cmh.stub.message_number_length + 1) cmh.message_number,
      length-lvi_bytes p cmh.source_id,
      length-version_bytes p cmh.version wide,
      length-append (version ++ chat) (source ++ number),
      length-append version chat,
      length-append source number,
    )

control_size_zero :
    (cmh : ControlMessageHeader)
    → (get_serialized_size_of_control_message_header cmh == 0) ≡ truthy (cmh.source_id / 2 ^ 62)
unfolding get_serialized_size_of_control_message_header
control_size_zero cmh = ground (arith, lvi_size_bounds cmh.source_id)

-- What `serialize_control_message_header` answers for a header whose stub fits, where an
-- `unsigned long` has four bytes at least: NULL if the source id needs more than 62 bits or
-- `malloc` fails, and the header's bytes else, each of them inside the block that it asked for.
pub serialize_control_lem :
    (p : Platform) (a : Allocator) (cmh : ControlMessageHeader)
    → IsStub cmh.stub
    → 4 ≤ p.long_size
    → serialize_control_message_header p a cmh ≡ (
        if truthy (cmh.source_id / 2 ^ 62)
        then some none
        else elim (a.malloc (get_serialized_size_of_control_message_header cmh)) [
          | none ↦ some none
          | some block ↦ some (some (control_bytes p cmh))
        ])
unfolding serialize_control_message_header
serialize_control_lem p a cmh h wide =
    let size = get_serialized_size_of_control_message_header cmh in
    elim (Bool-cases (truthy (cmh.source_id / 2 ^ 62))) [
      | inl large ↦ rw (control_size_zero cmh, large)
      | inr small ↦ elim (Option-cases (a.malloc size)) [
        | inl failed ↦ rw (control_size_zero cmh, small, failed)
        | inr (block, got) ↦ rw (
          control_size_zero cmh,
          small,
          got,
          write_control_lem p cmh block h wide (ground arith) (a.length-malloc size block got),
        )
      ]
    ]
