-- ===== src/Examples/Wire.antt =====
-- Messages.c on concrete headers.
use qmsp.Base.{
  ℕ, ◌^◌, ◌≡◌, refl, arith, inl, inr, List, [], ◌∷◌, ◌++◌, none, some, replicate, length,
}
use qmsp.Base.{truthy, if◌then◌else◌, ◌/◌}
use qmsp.VariableLengthInt.{get_size_of_dvi_to_pack}
use qmsp.Messages.{
  MessageStub, DataMessageHeader, ControlMessageHeader, get_serialized_size_of_data_message_header,
  get_serialized_size_of_control_message_header, serialize_data_message_header,
  serialize_control_message_header, rebuild_data_message, rebuild_control_message,
  construct_data_message_header,
}
use qmsp.Messages.Stub.{IsStub}
use qmsp.Messages.Serialize.{data_bytes, serialize_data_lem}
use qmsp.Messages.RoundTrip.{rebuild-serialize-construct}
use qmsp.Messages.Control.Rebuild.{IsControl, IsCanonical, rebuild-serialize_control}
use qmsp.Examples.{x86_64, powerpc, heap}

abbrev data_header : DataMessageHeader
data_header = record {
  stub = record {
    message_class = 0;
    control_type = 0;
    message_number_length = 0;
    chat_id_length = 1;
    data_flag = 0;
  };
  chat_id = 300;
  source_id = 1000;
  message_number = 7;
}

abbrev control_header : ControlMessageHeader
control_header = record {
  stub = record {
    message_class = 1;
    control_type = 2;
    message_number_length = 0;
    chat_id_length = 1;
    data_flag = 1;
  };
  version = 1;
  chat_id = 300;
  source_id = 1000;
  message_number = 7;
}

abbrev login_stub : MessageStub
login_stub = record {
  message_class = 1;
  control_type = 2;
  message_number_length = 0;
  chat_id_length = 1;
  data_flag = 1;
}

login_stub-IsStub : IsStub login_stub
login_stub-IsStub = record {
  class_bit = omega arith;
  type_bits = omega arith;
  number_bits = omega arith;
  chat_bits = omega arith;
  flag_bit = omega arith;
}

control_header-IsControl : IsControl control_header
control_header-IsControl = record {
  stub_fits = record {
    class_bit = omega arith;
    type_bits = omega arith;
    number_bits = omega arith;
    chat_bits = omega arith;
    flag_bit = omega arith;
  };
  version_word = omega arith;
  chat_word = omega arith;
  source_bits = omega arith;
  number_word = omega arith;
}

control_header-IsCanonical : IsCanonical control_header
unfolding get_size_of_dvi_to_pack
control_header-IsCanonical = record { chat_length = refl; number_length = refl }

data_header-IsStub : IsStub data_header.stub
data_header-IsStub = record {
  class_bit = omega arith;
  type_bits = omega arith;
  number_bits = omega arith;
  chat_bits = omega arith;
  flag_bit = omega arith;
}

control_stub-IsStub : IsStub control_header.stub
control_stub-IsStub = control_header-IsControl.stub_fits

rebuild-serialize-construct_example :
    (bytes : List ℕ) × (serialize_data_message_header powerpc heap
        (construct_data_message_header 300 1000 7)
      ≡ some (some bytes))
    × (length bytes
        ≡ get_serialized_size_of_data_message_header (construct_data_message_header 300 1000 7))
    × (rebuild_data_message (bytes ++ (1 ∷ 2 ∷ []))
        ≡ some (construct_data_message_header 300 1000 7))
rebuild-serialize-construct_example =
    rebuild-serialize-construct powerpc heap 300 1000 7 (1 ∷ 2 ∷ [])
      (replicate
        (get_serialized_size_of_data_message_header (construct_data_message_header 300 1000 7)) 170)
      (inr refl) (omega arith) (omega arith) (omega arith) refl

rebuild-serialize_control_example :
    (bytes : List ℕ) × (serialize_control_message_header x86_64 heap control_header
      ≡ some (some bytes))
    × (length bytes ≡ get_serialized_size_of_control_message_header control_header)
    × (rebuild_control_message (bytes ++ (1 ∷ 2 ∷ [])) ≡ some control_header)
rebuild-serialize_control_example =
    rebuild-serialize_control x86_64 heap control_header (1 ∷ 2 ∷ [])
      (replicate (get_serialized_size_of_control_message_header control_header) 170)
      (inl (refl, omega arith)) control_header-IsControl control_header-IsCanonical refl

serialize_data_lem_example : serialize_data_message_header x86_64 heap data_header ≡ (
    if truthy (data_header.source_id / 2 ^ 62)
    then some none
    else elim (heap.malloc (get_serialized_size_of_data_message_header data_header)) [
      | none ↦ some none
      | some block ↦ some (some (data_bytes x86_64 data_header))
    ])
serialize_data_lem_example =
    serialize_data_lem x86_64 heap data_header data_header-IsStub (omega arith)
