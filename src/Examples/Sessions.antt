-- ===== src/Examples/Sessions.antt =====
-- Messages from a client to a server, on concrete texts.
use qmsp.Base.{
  ℕ, ◌^◌, ◌≡◌, refl, arith, inl, List, [], ◌∷◌, ◌++◌, Option, none, some, true, false, Bool,
  replicate, ◌<◌, ◌≤◌, length, length-append, ◌==◌, if◌then◌else◌,
}
use qmsp.VariableLengthInt.AnyInput.{lvi_size_bounds}
use qmsp.Messages.{
  construct_data_message_header, serialize_data_message_header,
  get_serialized_size_of_data_message_header,
}
use qmsp.Frames.Pack.{Frame, transit, plaintext}
use qmsp.Frames.Pack.Laws.{tmd_bytes, length-tmd_bytes}
use qmsp.Frames.RoundTrip.{IsTmd}
use qmsp.Frames.Plaintext.{counted, counted_bytes, length-counted_bytes}
use qmsp.Frames.Extract.{Slot, frames}
use qmsp.MessageReader.{data_head, pack_message, unpack_message}
use qmsp.MessageReader.Wire.{Frames, Gives, tmd, told, whole, only, front}
use qmsp.MessageReader.EndToEnd.{unpack-pack_message}
use qmsp.MessageReader.Apply.{receive}
use qmsp.MessageReader.Apply.Undefined.{Fails, receive_undefined}
use qmsp.ChatFiles.Reader.{fault}
use qmsp.ChatFiles.Stdio.{print_number}
use qmsp.ChatFiles.Writer.{add_new_user, add_new_post}
use qmsp.Client.{
  client_tmd, take_arguments, connect, user_id_text, con_at_text, con_to_text, chat_text, name_text,
}
use qmsp.Client.Cached.{connect_to-connect_at}
use qmsp.Examples.{x86_64, heap}
use qmsp.Examples.Chats.{chats, nick, host, old_line, me-IsEntry, old_line-PassesBy}

heap-Gives : Gives heap
heap-Gives n = (replicate n 170, refl)

abbrev hello : List ℕ
hello = b'H' ∷ b'e' ∷ b'y' ∷ []

client_tmd-IsTmd : IsTmd client_tmd
client_tmd-IsTmd = record {
  type_zero = refl;
  id_word = omega arith;
  total_bits = omega arith;
  specific_bits = omega arith;
}

abbrev test_frames : List Frame
test_frames = transit client_tmd ∷ plaintext (counted hello) ∷ []

abbrev test_slots : List Slot
test_slots = Slot.transit client_tmd ∷ Slot.plaintext (counted hello) ∷ []

abbrev test_bytes : List ℕ
test_bytes = tmd_bytes x86_64 client_tmd ++ counted_bytes x86_64 hello

test_frames-Frames : Frames x86_64 test_frames test_bytes test_slots
test_frames-Frames =
    front (tmd client_tmd client_tmd-IsTmd) (only (whole (told hello (omega arith))))

length-test_bytes : (3 ≤ length test_bytes) × (length test_bytes < 2 ^ 62)
length-test_bytes =
    let n = length-append (tmd_bytes x86_64 client_tmd) (counted_bytes x86_64 hello) in
    let t = length-tmd_bytes x86_64 client_tmd in
    let c = length-counted_bytes x86_64 hello in
    let b₀ = lvi_size_bounds 0 in
    let b₁ = lvi_size_bounds 1 in
    let b₃ = lvi_size_bounds 3 in
    (omega (arith, n, t, c, b₀, b₁, b₃), omega (arith, n, t, c, b₀, b₁, b₃))

unpack-pack_message_example :
    let dmh = construct_data_message_header 300 1000 7 in
    (header : List ℕ) × (message : List ℕ) × (serialize_data_message_header x86_64 heap dmh
      ≡ some (some header))
    × (length header ≡ get_serialized_size_of_data_message_header dmh)
    × (pack_message x86_64 heap header test_frames (length header) ≡ some message)
    × (message ≡ header ++ test_bytes)
    × (unpack_message heap 3 message (length message)
        ≡ some (record { msghead = data_head dmh; msgframes = frames test_slots }))
unpack-pack_message_example =
    unpack-pack_message x86_64 heap 3 300 1000 7 test_frames test_bytes test_slots
      (inl (refl, omega arith)) heap-Gives (omega arith) (omega arith) (omega arith)
      test_frames-Frames length-test_bytes.0 length-test_bytes.1 (omega arith)

receive_undefined_example :
    (add_new_user heap chats 2 7 0 (b'x' ∷ []) ≡ none)
    × (add_new_post heap 5 chats 2 7 9 hello ≡ fault)
    × Fails (receive x86_64 heap 5 ((0 ∷ 2 ∷ 7 ∷ 0 ∷ []) ∷ []) chats)
receive_undefined_example =
    receive_undefined x86_64 heap 5 chats 2 7 0 9 (b'x' ∷ []) hello (0 ∷ 2 ∷ 7 ∷ 0 ∷ []) []

-- The arguments of a client that caches its chat, and of one that takes it from the cache.
abbrev is_text : List ℕ → List ℕ → Bool
is_text [] [] = true
is_text [] (d ∷ y) = false
is_text (c ∷ x) [] = false
is_text (c ∷ x) (d ∷ y) = let rest = is_text x y in if c == d then rest else false

abbrev first_values : List ℕ → Option (List ℕ)
first_values key =
    if is_text key user_id_text
    then some (print_number 7)
    else if is_text key con_at_text
    then some host
    else if is_text key chat_text
    then some (print_number 3)
    else if is_text key name_text
    then some nick
    else none

abbrev second_values : List ℕ → Option (List ℕ)
second_values key =
    if is_text key user_id_text
    then some (print_number 9)
    else if is_text key con_to_text
    then some nick
    else none

connect_to-connect_at_example :
    (cache : List ℕ) × (take_arguments x86_64 heap first_values (some (old_line ++ (10 ∷ [])))
      ≡ some (connect (record { target = some host; cid = some 3; uid = 7; cache = some cache })))
    × (take_arguments x86_64 heap second_values (some cache)
        ≡ some (
            connect (record {
              target = some (host ++ (170 ∷ []));
              cid = some 3;
              uid = 9;
              cache = some cache;
            })))
connect_to-connect_at_example =
    connect_to-connect_at x86_64 heap first_values second_values nick host 3 7 9 (old_line ∷ [])
      (replicate 3 170) refl refl refl refl refl refl refl refl (omega arith) (omega arith)
      (me-IsEntry 3 refl) (old_line-PassesBy, tt) refl
