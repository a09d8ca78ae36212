-- ===== src/Client.antt =====
-- OriginalLinuxCode/QMSP_Runner.c: what `RunClient` does with its arguments, and the message that it
-- makes of the text "logout". The look-up of an argument by its name (`GetValue`) is a parameter.
pub mod Cached
pub mod Send
use qmsp.Base.{ℕ, zero, suc, ◌+◌, ◌-◌, ◌*◌, ◌^◌, Option, none, some, ◌>>=◌, List, [], ◌∷◌, ◌++◌}
use qmsp.Base.{truthy, ◌>>>◌, ◌==◌, if◌then◌else◌, take, length, u32, u64}
use qmsp.Base.Memory.{Platform, Allocator}
use qmsp.Messages.{
  DataMessageHeader, get_serialized_size_of_data_message_header, serialize_data_message_header,
}
use qmsp.Frames.{TransitMetadataFrame}
use qmsp.Frames.Pack.{Frame, transit, plaintext, get_serialized_size_of_frame}
use qmsp.MessageReader.{pack_message}
use qmsp.Linux.Messages.{linux_construct_data}
use qmsp.ChatFiles.Stdio.{equal_text}
use qmsp.ChatCache.{char_word, cache_new, get_details}

-- `uid *= 10; uid += *tempy - '0'` up to the end of the text; an id of a chat is read so, too.
unfoldable pub read_number : Platform → ℕ → List ℕ → ℕ
read_number p number [] = number
read_number p number (c ∷ text) =
    read_number p (u64 (u64 (number * 10) + char_word p c + 2 ^ 64 - 48)) text

-- A negative sign is passed over.
unfoldable pub read_user_id : Platform → List ℕ → ℕ
read_user_id p [] = 0
read_user_id p (c ∷ text) = if c == 45 then read_number p 0 text else read_number p 0 (c ∷ text)

-- What the arguments say: the host's text, the chat's id if it is set, the user's id; and the file of
-- the cache afterwards.
pub record Connection : Type 0 where
  pub target : Option (List ℕ)
  pub cid : Option ℕ
  pub uid : ℕ
  pub cache : Option (List ℕ)

-- `QUIC_STATUS_INVALID_PARAMETER`, or what is connected to.
pub data Arguments : Type 0 where
  invalid : Arguments
  connect : Connection → Arguments

-- The target from the cache, by its nickname.
unfoldable pub connect_to :
    Platform → Allocator → Option (List ℕ) → ℕ → Option (List ℕ) → Option Arguments
connect_to p a cache uid none = some invalid
connect_to p a cache uid (some new_name) = get_details p a cache new_name >>= λ cached.
    some (
      connect (record { target = cached.hostloc; cid = some cached.cid; uid = uid; cache = cache }))

-- The target that is named. Without a name to cache it by, the chat's id is not set.
unfoldable pub connect_at :
    Platform → Option (List ℕ) → ℕ → List ℕ → List ℕ → Option (List ℕ) → Arguments
connect_at p cache uid target cid_hold none =
    connect (record { target = some target; cid = none; uid = uid; cache = cache })
connect_at p cache uid target cid_hold (some new_name) =
    let cid = read_number p 0 cid_hold in
    connect (record {
      target = some target;
      cid = some cid;
      uid = uid;
      cache = some (cache_new target cid new_name cache);
    })

-- "UserID", "conAt", "conTo", "chat", "name".
abbrev pub user_id_text : List ℕ
user_id_text = b'U' ∷ b's' ∷ b'e' ∷ b'r' ∷ b'I' ∷ b'D' ∷ []

abbrev pub con_at_text : List ℕ
con_at_text = b'c' ∷ b'o' ∷ b'n' ∷ b'A' ∷ b't' ∷ []

abbrev pub con_to_text : List ℕ
con_to_text = b'c' ∷ b'o' ∷ b'n' ∷ b'T' ∷ b'o' ∷ []

abbrev pub chat_text : List ℕ
chat_text = b'c' ∷ b'h' ∷ b'a' ∷ b't' ∷ []

abbrev pub name_text : List ℕ
name_text = b'n' ∷ b'a' ∷ b'm' ∷ b'e' ∷ []

unfoldable pub take_target :
    Platform → Allocator → (List ℕ → Option (List ℕ)) → Option (List ℕ) → ℕ → Option Arguments
take_target p a get_value cache uid = elim (get_value con_at_text) [
  | none ↦ connect_to p a cache uid (get_value con_to_text)
  | some target ↦ elim (get_value con_to_text) [
    | some was_both ↦ some invalid
    | none ↦ elim (get_value chat_text) [
      | none ↦ some invalid
      | some cid_hold ↦ some (connect_at p cache uid target cid_hold (get_value name_text))
    ]
  ]
]

unfoldable pub take_arguments :
    Platform → Allocator → (List ℕ → Option (List ℕ)) → Option (List ℕ) → Option Arguments
take_arguments p a get_value cache = elim (get_value user_id_text) [
  | none ↦ some invalid
  | some cid_hold ↦
      let uid = read_user_id p cid_hold in
      if truthy (uid >>> 62) then some invalid else take_target p a get_value cache uid
]

-- `snprintf(PTF->txtdta, strlen(myIn), "%s", myIn)`, which leaves out the last byte.
unfoldable pub frame_text : List ℕ → List ℕ
frame_text [] = []
frame_text (c ∷ my_in) = take (length my_in) (c ∷ my_in) ++ (0 ∷ [])

abbrev pub client_tmd : TransitMetadataFrame
client_tmd = record {
  type = 0;
  post_transit_id = 0;
  total_message_count = 1;
  specific_message_count = 1;
}

unfoldable pub client_frames : List ℕ → List Frame
client_frames my_in =
    transit client_tmd ∷ plaintext (record { type = 2; length = 0; txtdta = frame_text my_in }) ∷ []

-- The two frames' sizes.
unfoldable pub frames_size : List ℕ → Option ℕ
frames_size my_in = get_serialized_size_of_frame (transit client_tmd) 0 >>= λ tmd_size.
    get_serialized_size_of_frame
      (plaintext (record { type = 2; length = 0; txtdta = frame_text my_in })) 2
    >>= λ ptf_size. some (u64 (tmd_size + ptf_size))

-- The bytes that are made of a text that is typed, behind the loop's test, and the length that is told
-- with them. A header that is not serialized is NULL, and `realloc` of that is `malloc`. A NULL of
-- `malloc` for the text or for the array of two frames is written to.
unfoldable pub line_message :
    Platform → Allocator → DataMessageHeader → List ℕ → Option (List ℕ × ℕ)
line_message p a dmh my_in =
    let size = get_serialized_size_of_data_message_header dmh in
    a.malloc (16 + length my_in) >>= λ ptf. frames_size my_in >>= λ behind.
    a.malloc 16 >>= λ my_frames. serialize_data_message_header p a dmh >>= λ header.
    elim header [
      | none ↦ pack_message p a [] (client_frames my_in) (u32 size)
      | some my_msg ↦ pack_message p a my_msg (client_frames my_in) (u32 size)
    ]
    >>= λ my_msg. some (my_msg, u64 (size + behind))

-- "logout".
abbrev pub logout_text : List ℕ
logout_text = b'l' ∷ b'o' ∷ b'g' ∷ b'o' ∷ b'u' ∷ b't' ∷ []

-- A round of the loop, for the text that is read: `if(strcmp(myIn,"logout")) break;` leaves the loop for
-- every other text, and then there is no message. The header is made of ids that are each an
-- `unsigned long`.
unfoldable pub client_message :
    Platform → Allocator → ℕ → ℕ → ℕ → List ℕ → Option (Option (List ℕ × ℕ))
client_message p a cid uid msgnum my_in =
    if equal_text my_in logout_text
    then (line_message p a (linux_construct_data cid uid msgnum) my_in >>= λ made. some (some made))
    else some none
