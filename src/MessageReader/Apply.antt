-- ===== src/MessageReader/Apply.antt =====
-- OriginalLinuxCode/MessageReader.c: `applyMessage`, and the loop over the buffers that
-- OriginalLinuxCode/QMSP_Runner.c hands to it.
pub mod Ids
pub mod Undefined
use qmsp.Base.{ℕ, ◌+◌, Option, none, some, ◌>>=◌, List, [], ◌∷◌, ◌++◌, Bool, take, drop, length}
use qmsp.Base.{ltb, ◌==◌, if◌then◌else◌}
use qmsp.Base.Memory.{Platform, Allocator, word_bytes}
use qmsp.Base.Memory.Load.{load_word}
use qmsp.Messages.{MessageStub, DataMessageHeader, ControlMessageHeader, stub_memory}
use qmsp.Frames.Extract.{Slot, Extracted, plaintext, frames}
use qmsp.ChatFiles.{Directory}
use qmsp.ChatFiles.Reader.{Outcome, answer, fault, stuck, get_perm_of_user}
use qmsp.ChatFiles.Writer.{add_new_user, add_new_post}
use qmsp.MessageReader.{Head, data_head, control_head, Message, unpack_message}

-- The block of `msghead`: the struct's members, packed.
unfoldable pub head_stub : Head → MessageStub
head_stub (data_head h) = h.stub
head_stub (control_head h) = h.stub

unfoldable pub head_members : Platform → Head → List ℕ
head_members p (data_head h) =
    word_bytes p 4 h.chat_id ++ (word_bytes p 8 h.source_id ++ word_bytes p 4 h.message_number)
head_members p (control_head h) =
    word_bytes p 4 h.version
    ++ (word_bytes p 4 h.chat_id ++ (word_bytes p 8 h.source_id ++ word_bytes p 4 h.message_number))

-- The chat's and the source's id as they are read: `*stb >> 7` is the highest bit of the struct's
-- first byte in memory, and it decides by which struct the members behind are read.
unfoldable pub head_ids : Platform → Head → ℕ × ℕ
head_ids p head =
    let members = head_members p head in
    if ltb (stub_memory p (head_stub head)) 128
    then (load_word p (take 4 members), load_word p (take 8 (drop 4 members)))
    else (load_word p (take 4 (drop 4 members)), load_word p (take 8 (drop 8 members)))

-- The text that memory holds from a place on, up to the first zero.
unfoldable pub c_text : List ℕ → Option (List ℕ)
c_text [] = none
c_text (b ∷ bytes) =
    let rest = c_text bytes in if b == 0 then some [] else rest >>= λ text. some (b ∷ text)

-- The text of the second frame. Its block ends with the frame's text: without a zero in it, the program
-- reads behind the block. Reading another frame, or none, as a plaintext frame is undefined, too.
unfoldable pub second_text : List Slot → Option (List ℕ)
second_text [] = none
second_text (s ∷ []) = none
second_text (s ∷ plaintext f ∷ ss) = c_text f.txtdta
second_text (s ∷ t ∷ ss) = none

-- The user that sent a message is added where 255 is read.
unfoldable pub ensure_user : Allocator → ℕ → Directory → ℕ → ℕ → Outcome Directory
ensure_user a fuel dir cid uid = elim (get_perm_of_user fuel dir cid uid) [
  | fault ↦ fault
  | stuck ↦ stuck
  | answer perm ↦
      if perm == 255
      then elim (add_new_user a dir cid uid 0 (b'x' ∷ [])) [
        | none ↦ fault
        | some dir' ↦ answer dir'
      ]
      else answer dir
]

unfoldable pub apply_frames : Allocator → ℕ → Directory → ℕ × ℕ → List Slot → Outcome Directory
apply_frames a fuel dir (cid, uid) ss = elim (ensure_user a fuel dir cid uid) [
  | fault ↦ fault
  | stuck ↦ stuck
  | answer dir' ↦ elim (second_text ss) [
    | none ↦ fault
    | some text ↦ add_new_post a fuel dir' cid uid 0 text
  ]
]

-- The array of frames may not have been read: then the program has failed before.
unfoldable pub apply_message : Platform → Allocator → ℕ → Directory → Message → Outcome Directory
apply_message p a fuel dir message = elim message.msgframes [
  | frames ss ↦ apply_frames a fuel dir (head_ids p message.msghead) ss
  | Extracted.fault ↦ fault
  | Extracted.stuck ↦ stuck
]

-- `QUIC_STREAM_EVENT_RECEIVE`: each of the buffers is a message.
unfoldable pub receive : Platform → Allocator → ℕ → List (List ℕ) → Directory → Outcome Directory
receive p a fuel [] dir = answer dir
receive p a fuel (bytes ∷ buffers) dir = elim (unpack_message a fuel bytes (length bytes)) [
  | none ↦ fault
  | some message ↦ elim (apply_message p a fuel dir message) [
    | fault ↦ fault
    | stuck ↦ stuck
    | answer dir' ↦ receive p a fuel buffers dir'
  ]
]
