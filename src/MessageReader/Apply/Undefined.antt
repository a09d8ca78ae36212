-- ===== src/MessageReader/Apply/Undefined.antt =====
-- OriginalLinuxCode/MessageReader.c and QMSP_Runner.c: no message that a server receives is applied.
use qmsp.Base.{◌≡◌, ℕ, sym, List, [], ◌∷◌, Option, none, some, length}
use mathlib.Core.Path.{subst}
use qmsp.Base.Memory.{Platform, Allocator}
use qmsp.Frames.Extract.{Slot, Extracted, frames}
use qmsp.MessageReader.{Head, Message, unpack_message}
use qmsp.MessageReader.Apply.{
  second_text, ensure_user, apply_frames, apply_message, receive, head_ids,
}
use qmsp.ChatFiles.{Directory}
use qmsp.ChatFiles.Reader.{Outcome, answer, fault, stuck}
use qmsp.ChatFiles.Writer.{add_new_user, add_new_post}
use qmsp.ChatFiles.Writer.Names.{adding_undefined}

-- An outcome that is no answer.
abbrev pub Fails : Outcome Directory → Type 0
Fails (answer dir) = ⊥
Fails _ = Unit

after_outcome :
    (o : Outcome Directory) (k : Directory → Outcome Directory)
    → ((dir : Directory) → Fails (k dir))
    → Fails (elim o [ fault ↦ fault | stuck ↦ stuck | answer dir ↦ k dir ])
after_outcome fault k h = tt
after_outcome stuck k h = tt
after_outcome (answer dir) k h = h dir

after_failed :
    (o : Outcome Directory) (k : Directory → Outcome Directory)
    → Fails o
    → Fails (elim o [ fault ↦ fault | stuck ↦ stuck | answer dir ↦ k dir ])
after_failed fault k h = tt
after_failed stuck k h = tt
after_failed (answer dir) k h = elim h [ ]

posting-Fails :
    (a : Allocator) (fuel : ℕ) (dir : Directory) (cid uid : ℕ) (text : Option (List ℕ))
    → Fails (elim text [ none ↦ fault | some text ↦ add_new_post a fuel dir cid uid 0 text ])
posting-Fails a fuel dir cid uid none = tt
posting-Fails a fuel dir cid uid (some text) =
    subst Fails (sym (adding_undefined a fuel dir cid uid 0 0 [] text).1) tt

apply_frames-Fails :
    (a : Allocator) (fuel : ℕ) (dir : Directory) (ids : ℕ × ℕ) (ss : List Slot)
    → Fails (apply_frames a fuel dir ids ss)
unfolding apply_frames
apply_frames-Fails a fuel dir (cid, uid) ss =
    after_outcome (ensure_user a fuel dir cid uid)
      (λ dir'. elim (second_text ss) [
        | none ↦ fault
        | some text ↦ add_new_post a fuel dir' cid uid 0 text
      ])
      (λ dir'. posting-Fails a fuel dir' cid uid (second_text ss))

by_frames-Fails :
    (p : Platform) (a : Allocator) (fuel : ℕ) (dir : Directory) (head : Head) (e : Extracted)
    → Fails (apply_message p a fuel dir (record { msghead = head; msgframes = e }))
unfolding apply_message
by_frames-Fails p a fuel dir head (frames ss) = apply_frames-Fails a fuel dir (head_ids p head) ss
by_frames-Fails p a fuel dir head Extracted.fault = tt
by_frames-Fails p a fuel dir head Extracted.stuck = tt

pub apply_message-Fails :
    (p : Platform) (a : Allocator) (fuel : ℕ) (dir : Directory) (message : Message)
    → Fails (apply_message p a fuel dir message)
apply_message-Fails p a fuel dir message =
    by_frames-Fails p a fuel dir message.msghead message.msgframes

unpacked-Fails :
    (p : Platform) (a : Allocator) (fuel : ℕ) (buffers : List (List ℕ)) (dir : Directory)
    (unpacked : Option Message)
    → Fails (elim unpacked [
      | none ↦ fault
      | some message ↦ elim (apply_message p a fuel dir message) [
        | fault ↦ fault
        | stuck ↦ stuck
        | answer dir' ↦ receive p a fuel buffers dir'
      ]
    ])
unpacked-Fails p a fuel buffers dir none = tt
unpacked-Fails p a fuel buffers dir (some message) =
    after_failed (apply_message p a fuel dir message) (receive p a fuel buffers)
      (apply_message-Fails p a fuel dir message)

receive-Fails :
    (p : Platform) (a : Allocator) (fuel : ℕ) (bytes : List ℕ) (buffers : List (List ℕ))
    (dir : Directory)
    → Fails (receive p a fuel (bytes ∷ buffers) dir)
unfolding receive
receive-Fails p a fuel bytes buffers dir =
    unpacked-Fails p a fuel buffers dir (unpack_message a fuel bytes (length bytes))

-- Whatever the directory holds and whatever `malloc` answers, adding a user and adding a post are
-- undefined, for every id of a chat: where the chat's file is found, its name is copied with its
-- terminator into a block of the name's length, and where it is not, the program reads from NULL. So a
-- server that is handed bytes in one buffer or more never comes to the end of receiving them: in
-- whatever number of rounds, the behaviour is undefined or a loop is not done.
pub receive_undefined :
    (p : Platform) (a : Allocator) (fuel : ℕ) (dir : Directory) (cid uid permissions time : ℕ)
    (nickname text bytes : List ℕ) (buffers : List (List ℕ))
    → (add_new_user a dir cid uid permissions nickname ≡ none)
      × (add_new_post a fuel dir cid uid time text ≡ fault)
      × Fails (receive p a fuel (bytes ∷ buffers) dir)
receive_undefined p a fuel dir cid uid permissions time nickname text bytes buffers =
    let (user, post) = adding_undefined a fuel dir cid uid permissions time nickname text in
    (user, post, receive-Fails p a fuel bytes buffers dir)
