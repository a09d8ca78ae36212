-- ===== src/ChatFiles/Store/Guest.antt =====
-- OriginalLinuxCode/chatWriter.c: what adding a user, behind finding its file, does to a chat, and what
-- chatReader.c reads of it then.
use qmsp.Base.{ℕ, ◌+◌, ◌^◌, ◌<◌, ◌≡◌, refl, ap, ◌∙◌, arith}
use mathlib.Core.Option.{some-injective}
use qmsp.Base.{Bool-cases, inl, inr, List, [], ◌∷◌, ◌++◌, some, true, false, All, length}
use qmsp.ChatFiles.{Entry, Directory}
use qmsp.ChatFiles.Stdio.{equal_text}
use qmsp.ChatFiles.Stdio.Laws.{All-append}
use qmsp.ChatFiles.Reader.{answer, find_chat, get_perm_of_user, get_nickname_of_user}
use qmsp.ChatFiles.Reader.Users.{get_perm_of_user-chat_tail, get_nickname_of_user-chat_tail}
use qmsp.ChatFiles.Writer.{tmp_name, opens_tmp, remove, rename_tmp, rewrite_chat, update}
use qmsp.ChatFiles.Writer.Copy.{guest, copy_lines-chat_tail, chat_id_line-short}
use qmsp.ChatFiles.Spec.{Chat, chat_tail, print_chat, IsUser, look}
use qmsp.ChatFiles.Store.{IsChat, Holds, chat_file, find_chat-Holds, update-Holds}

-- The chat with one user more.
abbrev pub with_guest : ℕ → Chat → Chat
with_guest uid c = record c { users = c.users ++ (guest uid ∷ []) }

guest-IsUser : (uid : ℕ) → 0 < uid → uid < 10 ^ 10 → IsUser (guest uid)
guest-IsUser uid positive short = record {
  uid_some = positive;
  uid_short = short;
  permissions_byte = omega arith;
  nickname_line = ground arith;
  nickname_short = omega arith;
}

with_guest-IsChat :
    (uid : ℕ) (c : Chat) → IsChat c → 0 < uid → uid < 10 ^ 10 → IsChat (with_guest uid c)
with_guest-IsChat uid c fits positive short = record {
  cid_short = fits.cid_short;
  users_fit =
      All-append IsUser c.users (guest uid ∷ []) fits.users_fit
        (guest-IsUser uid positive short, tt);
  posts_NoHeading = fits.posts_NoHeading;
}

-- What keeps the place of one file in a directory: the files of another name are removed.
All-remove :
    (P : Entry → Type 0) (name : List ℕ) (es : List Entry) → All P es → All P (remove name es)
unfolding remove
All-remove P name [] h = tt
All-remove P name (e ∷ es) (h, hs) = elim (Bool-cases (equal_text e.name name)) [
  | inl hit ↦ rw hit (All-remove P name es hs)
  | inr miss ↦ rw miss (h, All-remove P name es hs)
]

remove-past :
    (name : List ℕ) (before after : List Entry) (f : Entry)
    → equal_text f.name name ≡ false
    → remove name (before ++ (f ∷ after)) ≡ remove name before ++ (f ∷ remove name after)
unfolding remove
remove-past name [] after f apart = rw (remove, apart) refl
remove-past name (e ∷ before) after f apart = elim (Bool-cases (equal_text e.name name)) [
  | inl hit ↦ rw (hit, remove-past name before after f apart) refl
  | inr miss ↦ rw (miss, remove-past name before after f apart) refl
]

pub remove-Holds :
    (entries : List Entry) (name other : List ℕ) (c : Chat)
    → Holds (some entries) name c
    → equal_text name other ≡ false
    → Holds (some (remove other entries)) name c
remove-Holds entries name other c h apart = record {
  before = remove other h.before;
  after = remove other h.after;
  is_there = ap some (
      ap (remove other) (some-injective _ _ h.is_there)
      ∙ remove-past other h.before h.after (chat_file name c) apart);
  no_earlier = All-remove _ other h.before h.no_earlier;
  other_names = All-remove _ other h.before h.other_names;
}

pub rewrite_chat-update :
    (entries : List Entry) (name : List ℕ) (c : Chat) (uid : ℕ)
    → IsChat c
    → equal_text name tmp_name ≡ false
    → opens_tmp entries ≡ true
    → uid < 10 ^ 10
    → rewrite_chat (some entries) (chat_file name c) (chat_tail c.users c.posts) c.cid uid
      ≡ some (update name (print_chat (with_guest uid c)) (some (remove tmp_name entries)))
unfolding rewrite_chat rename_tmp print_chat
rewrite_chat-update entries name c uid fits apart opens short =
    rw
      (
        chat_id_line-short c.cid fits.cid_short,
        copy_lines-chat_tail uid c.users c.posts fits.users_fit fits.posts_NoHeading short,
        opens,
        apart,
      )
      refl

-- Where a file holds a chat that fits (IsChat), `findChat_storeName` finds that file and leaves it open
-- behind its first line. What `addNewUser` does from there on, if it gets there, for a user of an id
-- from 1 to below 10^10, ends with a directory in which that file holds the chat with one user more at
-- the end, a guest with the permissions 11100111. The chat fits again. This holds for a file that is
-- not itself called copyChat.tmp, and where a file of that name, if there is one, can be opened.
pub rewrite_chat-Holds :
    (entries : List Entry) (name : List ℕ) (c : Chat) (uid : ℕ)
    → Holds (some entries) name c
    → IsChat c
    → equal_text name tmp_name ≡ false
    → opens_tmp entries ≡ true
    → 0 < uid
    → uid < 10 ^ 10
    → (entry : Entry) × (file : List ℕ) × (dir' : Directory) × (find_chat (some entries) c.cid
        ≡ some (some (entry, file)))
      × (rewrite_chat (some entries) entry file c.cid uid ≡ some dir')
      × Holds dir' name (with_guest uid c)
      × IsChat (with_guest uid c)
rewrite_chat-Holds entries name c uid held fits apart opens positive short = (
  chat_file name c,
  chat_tail c.users c.posts,
  update name (print_chat (with_guest uid c)) (some (remove tmp_name entries)),
  find_chat-Holds (some entries) name c held fits.cid_short,
  rewrite_chat-update entries name c uid fits apart opens short,
  update-Holds (some (remove tmp_name entries)) name c (with_guest uid c)
      (remove-Holds entries name tmp_name c held apart) refl,
  with_guest-IsChat uid c fits positive short,
)

-- Where a file holds a chat that fits (IsChat), both questions about a user of an id other than 0 are
-- answered from the chat's users within two rounds more than there are users: with the permissions and
-- the nickname of the first user with the id, and with 255 and the empty text if there is none.
pub get_user-Holds :
    (fuel : ℕ) (dir : Directory) (name : List ℕ) (c : Chat) (uid : ℕ)
    → Holds dir name c
    → IsChat c
    → 0 < uid
    → length c.users + 1 < fuel
    → (get_perm_of_user fuel dir c.cid uid ≡ answer (look (λ u. u.permissions) 255 c.users uid))
      × (get_nickname_of_user fuel dir c.cid uid ≡ answer (look (λ u. u.nickname) [] c.users uid))
get_user-Holds fuel dir name c uid held fits positive enough =
    let found = find_chat-Holds dir name c held fits.cid_short in
    (
      get_perm_of_user-chat_tail fuel dir c.cid uid c.users c.posts (chat_file name c) found
          fits.users_fit positive enough,
      get_nickname_of_user-chat_tail fuel dir c.cid uid c.users c.posts (chat_file name c) found
          fits.users_fit positive enough,
    )
