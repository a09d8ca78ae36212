-- ===== src/ChatFiles/Store.antt =====
-- What the directory of OriginalLinuxCode/chatReader.c and chatWriter.c stands for: a file with a
-- name holds a chat. What is written behind finding a chat's file keeps that, and changes the chat.
pub mod Guest
pub mod Post
pub mod Elsewhere
use qmsp.Base.{ℕ, zero, suc, ◌+◌, ◌-◌, ◌^◌, ◌≤◌, ◌<◌, ◌≡◌, refl, sym, ap, ◌∙◌, arith}
use qmsp.Base.{
  List, [], ◌∷◌, ◌++◌, append_assoc, some, none, true, false, All, length, length-append, leb, ◌==◌,
  if◌then◌else◌,
}
use qmsp.ChatFiles.{Entry, Directory}
use qmsp.ChatFiles.Stdio.{fgets, begins_with, equal_text, print_number}
use qmsp.ChatFiles.Stdio.Laws.{
  InLine, All-append, All-imp, fgets_line, begins_with-append, equal_text_self,
  print_number-IsDigit, length-print_number,
}
use qmsp.ChatFiles.Reader.{chat_id_text, messages_text, find_line, opens_with, search, find_chat}
use qmsp.ChatFiles.Writer.{replace, update}
use qmsp.ChatFiles.Writer.Copy.{NoHeading}
use qmsp.ChatFiles.Spec.{User, Chat, chat_tail, print_chat, IsUser}

-- A chat that fits: its id is below 10^8, its users' lines are short, and no "Messages:" stands in
-- its posts.
pub record IsChat (c : Chat) : Type 0 where
  pub cid_short : c.cid < 10 ^ 8
  pub users_fit : All IsUser c.users
  pub posts_NoHeading : NoHeading c.posts

abbrev pub id_text : ℕ → List ℕ
id_text cid = chat_id_text ++ print_number cid

abbrev pub chat_file : List ℕ → Chat → Entry
chat_file name c = record { name = name; regular = true; contents = some (print_chat c) }

-- The first file of that name, with no file in front of it that begins as the chat's does.
pub record Holds (dir : Directory) (name : List ℕ) (c : Chat) : Type 0 where
  pub before : List Entry
  pub after : List Entry
  pub is_there : dir ≡ some (before ++ (chat_file name c ∷ after))
  pub no_earlier : All (λ e. opens_with (id_text c.cid) e ≡ none) before
  pub other_names : All (λ e. equal_text e.name name ≡ false) before

find_line-id_text : (cid : ℕ) → cid < 10 ^ 8 → find_line cid ≡ some (id_text cid)
unfolding find_line
find_line-id_text cid h = ground (arith, length-print_number 8 cid h (omega arith))

print_number-InLine : (cid : ℕ) → All InLine (id_text cid)
print_number-InLine cid = All-append InLine chat_id_text (print_number cid) (ground arith) (
    All-imp (print_number cid) (λ c h. (omega arith, λ e. absurd (omega arith)))
      (print_number-IsDigit cid))

pub opens_chat_file :
    (text name : List ℕ) (c : Chat)
    → c.cid < 10 ^ 8
    → opens_with text (chat_file name c) ≡ (
        if begins_with (id_text c.cid ++ (10 ∷ [])) text
        then some (chat_tail c.users c.posts)
        else none)
unfolding opens_with print_chat
opens_chat_file text name c h =
    let line = id_text c.cid in
    let rest = chat_tail c.users c.posts in
    let whole : (chat_id_text ++ (print_number c.cid ++ (10 ∷ []))) ++ rest ≡ line ++ (10 ∷ rest) =
      ap (λ l. l ++ rest) (sym (append_assoc chat_id_text (print_number c.cid) (10 ∷ [])))
      ∙ append_assoc line (10 ∷ []) rest in
    let read : fgets 19 (line ++ (10 ∷ rest)) ≡ some (line ++ (10 ∷ []), rest) =
      fgets_line 19 line rest (print_number-InLine c.cid)
        (omega (arith, length-print_number 8 c.cid h (omega arith))) in
    rw (whole, read) refl

opens_with-chat_file :
    (name : List ℕ) (c : Chat)
    → c.cid < 10 ^ 8
    → opens_with (id_text c.cid) (chat_file name c) ≡ some (chat_tail c.users c.posts)
opens_with-chat_file name c h =
    opens_chat_file (id_text c.cid) name c h
    ∙ rw (begins_with-append (id_text c.cid) (10 ∷ [])) refl

search-past :
    (text file : List ℕ) (before after : List Entry) (e : Entry)
    → All (λ e. opens_with text e ≡ none) before
    → opens_with text e ≡ some file
    → search text (before ++ (e ∷ after)) ≡ some (e, file)
unfolding search
search-past text file [] after e h found = rw (search, found) refl
search-past text file (d ∷ before) after e (h, hs) found =
    rw (search, h) (search-past text file before after e hs found)

-- The file that holds a chat is found, from its second line on.
pub find_chat-Holds :
    (dir : Directory) (name : List ℕ) (c : Chat)
    → Holds dir name c
    → c.cid < 10 ^ 8
    → find_chat dir c.cid ≡ some (some (chat_file name c, chat_tail c.users c.posts))
unfolding find_chat
find_chat-Holds dir name c h short =
    rw
      (
        h.is_there,
        find_line-id_text c.cid short,
        search-past (id_text c.cid) (chat_tail c.users c.posts) h.before h.after (chat_file name c)
            h.no_earlier (opens_with-chat_file name c short),
      )
      refl

replace-past :
    (name bytes : List ℕ) (before after : List Entry) (c : Chat)
    → All (λ e. equal_text e.name name ≡ false) before
    → replace name bytes (before ++ (chat_file name c ∷ after))
      ≡ before ++ (record { name = name; regular = true; contents = some bytes } ∷ after)
unfolding replace
replace-past name bytes [] after c h = rw (replace, equal_text_self name) refl
replace-past name bytes (e ∷ before) after c (h, hs) =
    rw (replace, h, replace-past name bytes before after c hs) refl

-- A file that holds a chat, given the bytes of another with the same id, holds that one.
pub update-Holds :
    (dir : Directory) (name : List ℕ) (c d : Chat)
    → Holds dir name c
    → d.cid ≡ c.cid
    → Holds (update name (print_chat d) dir) name d
update-Holds dir name c d h same = record {
  before = h.before;
  after = h.after;
  is_there =
      ap (update name (print_chat d)) h.is_there
      ∙ ap some (replace-past name (print_chat d) h.before h.after c h.other_names);
  no_earlier = rw same h.no_earlier;
  other_names = h.other_names;
}
