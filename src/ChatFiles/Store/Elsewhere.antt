-- ===== src/ChatFiles/Store/Elsewhere.antt =====
-- OriginalLinuxCode/chatWriter.c: the chats in other files, when a user or a post is added to one.
use mathlib.Core.Path.{subst}
use mathlib.Core.Option.{some-injective}
use qmsp.Base.{
  ℕ, ◌+◌, ◌^◌, ◌<◌, ◌≡◌, refl, sym, ap, ◌∙◌, arith, List, [], ◌∷◌, ◌++◌, Option, some, none, Bool,
  true, false, Bool-cases, inl, inr, All, length, if◌then◌else◌,
}
use qmsp.ChatFiles.{Entry, Directory}
use qmsp.ChatFiles.Stdio.{equal_text, begins_with}
use qmsp.ChatFiles.Stdio.Laws.{equal_text_self}
use qmsp.ChatFiles.Reader.{answer, opens_with}
use qmsp.ChatFiles.Writer.{replace, update, tmp_name, opens_tmp, remove, rewrite_chat, append_post}
use qmsp.ChatFiles.Spec.{Chat, chat_tail, print_chat, HasLines, line_count}
use qmsp.ChatFiles.Store.{IsChat, Holds, chat_file, id_text, opens_chat_file}
use qmsp.ChatFiles.Store.Guest.{with_guest, remove-Holds, rewrite_chat-update}
use qmsp.ChatFiles.Store.Post.{post_bytes, with_post, append_post-update}

-- The first entry of a name.
unfoldable first_named : List ℕ → List Entry → Option Entry
first_named name [] = none
first_named name (e ∷ entries) =
    let rest = first_named name entries in if equal_text e.name name then some e else rest

first_named-Holds :
    (name : List ℕ) (before after : List Entry) (c : Chat)
    → All (λ e. equal_text e.name name ≡ false) before
    → first_named name (before ++ (chat_file name c ∷ after)) ≡ some (chat_file name c)
unfolding first_named
first_named-Holds name [] after c h = rw (equal_text_self name) refl
first_named-Holds name (e ∷ before) after c (h, hs) =
    rw h (first_named-Holds name before after c hs)

first_hit :
    (name : List ℕ) (e x : Entry) (entries : List Entry)
    → equal_text e.name name ≡ true
    → first_named name (e ∷ entries) ≡ some x
    → e ≡ x
unfolding first_named
first_hit name e x entries hit found =
    let first : first_named name (e ∷ entries) ≡ some e = rw hit refl in
    some-injective e x (sym first ∙ found)

first_miss :
    (name : List ℕ) (e : Entry) (entries : List Entry)
    → equal_text e.name name ≡ false
    → first_named name (e ∷ entries) ≡ first_named name entries
unfolding first_named
first_miss name e entries miss = rw miss refl

test_fails : {A : Type 0} (b : Bool) (x : A) → (if b then some x else none) ≡ none → b ≡ false
test_fails true x h = ground arith
test_fails false x h = refl

-- What another chat's line does not open, it does not open when the chat has changed.
still_closed :
    (text name : List ℕ) (c d : Chat)
    → c.cid < 10 ^ 8
    → d.cid ≡ c.cid
    → opens_with text (chat_file name c) ≡ none
    → opens_with text (chat_file name d) ≡ none
still_closed text name c d short same closed =
    let low =
      test_fails (begins_with (id_text c.cid ++ (10 ∷ [])) text) (chat_tail c.users c.posts)
        (sym (opens_chat_file text name c short) ∙ closed) in
    opens_chat_file text name d (omega arith) ∙ rw (same, low) refl

-- The entries in front of another chat's file, once a file that is found by its name is replaced.
record Kept (text other name bytes : List ℕ) (entries rest : List Entry) (f : Entry) : Type 0 where
  front : List Entry
  behind : List Entry
  replaced : replace name bytes (entries ++ (f ∷ rest)) ≡ front ++ (f ∷ behind)
  closed : All (λ e. opens_with text e ≡ none) front
  names : All (λ e. equal_text e.name other ≡ false) front

replace-keeps :
    (text other name : List ℕ) (c d : Chat) (entries rest : List Entry) (f : Entry)
    → c.cid < 10 ^ 8
    → d.cid ≡ c.cid
    → equal_text f.name name ≡ false
    → first_named name (entries ++ (f ∷ rest)) ≡ some (chat_file name c)
    → All (λ e. opens_with text e ≡ none) entries
    → All (λ e. equal_text e.name other ≡ false) entries
    → Kept text other name (print_chat d) entries rest f
unfolding replace first_named
replace-keeps text other name c d [] rest f short same apart found closed names = record {
  front = [];
  behind = replace name (print_chat d) rest;
  replaced = rw apart refl;
  closed = tt;
  names = tt;
}
replace-keeps text other name c d (e ∷ entries) rest f short same apart found (closed, all_closed)
      (named, all_named) =
    elim (Bool-cases (equal_text e.name name)) [
      | inl hit ↦
          let is_c = first_hit name e (chat_file name c) (entries ++ (f ∷ rest)) hit found in
          record {
            front = record e { contents = some (print_chat d) } ∷ entries;
            behind = rest;
            replaced = rw hit refl;
            closed = (
              subst (λ x. opens_with text (record x { contents = some (print_chat d) }) ≡ none)
                  (sym is_c)
                  (still_closed text name c d short same
                    (subst (λ x. opens_with text x ≡ none) is_c closed)),
              all_closed,
            );
            names = (named, all_named);
          }
      | inr miss ↦
          let k =
            replace-keeps text other name c d entries rest f short same apart
              (sym (first_miss name e (entries ++ (f ∷ rest)) miss) ∙ found) all_closed all_named in
          record {
            front = e ∷ k.front;
            behind = k.behind;
            replaced = rw (miss, k.replaced) refl;
            closed = (closed, k.closed);
            names = (named, k.names);
          }
    ]

-- A chat that one file holds is still held when another file, which holds a chat, is given the bytes
-- of a chat of the same id.
update-Holds_elsewhere :
    (dir : Directory) (name other : List ℕ) (c d o : Chat)
    → Holds dir name c
    → Holds dir other o
    → equal_text other name ≡ false
    → c.cid < 10 ^ 8
    → d.cid ≡ c.cid
    → Holds (update name (print_chat d) dir) other o
update-Holds_elsewhere dir name other c d o h k apart short same =
    let one : h.before ++ (chat_file name c ∷ h.after) ≡ k.before ++ (chat_file other o ∷ k.after) =
      some-injective _ _ (sym h.is_there ∙ k.is_there) in
    let found =
      ap (first_named name) (sym one) ∙ first_named-Holds name h.before h.after c h.other_names in
    let kept =
      replace-keeps (id_text o.cid) other name c d k.before k.after (chat_file other o) short same
        apart found k.no_earlier k.other_names in
    record {
      before = kept.front;
      after = kept.behind;
      is_there = ap (update name (print_chat d)) k.is_there ∙ ap some kept.replaced;
      no_earlier = kept.closed;
      other_names = kept.names;
    }

-- Where one file holds a chat that fits (IsChat) and whose posts are lines that fit, and another file,
-- of another name, holds another chat, what `addNewUser` does to the first behind `findChat_storeName`,
-- for a user of an id below 10^10, and what `addNewPost` does to it behind `findChatName`, both end with
-- a directory in which the other file holds its chat as before. This holds where neither file is called
-- copyChat.tmp and a file of that name, if there is one, can be opened, and with more rounds than
-- counting the posts takes.
pub written-Holds_elsewhere :
    (fuel : ℕ) (entries : List Entry) (name other : List ℕ) (c o : Chat) (uid time : ℕ)
    (text : List ℕ)
    → Holds (some entries) name c
    → Holds (some entries) other o
    → equal_text other name ≡ false
    → equal_text name tmp_name ≡ false
    → equal_text other tmp_name ≡ false
    → opens_tmp entries ≡ true
    → IsChat c
    → (lines : HasLines c.posts) → uid < 10 ^ 10
    → length c.users + 1 < fuel
    → line_count lines < fuel
    → ((dir' : Directory) × (rewrite_chat
            (some entries)
            (chat_file name c)
            (chat_tail c.users c.posts)
            c.cid
            uid
          ≡ some dir')
        × Holds dir' other o)
      × ((dir' : Directory) × (append_post fuel
              (some entries)
              (chat_file name c)
              c.cid
              uid
              time
              text
            ≡ answer dir')
          × Holds dir' other o)
written-Holds_elsewhere fuel entries name other c o uid time text h k apart apart_tmp other_tmp
      opens fits lines short enough rounds =
    let post = post_bytes (line_count lines) uid time text in
    let others = some (remove tmp_name entries) in
    (
      (
        update name (print_chat (with_guest uid c)) others,
        rewrite_chat-update entries name c uid fits apart_tmp opens short,
        update-Holds_elsewhere others name other c (with_guest uid c) o
            (remove-Holds entries name tmp_name c h apart_tmp)
            (remove-Holds entries other tmp_name o k other_tmp) apart fits.cid_short refl,
      ),
      (
        update name (print_chat (with_post post c)) (some entries),
        append_post-update fuel (some entries) name c uid time text h fits lines enough rounds,
        update-Holds_elsewhere (some entries) name other c (with_post post c) o h k apart
            fits.cid_short refl,
      ),
    )
