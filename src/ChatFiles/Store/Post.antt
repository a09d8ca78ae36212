-- ===== src/ChatFiles/Store/Post.antt =====
-- OriginalLinuxCode/chatWriter.c: what counting posts, and adding one behind finding the file, does to a chat.
use qmsp.Base.{ℕ, ◌+◌, ◌<◌, ◌≡◌, refl, sym, ap, ◌∙◌, arith}
use qmsp.Base.{List, [], ◌∷◌, ◌++◌, append_assoc, some, length, take}
use qmsp.ChatFiles.{Entry, Directory}
use qmsp.ChatFiles.Stdio.{print_number}
use qmsp.ChatFiles.Reader.{chat_id_text, messages_text, answer, find_chat}
use qmsp.ChatFiles.Writer.{
  comma_text, no_links_text, get_number_of_messages, post_line, append_post, update,
}
use qmsp.ChatFiles.Writer.Posts.{kept, write_text-kept, count_messages-chat_tail}
use qmsp.ChatFiles.Spec.{Chat, users_text, print_users, chat_tail, print_chat, HasLines, line_count}
use qmsp.ChatFiles.Store.{IsChat, Holds, chat_file, find_chat-Holds, update-Holds}

-- Where a file holds a chat whose posts are lines of less than 1022 bytes and an open line behind
-- them, as many messages are counted as there are lines, the open line in pieces of 1023 bytes;
-- with more rounds than there are lines and pieces, and than there are users and one.
pub get_number_of_messages-Holds :
    (fuel : ℕ) (dir : Directory) (name : List ℕ) (c : Chat)
    → Holds dir name c
    → IsChat c
    → (lines : HasLines c.posts) → length c.users + 1 < fuel
    → line_count lines < fuel
    → get_number_of_messages fuel dir c.cid ≡ answer (line_count lines)
unfolding get_number_of_messages
get_number_of_messages-Holds fuel dir name c held fits lines enough rounds =
    rw (get_number_of_messages, find_chat-Holds dir name c held fits.cid_short)
      (count_messages-chat_tail fuel c.users c.posts fits.users_fit lines enough rounds)

-- The bytes of a post: the line's start in at most 1023 bytes, the text, and the byte 3.
abbrev pub post_bytes : ℕ → ℕ → ℕ → List ℕ → List ℕ
post_bytes mid uid time text =
    take 1023 (
      b'\t'
      ∷ (print_number mid
          ++ (comma_text
              ++ (print_number uid ++ (comma_text ++ (print_number time ++ no_links_text))))))
    ++ (kept 0 text ++ (3 ∷ []))

abbrev pub with_post : List ℕ → Chat → Chat
with_post post c = record c { posts = c.posts ++ post }

print_chat-with_post :
    (post : List ℕ) (c : Chat) → print_chat (with_post post c) ≡ print_chat c ++ post
unfolding print_chat chat_tail
print_chat-with_post post c =
    let first = chat_id_text ++ (print_number c.cid ++ (10 ∷ [])) in
    sym (
      append_assoc first (users_text ++ (print_users c.users ++ (messages_text ++ c.posts))) post
      ∙ ap (λ l. first ++ (users_text ++ l))
          (append_assoc (print_users c.users) (messages_text ++ c.posts) post))

module _ (fuel : ℕ) (dir : Directory) (name : List ℕ) (c : Chat) (uid time : ℕ) (text : List ℕ)
    (held : Holds dir name c) (fits : IsChat c) (lines : HasLines c.posts)
    (enough : length c.users + 1 < fuel) (rounds : line_count lines < fuel) where
  pub append_post-update :
      append_post fuel dir (chat_file name c) c.cid uid time text
      ≡ answer
          (update name (print_chat (with_post (post_bytes (line_count lines) uid time text) c)) dir)
  unfolding append_post post_line
  append_post-update =
      rw
        (
          append_post,
          get_number_of_messages-Holds fuel dir name c held fits lines enough rounds,
          write_text-kept (length text) 0 text (omega arith) (omega arith),
          print_chat-with_post (post_bytes (line_count lines) uid time text) c,
        )
        refl

-- Where a file holds a chat that fits (IsChat) and whose posts are lines of less than 1022 bytes and an
-- open line behind them, that file is found by the chat's id. What `addNewPost` does with its name, if
-- it gets behind `findChatName`, ends with a directory in which that file holds the chat with the
-- post's bytes behind the others. The post's number is that of the lines, the open line in pieces of
-- 1023 bytes, and its text lacks each 1024th byte. More rounds than there are users and one, and than
-- there are lines, are enough.
pub append_post-Holds :
    (fuel : ℕ) (dir : Directory) (name : List ℕ) (c : Chat) (uid time : ℕ) (text : List ℕ)
    → Holds dir name c
    → IsChat c
    → (lines : HasLines c.posts) → length c.users + 1 < fuel
    → line_count lines < fuel
    → (entry : Entry) × (file : List ℕ) × (dir' : Directory) × (find_chat dir c.cid
        ≡ some (some (entry, file)))
      × (append_post fuel dir entry c.cid uid time text ≡ answer dir')
      × Holds dir' name (with_post (post_bytes (line_count lines) uid time text) c)
append_post-Holds fuel dir name c uid time text held fits lines enough rounds =
    let post = post_bytes (line_count lines) uid time text in
    (
      chat_file name c,
      chat_tail c.users c.posts,
      update name (print_chat (with_post post c)) dir,
      find_chat-Holds dir name c held fits.cid_short,
      append_post-update fuel dir name c uid time text held fits lines enough rounds,
      update-Holds dir name c (with_post post c) held refl,
    )
