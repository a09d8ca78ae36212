-- ===== src/Examples/Chats.antt =====
-- The chat files and the cache on concrete texts.
use qmsp.Base.{
  ℕ, ◌<◌, ◌≡◌, refl, arith, List, [], ◌∷◌, ◌++◌, none, some, true, false, replicate, length, All,
}
use qmsp.ChatFiles.{Entry, Directory}
use qmsp.ChatFiles.Stdio.{
  begins_with, equal_text, print_number, print_digits, fgets, take_line, text_of, put_text,
  is_digit,
}
use qmsp.ChatFiles.Stdio.Laws.{InLine}
use qmsp.ChatFiles.Reader.{
  find_chat, find_line, search, read_user, user_loop, user_line, scan_uid, read_perm, take_perm,
  opens_with, answer, get_perm_of_user, get_nickname_of_user,
}
use qmsp.ChatFiles.Writer.{
  tmp_name, opens_tmp, rewrite_chat, append_post, get_number_of_messages, count_messages, skip_loop,
  count_loop,
}
use qmsp.ChatFiles.Writer.Copy.{no_m-NoHeading}
use qmsp.ChatFiles.Spec.{
  User, Chat, IsUser, HasLines, line_count, look, print_chat, print_bits, user_body, chat_tail,
}
use qmsp.ChatFiles.Store.{IsChat, Holds, chat_file}
use qmsp.ChatFiles.Store.Guest.{with_guest, rewrite_chat-Holds, get_user-Holds}
use qmsp.ChatFiles.Store.Post.{post_bytes, with_post, append_post-Holds}
use qmsp.ChatFiles.Store.Elsewhere.{written-Holds_elsewhere}
use qmsp.ChatCache.{cache_new, get_details, equal_upto, strcspn}
use qmsp.ChatCache.Laws.{IsEntry, PassesBy, get_details-cache_new, get_details-second}
use qmsp.Examples.{x86_64, heap}

abbrev pub billy : User
billy = record { uid = 152; permissions = 231; nickname = b'B' ∷ b'i' ∷ b'l' ∷ b'l' ∷ b'y' ∷ [] }

-- A post on a line, and the start of one without a newline.
abbrev pub first_line : List ℕ
first_line = b'\t' ∷ b'0' ∷ b',' ∷ b' ' ∷ b'H' ∷ b'i' ∷ 3 ∷ []

abbrev pub test_chat : Chat
test_chat = record { cid = 2; users = billy ∷ []; posts = first_line ++ (10 ∷ b'\t' ∷ b'1' ∷ []) }

abbrev pub file_name : List ℕ
file_name = b't' ∷ b'.' ∷ b'c' ∷ []

-- Another file stands in front, which cannot be opened.
abbrev pub locked : Entry
locked = record { name = b'x' ∷ []; regular = true; contents = none }

abbrev pub chats : Directory
chats = some (locked ∷ chat_file file_name test_chat ∷ [])

pub chats-Holds : Holds chats file_name test_chat
unfolding opens_with equal_text
chats-Holds = record {
  before = locked ∷ [];
  after = [];
  is_there = refl;
  no_earlier = (refl, tt);
  other_names = (refl, tt);
}

billy-IsUser : IsUser billy
billy-IsUser = record {
  uid_some = omega arith;
  uid_short = omega arith;
  permissions_byte = omega arith;
  nickname_line = ground arith;
  nickname_short = omega arith;
}

pub test_chat-IsChat : IsChat test_chat
test_chat-IsChat = record {
  cid_short = omega arith;
  users_fit = (billy-IsUser, tt);
  posts_NoHeading = no_m-NoHeading test_chat.posts (ground arith);
}

pub first_line-fits : All InLine first_line × (length first_line < 1022)
first_line-fits = (ground arith, omega arith)

pub open_line-fits : All InLine (b'\t' ∷ b'1' ∷ [])
open_line-fits = ground arith

abbrev pub test_chat-HasLines : HasLines test_chat.posts
test_chat-HasLines = record {
  whole_lines = first_line ∷ [];
  open_line = b'\t' ∷ b'1' ∷ [];
  text_shape = refl;
  lines_fit = (first_line-fits, tt);
  open_fits = open_line-fits;
}

-- Tests.
perm_of_billy : get_perm_of_user 5 chats 2 152 ≡ answer 231
unfolding get_perm_of_user read_user user_loop user_line scan_uid read_perm take_perm is_digit
    find_chat find_line print_number print_digits search opens_with fgets print_chat begins_with
    take_line chat_tail text_of put_text user_body print_bits
perm_of_billy = refl

-- A chat whose id begins with the same digits is taken for chat 2.
found_by_prefix :
    get_perm_of_user 5 (some (chat_file file_name (record test_chat { cid = 25 }) ∷ [])) 2 152
    ≡ answer 231
unfolding get_perm_of_user read_user user_loop user_line scan_uid read_perm take_perm is_digit
    find_chat find_line print_number print_digits search opens_with fgets print_chat begins_with
    take_line chat_tail text_of put_text user_body print_bits
found_by_prefix = refl

number_of_lines : get_number_of_messages 5 chats 2 ≡ answer 2
unfolding get_number_of_messages count_messages skip_loop count_loop find_chat find_line
    print_number print_digits search opens_with fgets print_chat begins_with take_line chat_tail
    text_of put_text user_body print_bits
number_of_lines = refl

-- Witnesses.
not_tmp : equal_text file_name tmp_name ≡ false
unfolding equal_text
not_tmp = refl

tmp_opens : opens_tmp (locked ∷ chat_file file_name test_chat ∷ []) ≡ true
unfolding opens_tmp equal_text
tmp_opens = refl

rewrite_chat-Holds_example :
    (entry : Entry) × (file : List ℕ) × (dir' : Directory) × (find_chat chats 2
      ≡ some (some (entry, file)))
    × (rewrite_chat chats entry file 2 7 ≡ some dir')
    × Holds dir' file_name (with_guest 7 test_chat)
    × IsChat (with_guest 7 test_chat)
rewrite_chat-Holds_example =
    rewrite_chat-Holds (locked ∷ chat_file file_name test_chat ∷ []) file_name test_chat 7
      chats-Holds test_chat-IsChat not_tmp tmp_opens (omega arith) (omega arith)

get_user-Holds_example :
    (get_perm_of_user 5 chats 2 152 ≡ answer (look (λ u. u.permissions) 255 test_chat.users 152))
    × (get_nickname_of_user 5 chats 2 152 ≡ answer (look (λ u. u.nickname) [] test_chat.users 152))
get_user-Holds_example =
    get_user-Holds 5 chats file_name test_chat 152 chats-Holds test_chat-IsChat (omega arith)
      (omega arith)

append_post-Holds_example :
    (entry : Entry) × (file : List ℕ) × (dir' : Directory) × (find_chat chats 2
      ≡ some (some (entry, file)))
    × (append_post 5 chats entry 2 152 9 (b'Y' ∷ b'o' ∷ []) ≡ answer dir')
    × Holds dir' file_name
        (with_post (post_bytes (line_count test_chat-HasLines) 152 9 (b'Y' ∷ b'o' ∷ [])) test_chat)
append_post-Holds_example =
    append_post-Holds 5 chats file_name test_chat 152 9 (b'Y' ∷ b'o' ∷ []) chats-Holds
      test_chat-IsChat test_chat-HasLines (omega arith) (omega arith)

abbrev pub nick : List ℕ
nick = b'm' ∷ b'e' ∷ []

abbrev pub host : List ℕ
host = b'h' ∷ b'o' ∷ []

abbrev pub old_line : List ℕ
old_line = b't' ∷ b':' ∷ b' ' ∷ b'l' ∷ b',' ∷ b' ' ∷ b'2' ∷ []

pub me-IsEntry : (n : ℕ) → n ≡ 3 → IsEntry nick host n
me-IsEntry n e = record {
  nickname_line = ground arith;
  nickname_no_colon = ground arith;
  nickname_no_comma = ground arith;
  host_line = ground arith;
  host_no_comma = ground arith;
  cid_short = omega arith;
  both_short = omega arith;
}

pub old_line-PassesBy : PassesBy nick old_line
unfolding equal_upto strcspn
old_line-PassesBy = (ground arith, omega arith, refl)

get_details-cache_new_example :
    get_details x86_64 heap (some (cache_new host 3 nick (some (old_line ++ (10 ∷ []))))) nick
    ≡ some (record { hostloc = some (host ++ (170 ∷ [])); cid = 3 })
get_details-cache_new_example =
    get_details-cache_new x86_64 heap nick host 3 (old_line ∷ []) (replicate 3 170)
      (me-IsEntry 3 refl) (old_line-PassesBy, tt) refl

other-IsEntry : IsEntry (b'a' ∷ []) host 4
other-IsEntry = record {
  nickname_line = ground arith;
  nickname_no_colon = ground arith;
  nickname_no_comma = ground arith;
  host_line = ground arith;
  host_no_comma = ground arith;
  cid_short = omega arith;
  both_short = omega arith;
}

other_differs : equal_upto 2 (b'a' ∷ []) nick ≡ false
unfolding equal_upto
other_differs = refl

get_details-second_example :
    get_details x86_64 heap
      (some (cache_new host 4 (b'a' ∷ []) (some (cache_new host 3 nick none))))
      (b'a' ∷ [])
    ≡ some (record { hostloc = none; cid = 0 })
get_details-second_example =
    get_details-second x86_64 heap nick host 3 (b'a' ∷ []) host 4 (me-IsEntry 3 refl) other-IsEntry
      (omega arith) other_differs

-- Two files, each with a chat.
abbrev other_chat : Chat
other_chat = record { cid = 3; users = []; posts = [] }

abbrev two_files : List Entry
two_files = chat_file file_name test_chat ∷ chat_file (b'u' ∷ []) other_chat ∷ []

abbrev two_chats : Directory
two_chats = some two_files

two_chats-Holds : Holds two_chats file_name test_chat
two_chats-Holds = record {
  before = [];
  after = chat_file (b'u' ∷ []) other_chat ∷ [];
  is_there = refl;
  no_earlier = tt;
  other_names = tt;
}

other_chat-Holds : Holds two_chats (b'u' ∷ []) other_chat
unfolding opens_with equal_text fgets take_line print_chat begins_with print_number print_digits
other_chat-Holds = record {
  before = chat_file file_name test_chat ∷ [];
  after = [];
  is_there = refl;
  no_earlier = (refl, tt);
  other_names = (refl, tt);
}

other_apart : equal_text (b'u' ∷ []) file_name ≡ false
unfolding equal_text
other_apart = refl

other_not_tmp : equal_text (b'u' ∷ []) tmp_name ≡ false
unfolding equal_text
other_not_tmp = refl

tmp_opens_beside : opens_tmp two_files ≡ true
unfolding opens_tmp equal_text
tmp_opens_beside = refl

written-Holds_elsewhere_example :
    ((dir' : Directory) × (rewrite_chat two_chats
          (chat_file file_name test_chat)
          (chat_tail test_chat.users test_chat.posts)
          2
          7
        ≡ some dir')
      × Holds dir' (b'u' ∷ []) other_chat)
    × ((dir' : Directory) × (append_post 5 two_chats
            (chat_file file_name test_chat)
            2
            7
            9
            (b'Y' ∷ [])
          ≡ answer dir')
        × Holds dir' (b'u' ∷ []) other_chat)
written-Holds_elsewhere_example =
    written-Holds_elsewhere 5 two_files file_name (b'u' ∷ []) test_chat other_chat 7 9 (b'Y' ∷ [])
      two_chats-Holds other_chat-Holds other_apart not_tmp other_not_tmp tmp_opens_beside
      test_chat-IsChat test_chat-HasLines (omega arith) (omega arith) (omega arith)
