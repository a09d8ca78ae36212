-- ===== src/ChatFiles/Writer.antt =====
-- OriginalLinuxCode/chatWriter.c: adding users and posts to a chat's file.
pub mod Copy
pub mod Posts
pub mod Names
use qmsp.Base.{
  ℕ, zero, suc, ◌+◌, ◌-◌, Option, none, some, ◌>>=◌, List, [], ◌∷◌, ◌++◌, Bool, true, false,
}
use qmsp.Base.{if◌then◌else◌, drop, take, length}
use qmsp.Base.Memory.{Allocator, memcpy}
use qmsp.ChatFiles.{Entry, Directory}
use qmsp.ChatFiles.Stdio.{fgets, begins_with, equal_text, print_number, put_text, text_of}
use qmsp.ChatFiles.Reader.{chat_id_text, messages_text, find_chat, Outcome, answer, fault, stuck}

-- "./localChats/", "\t", ", 11100111, Guest\n", ", ", ", 0, , \x02".
abbrev pub path_text : List ℕ
path_text =
    b'.' ∷ b'/' ∷ b'l' ∷ b'o' ∷ b'c' ∷ b'a' ∷ b'l' ∷ b'C' ∷ b'h' ∷ b'a' ∷ b't' ∷ b's' ∷ b'/' ∷ []

abbrev pub guest_text : List ℕ
guest_text =
    b',' ∷ b' ' ∷ b'1' ∷ b'1' ∷ b'1' ∷ b'0' ∷ b'0' ∷ b'1' ∷ b'1' ∷ b'1' ∷ b',' ∷ b' ' ∷ b'G' ∷ b'u'
    ∷ b'e' ∷ b's' ∷ b't' ∷ b'\n' ∷ []

abbrev pub comma_text : List ℕ
comma_text = b',' ∷ b' ' ∷ []

abbrev pub no_links_text : List ℕ
no_links_text = b',' ∷ b' ' ∷ b'0' ∷ b',' ∷ b' ' ∷ b',' ∷ b' ' ∷ 2 ∷ []

-- `snprintf(filepath, sizeof(filepath), "./localChats/%s", name)`. Names of files have at most 255 bytes:
-- no path is cut.
unfoldable pub file_path : List ℕ → List ℕ
file_path name = take 1023 (path_text ++ name)

-- The name and its terminator are copied (`strcpy`) into a block of `strlen(filepath)` bytes. A NULL
-- of `malloc`, or of `realloc` of NULL, is written through.
unfoldable pub store_name : Allocator → List ℕ → Option (List ℕ)
store_name a name =
    let path = file_path name in
    a.malloc (length path) >>= λ block. memcpy block 0 (path ++ (0 ∷ [])) >>= λ stored. some path

unfoldable pub find_chat_store_name : Allocator → Directory → ℕ → Option (Option (Entry × List ℕ))
find_chat_store_name a dir cid = find_chat dir cid >>= λ found. elim found [
  | none ↦ some none
  | some (entry, file) ↦ store_name a entry.name >>= λ path. some (some (entry, file))
]

unfoldable pub find_chat_name : Allocator → Directory → ℕ → Option (Option Entry)
find_chat_name a dir cid = find_chat dir cid >>= λ found. elim found [
  | none ↦ some none
  | some (entry, file) ↦ store_name a entry.name >>= λ path. some (some entry)
]

-- The loop to the line before the messages. At the end of the file the buffer stays as it was.
unfoldable pub skip_loop : ℕ → List ℕ → List ℕ → Outcome (List ℕ)
skip_loop zero buf file = stuck
skip_loop (suc fuel) buf file =
    if begins_with (text_of buf) messages_text then answer file else elim (fgets 1024 file) [
      | none ↦ skip_loop fuel buf file
      | some (text, file') ↦ skip_loop fuel (put_text text buf) file'
    ]

unfoldable pub count_loop : ℕ → ℕ → List ℕ → Outcome ℕ
count_loop zero count file = stuck
count_loop (suc fuel) count file = elim (fgets 1024 file) [
  | none ↦ answer count
  | some (text, file') ↦ count_loop fuel (count + 1) file'
]

unfoldable pub count_messages : ℕ → List ℕ → Outcome ℕ
count_messages fuel file = elim (fgets 1024 file) [
  | none ↦ fault
  | some (text, file') ↦ elim (skip_loop fuel (put_text text []) file') [
    | answer behind ↦ count_loop fuel 0 behind
    | fault ↦ fault
    | stuck ↦ stuck
  ]
]

unfoldable pub get_number_of_messages : ℕ → Directory → ℕ → Outcome ℕ
get_number_of_messages fuel dir cid = elim (find_chat dir cid) [
  | none ↦ fault
  | some none ↦ fault
  | some (some (entry, file)) ↦ count_messages fuel file
]

-- The file of that name has other bytes.
unfoldable pub replace : List ℕ → List ℕ → List Entry → List Entry
replace name bytes [] = []
replace name bytes (entry ∷ entries) =
    let rest = replace name bytes entries in
    if equal_text entry.name name
    then record entry { contents = some bytes } ∷ entries
    else entry ∷ rest

-- An `fopen(name, "a")` and what is written behind it.
abbrev pub update : List ℕ → List ℕ → Directory → Directory
update name bytes none = none
update name bytes (some entries) = some (replace name bytes entries)

-- "copyChat.tmp".
abbrev pub tmp_name : List ℕ
tmp_name = b'c' ∷ b'o' ∷ b'p' ∷ b'y' ∷ b'C' ∷ b'h' ∷ b'a' ∷ b't' ∷ b'.' ∷ b't' ∷ b'm' ∷ b'p' ∷ []

-- Whether `fopen("./localChats/copyChat.tmp", "w")` succeeds: a file of that name has to be one that
-- can be opened.
unfoldable pub opens_tmp : List Entry → Bool
opens_tmp [] = true
opens_tmp (entry ∷ entries) =
    let rest = opens_tmp entries in
    if equal_text entry.name tmp_name
    then elim entry.contents [ none ↦ false | some bytes ↦ rest ]
    else rest

unfoldable pub remove : List ℕ → List Entry → List Entry
remove name [] = []
remove name (entry ∷ entries) =
    let rest = remove name entries in if equal_text entry.name name then rest else entry ∷ rest

-- What the directory holds behind `fopen("./localChats/copyChat.tmp", "w")`, the writes to that file,
-- `remove(origName)` and `rename("./localChats/copyChat.tmp", origName)`, where the calls succeed. A
-- chat's file that itself is called copyChat.tmp has been emptied and removed, and there is nothing to
-- rename. The renamed file takes the place of the old one in the order of the directory.
unfoldable pub rename_tmp : List ℕ → List ℕ → Directory → Option Directory
rename_tmp name bytes none = none
rename_tmp name bytes (some entries) =
    let others = remove tmp_name entries in
    if opens_tmp entries
    then (if equal_text name tmp_name
        then some (some others)
        else some (some (replace name bytes others)))
    else none

-- `snprintf(newUsr, 30, "\t%llu, 11100111, Guest\n", uid)` and `snprintf(cidLin, 18, "ChatID: %lu\n", cid)`.
unfoldable pub new_user : ℕ → List ℕ
new_user uid = take 29 (b'\t' ∷ (print_number uid ++ guest_text))

unfoldable pub chat_id_line : ℕ → List ℕ
chat_id_line cid = take 17 (chat_id_text ++ (print_number cid ++ (b'\n' ∷ [])))

-- The loop that copies the lines, with the new one in front of the messages. Each round takes a
-- byte at least: as many rounds as there are bytes are enough.
unfoldable pub copy_lines : ℕ → List ℕ → List ℕ → List ℕ
copy_lines zero new_usr file = []
copy_lines (suc fuel) new_usr file = elim (fgets 1024 file) [
  | none ↦ []
  | some (text, file') ↦
      let rest = copy_lines fuel new_usr file' in
      if begins_with text messages_text then new_usr ++ (text ++ rest) else text ++ rest
]

-- What `addNewUser` does behind `findChat_storeName`, with the file that it has opened, of which the
-- first line has been read, and the name that it has stored. Writing to a NULL of `fopen` is undefined.
unfoldable pub rewrite_chat : Directory → Entry → List ℕ → ℕ → ℕ → Option Directory
rewrite_chat dir entry file cid uid =
    rename_tmp entry.name (chat_id_line cid ++ copy_lines (length file) (new_user uid) file) dir

-- The permissions and the nickname that are passed are not used.
unfoldable pub add_new_user : Allocator → Directory → ℕ → ℕ → ℕ → List ℕ → Option Directory
add_new_user a dir cid uid permissions nickname = find_chat_store_name a dir cid >>= λ found.
    elim found [ none ↦ none | some (entry, file) ↦ rewrite_chat dir entry file cid uid ]

-- The loop over the text: 1023 bytes of it are written, and 1024 are passed over.
unfoldable pub write_text : ℕ → List ℕ → List ℕ
write_text zero text = []
write_text (suc fuel) [] = []
write_text (suc fuel) (c ∷ text) = take 1023 (c ∷ text) ++ write_text fuel (drop 1024 (c ∷ text))

unfoldable pub post_line : ℕ → ℕ → ℕ → List ℕ → List ℕ
post_line mid uid time text =
    take 1023 (
      b'\t'
      ∷ (print_number mid
          ++ (comma_text
              ++ (print_number uid ++ (comma_text ++ (print_number time ++ no_links_text))))))
    ++ (write_text (length text) text ++ (3 ∷ []))

-- What `addNewPost` does behind `findChatName`, with the chat's file that it has found.
unfoldable pub append_post : ℕ → Directory → Entry → ℕ → ℕ → ℕ → List ℕ → Outcome Directory
append_post fuel dir entry cid uid time text = elim (get_number_of_messages fuel dir cid) [
  | fault ↦ fault
  | stuck ↦ stuck
  | answer mid ↦ elim entry.contents [
    | none ↦ fault
    | some bytes ↦ answer (update entry.name (bytes ++ post_line mid uid time text) dir)
  ]
]

-- Without a chat, `getNumberOfMessages` reads from NULL.
unfoldable pub add_new_post : Allocator → ℕ → Directory → ℕ → ℕ → ℕ → List ℕ → Outcome Directory
add_new_post a fuel dir cid uid time text = elim (find_chat_name a dir cid) [
  | none ↦ fault
  | some none ↦ fault
  | some (some entry) ↦ append_post fuel dir entry cid uid time text
]
