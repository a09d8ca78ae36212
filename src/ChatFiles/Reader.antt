-- ===== src/ChatFiles/Reader.antt =====
-- OriginalLinuxCode/chatReader.c: finding a chat's file, and reading a user of it.
pub mod Laws
pub mod Users
use qmsp.Base.{
  ℕ, zero, suc, ◌+◌, ◌-◌, ◌*◌, ◌^◌, Option, none, some, ◌>>=◌, List, [], ◌∷◌, ◌++◌, Bool, true,
  false, not,
}
use qmsp.Base.{◌==◌, leb, if◌then◌else◌, drop, length, u8, u64}
use qmsp.ChatFiles.{Entry, Directory}
use qmsp.ChatFiles.Stdio.{fgets, begins_with, equal_text, print_number, put_text, text_of, is_digit}

-- "ChatID: ", "Messages:\n".
abbrev pub chat_id_text : List ℕ
chat_id_text = b'C' ∷ b'h' ∷ b'a' ∷ b't' ∷ b'I' ∷ b'D' ∷ b':' ∷ b' ' ∷ []

abbrev pub messages_text : List ℕ
messages_text = b'M' ∷ b'e' ∷ b's' ∷ b's' ∷ b'a' ∷ b'g' ∷ b'e' ∷ b's' ∷ b':' ∷ b'\n' ∷ []

-- `sprintf(findLine, "ChatID: %lu", cid)`, into 19 bytes.
unfoldable pub find_line : ℕ → Option (List ℕ)
find_line cid =
    let text = chat_id_text ++ print_number cid in if leb (length text) 18 then some text else none

-- The file behind its first line, if that begins with `text`.
unfoldable pub opens_with : List ℕ → Entry → Option (List ℕ)
opens_with text entry =
    if entry.regular
    then (entry.contents >>= λ bytes.
        fgets 19 bytes >>= λ (line, file). if begins_with line text then some file else none)
    else none

-- The loop over the directory.
unfoldable pub search : List ℕ → List Entry → Option (Entry × List ℕ)
search text [] = none
search text (entry ∷ entries) =
    let rest = search text entries in
    elim (opens_with text entry) [ none ↦ rest | some file ↦ some (entry, file) ]

-- `none` for a text that is longer than its buffer, `some none` for NULL.
unfoldable pub find_chat : Directory → ℕ → Option (Option (Entry × List ℕ))
find_chat none cid = find_line cid >>= λ text. some none
find_chat (some entries) cid = find_line cid >>= λ text. some (search text entries)

unfoldable pub confirm_chat : Directory → ℕ → Option ℕ
confirm_chat dir cid =
    find_chat dir cid >>= λ my_chat. elim my_chat [ none ↦ some 0 | some found ↦ some 1 ]

-- How a function ends: with an answer, in undefined behaviour, or not within the fuel.
pub data Outcome {ℓ} (A : Type ℓ) : Type ℓ where
  answer : A → Outcome A
  fault stuck : Outcome A

-- `for(int i = 1; isdigit(buf[i]); i++)`, from `buf[i]` on: the number, and where `grabber` points.
unfoldable pub scan_uid : ℕ → ℕ → Option ℕ → List ℕ → Option (ℕ × Option ℕ)
scan_uid i uid_cmpr grabber [] = none
scan_uid i uid_cmpr grabber (c ∷ buf) =
    let rest = scan_uid (i + 1) (u64 (u64 (uid_cmpr * 10) + (c - 48))) (some i) buf in
    if is_digit c then rest else some (uid_cmpr, grabber)

-- The loop over the eight permissions.
unfoldable pub read_perm : ℕ → ℕ → List ℕ → Option ℕ
read_perm zero perm buf = some perm
read_perm (suc left) perm [] = none
read_perm (suc left) perm (c ∷ buf) = read_perm left (u8 (u8 (perm * 2) + c + (2 ^ 8 - 48))) buf

-- The line in `buf`: whether it is the user's, and the new `grabber`, which is not set at first.
unfoldable pub user_line : ℕ → Option ℕ → List ℕ → Option (Bool × Option ℕ)
user_line uid grabber buf =
    scan_uid 1 0 grabber (drop 1 buf) >>= λ (uid_cmpr, grabber'). some (uid_cmpr == uid, grabber')

-- What both functions on a user do with the loop over the lines: `stop` tells the line that ends
-- it, and `take_from` reads the answer from a buffer at the place of `grabber`. At the end of the
-- file `fgets` leaves the buffer as it was.
module _ {ℓ} {A : Type ℓ} (stop : List ℕ → Bool) (absent : A) (take_from : List ℕ → Option A)
    (uid : ℕ) where
  unfoldable pub user_loop : ℕ → List ℕ → Option ℕ → List ℕ → Outcome A
  user_loop zero buf grabber file = stuck
  user_loop (suc fuel) buf grabber file =
      if stop (text_of buf) then answer absent else elim (user_line uid grabber buf) [
        | none ↦ fault
        | some (true, none) ↦ fault
        | some (true, some i) ↦ elim (take_from (drop i buf)) [ none ↦ fault | some a ↦ answer a ]
        | some (false, grabber') ↦ elim (fgets 1024 file) [
          | none ↦ user_loop fuel buf grabber' file
          | some (text, file') ↦ user_loop fuel (put_text text buf) grabber' file'
        ]
      ]

  unfoldable pub read_user : ℕ → Option (Option (Entry × List ℕ)) → Outcome A
  read_user fuel none = fault
  read_user fuel (some none) = fault
  read_user fuel (some (some (entry, file))) = elim (fgets 1024 file) [
    | none ↦ fault
    | some (text, file') ↦ user_loop fuel (put_text text []) none file'
  ]

unfoldable pub take_perm : List ℕ → Option ℕ
take_perm grabber = read_perm 8 0 (drop 3 grabber)

unfoldable pub get_perm_of_user : ℕ → Directory → ℕ → ℕ → Outcome ℕ
get_perm_of_user fuel dir cid uid =
    read_user (λ buf. begins_with buf messages_text) 255 take_perm uid fuel (find_chat dir cid)

-- The bytes before a newline.
unfoldable pub read_nickname : List ℕ → Option (List ℕ)
read_nickname [] = none
read_nickname (c ∷ grabber) =
    let rest = read_nickname grabber in
    if c == 10 then some [] else rest >>= λ nick. some (c ∷ nick)

-- The text that is answered, where `malloc` and `realloc` give a block each time.
unfoldable pub get_nickname_of_user : ℕ → Directory → ℕ → ℕ → Outcome (List ℕ)
get_nickname_of_user fuel dir cid uid =
    read_user (λ buf. equal_text buf messages_text) [] (λ grabber. read_nickname (drop 13 grabber))
      uid fuel (find_chat dir cid)
