-- ===== src/ChatFiles/Spec.antt =====
-- What a chat's file stands for: the chat's id, its users in order, and the bytes behind the line
-- "Messages:".
use qmsp.Base.{
  ℕ, zero, suc, ◌+◌, ◌/◌, ◌%◌, ◌^◌, ◌<◌, ◌≡◌, List, [], ◌∷◌, ◌++◌, All, length, ◌==◌, if◌then◌else◌,
}
use qmsp.ChatFiles.Stdio.{print_number}
use qmsp.ChatFiles.Stdio.Laws.{InLine}
use qmsp.ChatFiles.Reader.{chat_id_text, messages_text}
use qmsp.ChatFiles.Writer.{comma_text}

pub record User : Type 0 where
  pub uid : ℕ
  pub permissions : ℕ
  pub nickname : List ℕ

pub record Chat : Type 0 where
  pub cid : ℕ
  pub users : List User
  pub posts : List ℕ

abbrev pub users_text : List ℕ
users_text = b'U' ∷ b's' ∷ b'e' ∷ b'r' ∷ b's' ∷ b':' ∷ b'\n' ∷ []

-- The lowest `n` bits, from the highest down.
unfoldable pub print_bits : ℕ → ℕ → List ℕ
print_bits zero x = []
print_bits (suc n) x = (48 + x / 2 ^ n % 2) ∷ print_bits n x

-- A user's line without its newline.
unfoldable pub user_body : User → List ℕ
user_body u =
    b'\t'
    ∷ (print_number u.uid
        ++ (comma_text ++ (print_bits 8 u.permissions ++ (comma_text ++ u.nickname))))

abbrev pub print_user : User → List ℕ
print_user u = user_body u ++ (10 ∷ [])

abbrev pub print_users : List User → List ℕ
print_users [] = []
print_users (u ∷ us) = print_user u ++ print_users us

-- The file, and what of it is behind the first line.
unfoldable pub chat_tail : List User → List ℕ → List ℕ
chat_tail us posts = users_text ++ (print_users us ++ (messages_text ++ posts))

unfoldable pub print_chat : Chat → List ℕ
print_chat c = (chat_id_text ++ (print_number c.cid ++ (10 ∷ []))) ++ chat_tail c.users c.posts

pub record IsUser (u : User) : Type 0 where
  pub uid_some : 0 < u.uid
  pub uid_short : u.uid < 10 ^ 10
  pub permissions_byte : u.permissions < 256
  pub nickname_line : All InLine u.nickname
  pub nickname_short : length u.nickname < 900

-- What is said of a user: of the first one with the id, if there is one.
unfoldable pub look {ℓ} : {A : Type ℓ} → (User → A) → A → List User → ℕ → A
look said absent [] uid = absent
look said absent (u ∷ us) uid =
    let rest = look said absent us uid in if u.uid == uid then said u else rest

-- Lines with their newlines.
abbrev pub print_lines : List (List ℕ) → List ℕ
print_lines [] = []
print_lines (l ∷ ls) = (l ++ (10 ∷ [])) ++ print_lines ls

-- A text as lines that fit a buffer of 1024 bytes, and what stands behind the last newline.
pub record HasLines (text : List ℕ) : Type 0 where
  pub whole_lines : List (List ℕ)
  pub open_line : List ℕ
  pub text_shape : text ≡ print_lines whole_lines ++ open_line
  pub lines_fit : All (λ l. All InLine l × (length l < 1022)) whole_lines
  pub open_fits : All InLine open_line

-- The lines that are read of it: the open one comes in pieces of 1023 bytes.
abbrev pub line_count : {text : List ℕ} → HasLines text → ℕ
line_count h = length h.whole_lines + (length h.open_line + 1022) / 1023
