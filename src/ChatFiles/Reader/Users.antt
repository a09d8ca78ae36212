-- ===== src/ChatFiles/Reader/Users.antt =====
-- OriginalLinuxCode/chatReader.c: the loop over the lines of a chat's file.
use qmsp.Base.{ℕ, zero, suc, ◌+◌, ◌<◌, ◌≡◌, refl, ap, ◌∙◌, arith}
use qmsp.Base.{
  List, [], ◌∷◌, ◌++◌, append_assoc, Option, some, none, Bool, true, false, All, length, drop, ◌==◌,
  if◌then◌else◌, Bool-cases, inl, inr,
}
use qmsp.ChatFiles.{Entry, Directory}
use qmsp.ChatFiles.Stdio.{
  take_line, fgets, begins_with, equal_text, put_text, text_of, print_number, is_digit,
}
use qmsp.ChatFiles.Stdio.Laws.{InLine, All-append, All-imp, fgets_line, text_of-put_text}
use qmsp.ChatFiles.Reader.{
  messages_text, scan_uid, user_line, user_loop, read_user, take_perm, read_perm, read_nickname,
  Outcome, answer, find_chat, get_perm_of_user, get_nickname_of_user,
}
use qmsp.ChatFiles.Reader.Laws.{
  user_body-InLine, length-user_body, user_line-user, drop_to_bits, read_bits, drop_to_nickname,
}
use qmsp.ChatFiles.Writer.{comma_text}
use qmsp.ChatFiles.Spec.{
  User, users_text, print_bits, user_body, print_user, print_users, chat_tail, IsUser, look,
}

pub fgets_user :
    (u : User) (rest : List ℕ)
    → IsUser u
    → fgets 1024 (print_user u ++ rest) ≡ some (print_user u, rest)
fgets_user u rest h =
    ap (fgets 1024) (append_assoc (user_body u) (10 ∷ []) rest)
    ∙ fgets_line 1024 (user_body u) rest (user_body-InLine u h)
        (omega (arith, length-user_body u h))

pub fgets_messages :
    (posts : List ℕ) → fgets 1024 (messages_text ++ posts) ≡ some (messages_text, posts)
unfolding fgets take_line
fgets_messages posts = refl

pub fgets_users : (rest : List ℕ) → fgets 1024 (users_text ++ rest) ≡ some (users_text, rest)
unfolding fgets take_line
fgets_users rest = refl

pub text_of-line :
    (body buf : List ℕ)
    → All InLine body
    → text_of (put_text (body ++ (10 ∷ [])) buf) ≡ body ++ (10 ∷ [])
text_of-line body buf h =
    text_of-put_text (body ++ (10 ∷ [])) buf
      (All-append (λ c. 0 < c) body (10 ∷ []) (All-imp body (λ c k. k.0) h) (omega arith, tt))

pub text_of-messages : (buf : List ℕ) → text_of (put_text messages_text buf) ≡ messages_text
unfolding text_of put_text
text_of-messages buf = refl

pub text_of-users : (buf : List ℕ) → text_of (put_text users_text buf) ≡ users_text
unfolding text_of put_text
text_of-users buf = refl

-- The line of a user in a buffer.
buffer_line :
    (u : User) (buf : List ℕ)
    → (rest : List ℕ) × (put_text (print_user u) buf ≡ user_body u ++ (10 ∷ rest))
unfolding put_text
buffer_line u buf = (
  0 ∷ drop (length (print_user u) + 1) buf,
  append_assoc (user_body u) (10 ∷ []) (0 ∷ drop (length (print_user u) + 1) buf),
)

buffer_user_line :
    (u : User) (uid : ℕ) (grabber : Option ℕ) (buf : List ℕ)
    → IsUser u
    → user_line uid grabber (put_text (print_user u) buf)
      ≡ some (u.uid == uid, some (length (print_number u.uid)))
buffer_user_line u uid grabber buf h =
    let (rest, line) = buffer_line u buf in rw line (user_line-user u uid grabber (10 ∷ rest) h)

users_line :
    (uid : ℕ) (buf : List ℕ)
    → 0 < uid
    → user_line uid none (put_text users_text buf) ≡ some (false, none)
unfolding user_line scan_uid put_text is_digit
users_line uid buf h = ground arith

module _ {ℓ} {A : Type ℓ} (stop : List ℕ → Bool) (absent : A) (take_from : List ℕ → Option A)
    (uid : ℕ) (said : User → A) (stops : stop messages_text ≡ true)
    (goes : (u : User) → stop (print_user u) ≡ false) (goes_users : stop users_text ≡ false)
    (takes : (u : User) (rest : List ℕ)
      → IsUser u
      → take_from (drop (length (print_number u.uid)) (user_body u ++ (10 ∷ rest)))
        ≡ some (said u)) where
  -- The loop from the point where it reads the next line.
  abbrev resume : ℕ → List ℕ → Option ℕ → List ℕ → Outcome A
  resume fuel buf grabber file = elim (fgets 1024 file) [
    | none ↦ user_loop stop absent take_from uid fuel buf grabber file
    | some (text, file') ↦
        user_loop stop absent take_from uid fuel (put_text text buf) grabber file'
  ]

  resume-some :
      (fuel : ℕ) (buf : List ℕ) (grabber : Option ℕ) (file text file' : List ℕ)
      → fgets 1024 file ≡ some (text, file')
      → resume fuel buf grabber file
        ≡ user_loop stop absent take_from uid fuel (put_text text buf) grabber file'
  resume-some fuel buf grabber file text file' e = rw (resume, e) refl

  at_messages :
      (fuel : ℕ) (buf file : List ℕ) (grabber : Option ℕ)
      → user_loop stop absent take_from uid (suc fuel) (put_text messages_text buf) grabber file
        ≡ answer absent
  unfolding user_loop
  at_messages fuel buf file grabber = rw (text_of-messages buf, stops) refl

  at_user :
      (fuel : ℕ) (u : User) (buf file : List ℕ) (grabber : Option ℕ)
      → IsUser u
      → user_loop stop absent take_from uid (suc fuel) (put_text (print_user u) buf) grabber file
        ≡ (if u.uid == uid
            then answer (said u)
            else resume fuel
                (put_text (print_user u) buf)
                (some (length (print_number u.uid)))
                file)
  unfolding user_loop
  at_user fuel u buf file grabber h =
      let (rest, line) = buffer_line u buf in
      let found : take_from (drop (length (print_number u.uid)) (put_text (print_user u) buf))
          ≡ some (said u) =
        rw line (takes u rest h) in
      rw
        (
          text_of-line (user_body u) buf (user_body-InLine u h),
          goes u,
          buffer_user_line u uid grabber buf h,
        )
        (elim (Bool-cases (u.uid == uid)) [ inl e ↦ rw (e, found) refl | inr e ↦ rw e refl ])

  resume-users :
      (fuel : ℕ) (us : List User) (posts buf : List ℕ) (grabber : Option ℕ)
      → All IsUser us
      → length us < fuel
      → resume fuel buf grabber (print_users us ++ (messages_text ++ posts))
        ≡ answer (look said absent us uid)
  unfolding look
  resume-users zero us posts buf grabber hs enough = absurd (omega arith)
  resume-users (suc fuel) [] posts buf grabber hs enough =
      resume-some (suc fuel) buf grabber (messages_text ++ posts) messages_text posts
        (fgets_messages posts)
      ∙ at_messages fuel buf posts grabber
  resume-users (suc fuel) (u ∷ us) posts buf grabber (h, hs) enough =
      let rest = print_users us ++ (messages_text ++ posts) in
      let later =
        resume-users fuel us posts (put_text (print_user u) buf)
          (some (length (print_number u.uid))) hs (omega arith) in
      ap (resume (suc fuel) buf grabber)
        (append_assoc (print_user u) (print_users us) (messages_text ++ posts))
      ∙ resume-some (suc fuel) buf grabber (print_user u ++ rest) (print_user u) rest
          (fgets_user u rest h)
      ∙ at_user fuel u buf rest grabber h
      ∙ elim (Bool-cases (u.uid == uid)) [ inl e ↦ rw e refl | inr e ↦ rw e later ]

  at_users :
      (fuel : ℕ) (buf file : List ℕ)
      → 0 < uid
      → user_loop stop absent take_from uid (suc fuel) (put_text users_text buf) none file
        ≡ resume fuel (put_text users_text buf) none file
  unfolding user_loop
  at_users fuel buf file positive =
      rw (text_of-users buf, goes_users, users_line uid buf positive) refl

  read_user-some :
      (fuel : ℕ) (entry : Entry) (file text file' : List ℕ)
      → fgets 1024 file ≡ some (text, file')
      → read_user stop absent take_from uid fuel (some (some (entry, file)))
        ≡ user_loop stop absent take_from uid fuel (put_text text []) none file'
  unfolding read_user
  read_user-some fuel entry file text file' e = rw (read_user, e) refl

  pub read_user-chat_tail :
      (fuel : ℕ) (us : List User) (posts : List ℕ) (entry : Entry)
      → All IsUser us
      → length us + 1 < fuel
      → 0 < uid
      → read_user stop absent take_from uid fuel (some (some (entry, chat_tail us posts)))
        ≡ answer (look said absent us uid)
  unfolding chat_tail
  read_user-chat_tail zero us posts entry hs enough positive = absurd (omega arith)
  read_user-chat_tail (suc fuel) us posts entry hs enough positive =
      let rest = print_users us ++ (messages_text ++ posts) in
      read_user-some (suc fuel) entry (users_text ++ rest) users_text rest (fgets_users rest)
      ∙ at_users fuel [] rest positive
      ∙ resume-users fuel us posts (put_text users_text []) none hs (omega arith)

take_perm-user :
    (u : User) (rest : List ℕ)
    → IsUser u
    → take_perm (drop (length (print_number u.uid)) (user_body u ++ (10 ∷ rest)))
      ≡ some u.permissions
unfolding take_perm
take_perm-user u rest h =
    ap (read_perm 8 0) (
      drop_to_bits u (10 ∷ rest) h
      ∙ append_assoc (print_bits 8 u.permissions) (comma_text ++ u.nickname) (10 ∷ rest))
    ∙ read_bits 8 0 u.permissions (comma_text ++ u.nickname ++ (10 ∷ rest)) h.permissions_byte
        (omega arith) (omega (arith, h.permissions_byte))

read_nickname-line :
    (name rest : List ℕ) → All InLine name → read_nickname (name ++ (10 ∷ rest)) ≡ some name
unfolding read_nickname
read_nickname-line [] rest h = refl
read_nickname-line (c ∷ name) rest (h, hs) = ground (arith, read_nickname-line name rest hs)

-- What is read of a user's permissions in a chat that is found, whose users fit: those of the first
-- user with the id, or 255 if there is none, within two rounds more than there are users.
pub get_perm_of_user-chat_tail :
    (fuel : ℕ) (dir : Directory) (cid uid : ℕ) (us : List User) (posts : List ℕ) (entry : Entry)
    → find_chat dir cid ≡ some (some (entry, chat_tail us posts))
    → All IsUser us
    → 0 < uid
    → length us + 1 < fuel
    → get_perm_of_user fuel dir cid uid ≡ answer (look (λ u. u.permissions) 255 us uid)
unfolding get_perm_of_user
get_perm_of_user-chat_tail fuel dir cid uid us posts entry found hs positive enough = rw found (
    read_user-chat_tail (λ buf. begins_with buf messages_text) 255 take_perm uid
      (λ u. u.permissions) (unfold begins_with in refl) (λ u. unfold begins_with user_body in refl)
      (unfold begins_with in refl) take_perm-user fuel us posts entry hs enough positive)

-- What is read of a user's nickname in a chat that is found, whose users fit: that of the first user
-- with the id, or the empty text if there is none, within two rounds more than there are users.
pub get_nickname_of_user-chat_tail :
    (fuel : ℕ) (dir : Directory) (cid uid : ℕ) (us : List User) (posts : List ℕ) (entry : Entry)
    → find_chat dir cid ≡ some (some (entry, chat_tail us posts))
    → All IsUser us
    → 0 < uid
    → length us + 1 < fuel
    → get_nickname_of_user fuel dir cid uid ≡ answer (look (λ u. u.nickname) [] us uid)
unfolding get_nickname_of_user
get_nickname_of_user-chat_tail fuel dir cid uid us posts entry found hs positive enough = rw found (
    read_user-chat_tail (λ buf. equal_text buf messages_text) []
      (λ grabber. read_nickname (drop 13 grabber)) uid (λ u. u.nickname) (unfold equal_text in refl)
      (λ u. unfold equal_text user_body in refl) (unfold equal_text in refl)
      (λ u rest h.
        ap read_nickname (drop_to_nickname u (10 ∷ rest) h)
        ∙ read_nickname-line u.nickname rest h.nickname_line)
      fuel us posts entry hs enough positive)
