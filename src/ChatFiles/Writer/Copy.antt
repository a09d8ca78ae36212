-- ===== src/ChatFiles/Writer/Copy.antt =====
-- OriginalLinuxCode/chatWriter.c: the loop that copies a chat's file and adds a user in front of the
-- messages.
use mathlib.Core.Path.{subst}
use qmsp.Base.{ℕ, zero, suc, ◌+◌, ◌^◌, ◌≤◌, ◌<◌, ◌≡◌, ◌≢◌, refl, sym, ap, ◌∙◌, arith}
use qmsp.Base.{
  List, [], ◌∷◌, ◌++◌, append_assoc, append-nil, some, false, Bool-cases, inl, inr, All, length,
  length-append, take-length, ◌==◌,
}
use qmsp.ChatFiles.Stdio.{take_line, fgets, begins_with, print_number}
use qmsp.ChatFiles.Stdio.Laws.{length-print_number}
use qmsp.ChatFiles.Reader.{chat_id_text, messages_text}
use qmsp.ChatFiles.Writer.{guest_text, comma_text, new_user, chat_id_line, copy_lines}
use qmsp.ChatFiles.Reader.Users.{fgets_user, fgets_messages, fgets_users}
use qmsp.ChatFiles.Spec.{
  User, users_text, print_bits, user_body, print_user, print_users, chat_tail, IsUser,
}

-- The heading "Messages:" stands nowhere in a text.
abbrev pub NoHeading : List ℕ → Type 0
NoHeading file =
    (before behind : List ℕ) → before ++ behind ≡ file → begins_with behind messages_text ≡ false

-- A line and the file behind it are the file, and a line is not empty.
take_line-append : (n : ℕ) (file : List ℕ) → (take_line n file).0 ++ (take_line n file).1 ≡ file
unfolding take_line
take_line-append zero file = refl
take_line-append (suc n) [] = refl
take_line-append (suc n) (c ∷ file) = elim (Bool-cases (c == 10)) [
  | inl e ↦ rw e refl
  | inr e ↦ rw e (ap (λ l. c ∷ l) (take_line-append n file))
]

take_line-shorter :
    (n c : ℕ) (file : List ℕ) → length (take_line (suc n) (c ∷ file)).1 ≤ length file
unfolding take_line
take_line-shorter n c file = elim (Bool-cases (c == 10)) [
  | inl e ↦ rw e (omega arith)
  | inr e ↦ rw e (
      omega (
        arith,
        ap length (take_line-append n file),
        length-append (take_line n file).0 (take_line n file).1,
      ))
]

begins_with-more :
    (text rest prefix : List ℕ)
    → begins_with (text ++ rest) prefix ≡ false
    → begins_with text prefix ≡ false
unfolding begins_with
begins_with-more text rest [] h = h
begins_with-more [] rest (p ∷ prefix) h = refl
begins_with-more (c ∷ text) rest (p ∷ prefix) h = elim (Bool-cases (c == p)) [
  | inl e ↦ ground (arith, begins_with-more text rest prefix)
  | inr e ↦ ground arith
]

copy_line :
    (fuel : ℕ) (new_usr file text file' : List ℕ)
    → fgets 1024 file ≡ some (text, file')
    → begins_with text messages_text ≡ false
    → copy_lines (suc fuel) new_usr file ≡ text ++ copy_lines fuel new_usr file'
unfolding copy_lines
copy_line fuel new_usr file text file' e other = rw (copy_lines, e, other) refl

-- Where the heading does not stand, the file is copied as it is.
pub copy_lines-NoHeading :
    (fuel : ℕ) (new_usr file : List ℕ)
    → NoHeading file
    → length file ≤ fuel
    → copy_lines fuel new_usr file ≡ file
copy_lines-NoHeading zero new_usr [] none enough = unfold copy_lines in refl
copy_lines-NoHeading zero new_usr (c ∷ file) none enough = absurd (omega arith)
copy_lines-NoHeading (suc fuel) new_usr [] none enough = unfold copy_lines fgets in refl
copy_lines-NoHeading (suc fuel) new_usr (c ∷ file) none enough =
    let line = take_line 1023 (c ∷ file) in
    let whole = take_line-append 1023 (c ∷ file) in
    copy_line fuel new_usr (c ∷ file) line.0 line.1 (unfold fgets in refl)
      (begins_with-more line.0 line.1 messages_text (none [] (line.0 ++ line.1) whole))
    ∙ ap (λ l. line.0 ++ l)
        (copy_lines-NoHeading fuel new_usr line.1
          (λ before behind e.
            none (line.0 ++ before) behind
              (append_assoc line.0 before behind ∙ ap (λ l. line.0 ++ l) e ∙ whole))
          (omega (arith, take_line-shorter 1022 c file)))
    ∙ whole

copy_lines-messages :
    (fuel : ℕ) (new_usr posts : List ℕ)
    → NoHeading posts
    → length posts < fuel
    → copy_lines fuel new_usr (messages_text ++ posts) ≡ new_usr ++ (messages_text ++ posts)
unfolding copy_lines
copy_lines-messages zero new_usr posts none enough = absurd (omega arith)
copy_lines-messages (suc fuel) new_usr posts none enough =
    rw (copy_lines, fgets_messages posts)
      (unfold begins_with in
        ap (λ l. new_usr ++ (messages_text ++ l))
          (copy_lines-NoHeading fuel new_usr posts none (omega arith)))

copy_lines-users :
    (fuel : ℕ) (new_usr : List ℕ) (us : List User) (posts : List ℕ)
    → All IsUser us
    → NoHeading posts
    → length (print_users us) + length posts < fuel
    → copy_lines fuel new_usr (print_users us ++ (messages_text ++ posts))
      ≡ print_users us ++ (new_usr ++ (messages_text ++ posts))
copy_lines-users fuel new_usr [] posts hs none enough =
    copy_lines-messages fuel new_usr posts none (omega arith)
copy_lines-users zero new_usr (u ∷ us) posts (h, hs) none enough = absurd (omega arith)
copy_lines-users (suc fuel) new_usr (u ∷ us) posts (h, hs) none enough =
    let rest = print_users us ++ (messages_text ++ posts) in
    ap (copy_lines (suc fuel) new_usr)
      (append_assoc (print_user u) (print_users us) (messages_text ++ posts))
    ∙ copy_line fuel new_usr (print_user u ++ rest) (print_user u) rest (fgets_user u rest h)
        (unfold begins_with user_body in refl)
    ∙ ap (λ l. print_user u ++ l)
        (copy_lines-users fuel new_usr us posts hs none (
          omega (
            arith,
            length-append (print_user u) (print_users us),
            length-append (user_body u) (10 ∷ []),
          )))
    ∙ sym (append_assoc (print_user u) (print_users us) (new_usr ++ (messages_text ++ posts)))

-- The user that is added to a chat.
abbrev pub guest : ℕ → User
guest uid = record {
  uid = uid;
  permissions = 231;
  nickname = b'G' ∷ b'u' ∷ b'e' ∷ b's' ∷ b't' ∷ [];
}

pub new_user-guest : (uid : ℕ) → uid < 10 ^ 10 → new_user uid ≡ print_user (guest uid)
new_user-guest uid h =
    unfold new_user user_body print_bits in
    (take-length (b'\t' ∷ (print_number uid ++ guest_text)) 29 (
        omega (
          arith,
          length-print_number 10 uid h (omega arith),
          length-append (print_number uid) guest_text,
        ))
      ∙ ap (λ l. b'\t' ∷ l)
          (sym (
            append_assoc (print_number uid)
              (comma_text ++ (print_bits 8 231 ++ (comma_text ++ (guest uid).nickname)))
              (10 ∷ []))))

pub chat_id_line-short :
    (cid : ℕ) → cid < 10 ^ 8 → chat_id_line cid ≡ chat_id_text ++ (print_number cid ++ (10 ∷ []))
unfolding chat_id_line
chat_id_line-short cid h = take-length (chat_id_text ++ (print_number cid ++ (10 ∷ []))) 17 (
    omega (
      arith,
      length-print_number 8 cid h (omega arith),
      length-append (print_number cid) (10 ∷ []),
    ))

print_users-append :
    (us : List User) (u : User) → print_users (us ++ (u ∷ [])) ≡ print_users us ++ print_user u
print_users-append [] u = append-nil (print_user u)
print_users-append (v ∷ us) u =
    ap (λ l. print_user v ++ l) (print_users-append us u)
    ∙ sym (append_assoc (print_user v) (print_users us) (print_user u))

-- The copy of a chat's file, behind its first line, is that of the chat with one user more.
pub copy_lines-chat_tail :
    (uid : ℕ) (us : List User) (posts : List ℕ)
    → All IsUser us
    → NoHeading posts
    → uid < 10 ^ 10
    → copy_lines (length (chat_tail us posts)) (new_user uid) (chat_tail us posts)
      ≡ chat_tail (us ++ (guest uid ∷ [])) posts
unfolding chat_tail
copy_lines-chat_tail uid us posts hs none short =
    let rest = print_users us ++ (messages_text ++ posts) in
    let fuel = length (b's' ∷ b'e' ∷ b'r' ∷ b's' ∷ b':' ∷ b'\n' ∷ rest) in
    copy_line fuel (new_user uid) (users_text ++ rest) users_text rest (fgets_users rest)
      (unfold begins_with in refl)
    ∙ ap (λ l. users_text ++ l)
        (copy_lines-users fuel (new_user uid) us posts hs none
            (omega (arith, length-append (print_users us) (messages_text ++ posts)))
          ∙ ap (λ l. print_users us ++ (l ++ (messages_text ++ posts))) (new_user-guest uid short)
          ∙ sym (append_assoc (print_users us) (print_user (guest uid)) (messages_text ++ posts))
          ∙ ap (λ l. l ++ (messages_text ++ posts)) (sym (print_users-append us (guest uid))))

drop_front :
    (before behind : List ℕ) → All (λ c. c ≢ 77) (before ++ behind) → All (λ c. c ≢ 77) behind
drop_front [] behind h = h
drop_front (c ∷ before) behind (h, hs) = drop_front before behind hs

-- A text without the letter M has no heading.
pub no_m-NoHeading : (text : List ℕ) → All (λ c. c ≢ 77) text → NoHeading text
unfolding begins_with
no_m-NoHeading text h before [] e = refl
no_m-NoHeading text h before (c ∷ behind) e =
    let (other, rest) =
      drop_front before (c ∷ behind) (subst (λ l. All (λ c. c ≢ 77) l) (sym e) h) in
    ground arith
