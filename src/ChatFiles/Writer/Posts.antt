-- ===== src/ChatFiles/Writer/Posts.antt =====
-- OriginalLinuxCode/chatWriter.c: the loops that count the lines behind the heading and that write
-- the text of a post.
use qmsp.Base.{ℕ, zero, suc, ◌+◌, ◌/◌, ◌%◌, ◌≤◌, ◌<◌, ◌≡◌, refl, sym, ap, ◌∙◌, arith}
use qmsp.Base.{
  List, [], ◌∷◌, ◌++◌, append_assoc, some, false, All, length, length-drop, take, drop, ◌==◌,
  if◌then◌else◌,
}
use qmsp.ChatFiles.Stdio.{take_line, fgets, begins_with, put_text, text_of}
use qmsp.ChatFiles.Stdio.Laws.{InLine, fgets_line}
use qmsp.ChatFiles.Reader.{messages_text, answer}
use qmsp.ChatFiles.Writer.{skip_loop, count_loop, count_messages, write_text}
use qmsp.ChatFiles.Reader.Laws.{user_body-InLine}
use qmsp.ChatFiles.Reader.Users.{
  fgets_user, fgets_messages, fgets_users, text_of-line, text_of-messages, text_of-users,
}
use qmsp.ChatFiles.Spec.{
  User, users_text, user_body, print_user, print_users, chat_tail, IsUser, print_lines, HasLines,
  line_count,
}

-- The bytes of a text but each 1024th, where the first has the index `i`.
unfoldable pub kept : ℕ → List ℕ → List ℕ
kept i [] = []
kept i (c ∷ text) = let rest = kept (i + 1) text in if i % 1024 == 1023 then rest else c ∷ rest

not_last : (i k : ℕ) → i % 1024 + suc k ≡ 1023 → (i % 1024 == 1023) ≡ false
not_last i k h = ground arith

kept-block :
    (k i : ℕ) (text : List ℕ)
    → i % 1024 + k ≡ 1023
    → kept i text ≡ take k text ++ kept (i + suc k) (drop (suc k) text)
unfolding kept
kept-block zero i [] h = refl
kept-block (suc k) i [] h = refl
kept-block zero i (c ∷ text) h = ground arith
kept-block (suc k) i (c ∷ text) h =
    let rest = kept-block k (i + 1) text (omega arith) in
    let same : i + 1 + suc k ≡ i + suc (suc k) = omega arith in
    rw (not_last i k h)
      (ap (λ l. c ∷ l) (rest ∙ ap (λ n. take k text ++ kept n (drop (suc k) text)) same))

write_block :
    (fuel c : ℕ) (text : List ℕ)
    → write_text (suc fuel) (c ∷ text)
      ≡ take 1023 (c ∷ text) ++ write_text fuel (drop 1024 (c ∷ text))
unfolding write_text
write_block fuel c text = refl

-- A text is written without each 1024th byte of it, if there are as many rounds as bytes.
pub write_text-kept :
    (fuel i : ℕ) (text : List ℕ)
    → i % 1024 ≡ 0
    → length text ≤ fuel
    → write_text fuel text ≡ kept i text
write_text-kept zero i [] h enough = unfold write_text kept in refl
write_text-kept zero i (c ∷ text) h enough = absurd (omega arith)
write_text-kept (suc fuel) i [] h enough = unfold write_text kept in refl
write_text-kept (suc fuel) i (c ∷ text) h enough =
    write_block fuel c text
    ∙ ap (λ l. take 1023 (c ∷ text) ++ l)
        (write_text-kept fuel (i + 1024) (drop 1024 (c ∷ text)) (omega arith)
          (omega (arith, length-drop 1024 (c ∷ text))))
    ∙ sym (kept-block 1023 i (c ∷ text) (omega arith))

-- Bytes without a newline are read in pieces.
pub take_line-InLine :
    (n : ℕ) (file : List ℕ) → All InLine file → take_line n file ≡ (take n file, drop n file)
unfolding take_line
take_line-InLine zero file h = refl
take_line-InLine (suc n) [] h = refl
take_line-InLine (suc n) (c ∷ file) (h, hs) = ground (arith, take_line-InLine n file hs)

drop-InLine : (n : ℕ) (file : List ℕ) → All InLine file → All InLine (drop n file)
drop-InLine zero file h = h
drop-InLine (suc n) [] h = h
drop-InLine (suc n) (c ∷ file) (h, hs) = drop-InLine n file hs

count_line :
    (fuel n : ℕ) (file text file' : List ℕ)
    → fgets 1024 file ≡ some (text, file')
    → count_loop (suc fuel) n file ≡ count_loop fuel (n + 1) file'
unfolding count_loop
count_line fuel n file text file' e = rw (count_loop, e) refl

pub count_loop-InLine :
    (fuel n : ℕ) (posts : List ℕ)
    → All InLine posts
    → (length posts + 1022) / 1023 < fuel
    → count_loop fuel n posts ≡ answer (n + (length posts + 1022) / 1023)
count_loop-InLine zero n posts h enough = absurd (omega arith)
count_loop-InLine (suc fuel) n [] h enough = unfold count_loop fgets in ap answer (omega arith)
count_loop-InLine (suc fuel) n (c ∷ posts) h enough =
    let line = take_line-InLine 1023 (c ∷ posts) h in
    let left = length-drop 1023 (c ∷ posts) in
    rw
      (count_line fuel n (c ∷ posts) (take 1023 (c ∷ posts)) (drop 1023 (c ∷ posts))
        (unfold fgets in ap some line))
      (count_loop-InLine fuel (n + 1) (drop 1023 (c ∷ posts)) (drop-InLine 1023 (c ∷ posts) h)
          (omega (arith, left))
        ∙ ap answer (omega (arith, left)))

-- Whole lines are counted one by one.
pub count_loop-lines :
    (fuel n : ℕ) (ls : List (List ℕ)) (tail : List ℕ)
    → All (λ l. All InLine l × (length l < 1022)) ls
    → All InLine tail
    → length ls + (length tail + 1022) / 1023 < fuel
    → count_loop fuel n (print_lines ls ++ tail)
      ≡ answer (n + (length ls + (length tail + 1022) / 1023))
count_loop-lines fuel n [] tail hs h enough =
    count_loop-InLine fuel n tail h (omega arith) ∙ ap answer (omega arith)
count_loop-lines zero n (l ∷ ls) tail hs h enough = absurd (omega arith)
count_loop-lines (suc fuel) n (l ∷ ls) tail ((inside, short), hs) h enough =
    let rest = print_lines ls ++ tail in
    ap (count_loop (suc fuel) n)
      (append_assoc (l ++ (10 ∷ [])) (print_lines ls) tail ∙ append_assoc l (10 ∷ []) rest)
    ∙ count_line fuel n (l ++ (10 ∷ rest)) (l ++ (10 ∷ [])) rest
        (fgets_line 1024 l rest inside (omega arith))
    ∙ count_loop-lines fuel (n + 1) ls tail hs h (omega arith)
    ∙ ap answer (omega arith)

skip_line :
    (fuel : ℕ) (buf file text file' : List ℕ)
    → begins_with (text_of buf) messages_text ≡ false
    → fgets 1024 file ≡ some (text, file')
    → skip_loop (suc fuel) buf file ≡ skip_loop fuel (put_text text buf) file'
unfolding skip_loop
skip_line fuel buf file text file' other e = rw (skip_loop, other, e) refl

skip_loop-messages :
    (fuel : ℕ) (buf file : List ℕ)
    → skip_loop (suc fuel) (put_text messages_text buf) file ≡ answer file
unfolding skip_loop
skip_loop-messages fuel buf file = rw (text_of-messages buf) (unfold begins_with in refl)

-- The loop from a buffer that is not the heading, with users' lines to come.
skip_loop-users :
    (fuel : ℕ) (us : List User) (posts buf : List ℕ)
    → All IsUser us
    → begins_with (text_of buf) messages_text ≡ false
    → length us + 1 < fuel
    → skip_loop fuel buf (print_users us ++ (messages_text ++ posts)) ≡ answer posts
skip_loop-users zero us posts buf hs other enough = absurd (omega arith)
skip_loop-users (suc zero) us posts buf hs other enough = absurd (omega arith)
skip_loop-users (suc (suc fuel)) [] posts buf hs other enough =
    skip_line (suc fuel) buf (messages_text ++ posts) messages_text posts other
      (fgets_messages posts)
    ∙ skip_loop-messages fuel buf posts
skip_loop-users (suc fuel) (u ∷ us) posts buf (h, hs) other enough =
    let rest = print_users us ++ (messages_text ++ posts) in
    let passed : begins_with (text_of (put_text (print_user u) buf)) messages_text ≡ false =
      rw (text_of-line (user_body u) buf (user_body-InLine u h))
        (unfold begins_with user_body in refl) in
    ap (skip_loop (suc fuel) buf)
      (append_assoc (print_user u) (print_users us) (messages_text ++ posts))
    ∙ skip_line fuel buf (print_user u ++ rest) (print_user u) rest other (fgets_user u rest h)
    ∙ skip_loop-users fuel us posts (put_text (print_user u) buf) hs passed (omega arith)

-- Behind a chat's users, the lines are counted.
pub count_messages-chat_tail :
    (fuel : ℕ) (us : List User) (posts : List ℕ)
    → All IsUser us
    → (h : HasLines posts) → length us + 1 < fuel
    → line_count h < fuel
    → count_messages fuel (chat_tail us posts) ≡ answer (line_count h)
unfolding count_messages chat_tail
count_messages-chat_tail fuel us posts hs h enough rounds =
    let rest = print_users us ++ (messages_text ++ posts) in
    let passed : begins_with (text_of (put_text users_text [])) messages_text ≡ false =
      rw (text_of-users []) (unfold begins_with in refl) in
    rw
      (
        count_messages,
        fgets_users rest,
        skip_loop-users fuel us posts (put_text users_text []) hs passed enough,
        h.text_shape,
        count_loop-lines fuel 0 h.whole_lines h.open_line h.lines_fit h.open_fits rounds,
      )
      (ap answer (omega arith))
