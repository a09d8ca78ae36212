-- ===== src/ChatFiles/Reader/Laws.antt =====
-- OriginalLinuxCode/chatReader.c: what is read of a user from a chat's file.
use native.Mathlib.Nat.{pow-suc, div-div-eq-div-mul, div-le_self}
use qmsp.Base.{ℕ, zero, suc, ◌+◌, ◌-◌, ◌*◌, ◌/◌, ◌^◌, ◌≤◌, ◌<◌, ◌≡◌, refl, sym, ap, ◌∙◌, arith}
use qmsp.Base.{
  List, [], ◌∷◌, ◌++◌, append_assoc, Option, some, false, All, length, length-append, drop,
  drop-append_more, drop-drop, u64, ◌==◌,
}
use qmsp.ChatFiles.Stdio.{print_number, is_digit}
use qmsp.ChatFiles.Stdio.Laws.{
  InLine, IsDigit, All-append, All-imp, value, value-print_number, print_number-IsDigit,
  length-print_number,
}
use qmsp.ChatFiles.Reader.{scan_uid, read_perm, user_line}
use qmsp.ChatFiles.Writer.{comma_text}
use qmsp.ChatFiles.Spec.{User, print_bits, user_body, IsUser}

-- Where `grabber` points behind some digits.
unfoldable last_index : ℕ → Option ℕ → List ℕ → Option ℕ
last_index i grabber [] = grabber
last_index i grabber (c ∷ digits) = last_index (i + 1) (some i) digits

last_index-some :
    (i : ℕ) (grabber : Option ℕ) (digits : List ℕ)
    → 1 ≤ length digits
    → last_index i grabber digits ≡ some (i + length digits - 1)
unfolding last_index
last_index-some i grabber [] h = absurd (omega arith)
last_index-some i grabber (c ∷ []) h = ap some (omega arith)
last_index-some i grabber (c ∷ d ∷ digits) h =
    last_index-some (i + 1) (some i) (d ∷ digits) (omega arith) ∙ ap some (omega arith)

scan_digits :
    (i v c : ℕ) (grabber : Option ℕ) (digits rest : List ℕ)
    → All IsDigit digits
    → is_digit c ≡ false
    → scan_uid i v grabber (digits ++ (c ∷ rest))
      ≡ some (value v digits, last_index i grabber digits)
unfolding scan_uid value last_index is_digit
scan_digits i v c grabber [] rest h other = ground arith
scan_digits i v c grabber (d ∷ digits) rest ((low, high), hs) other =
    ground
      (arith, scan_digits (i + 1) (u64 (u64 (v * 10) + (d - 48))) c (some i) digits rest hs other)

half : (n x : ℕ) → x / 2 ^ suc n ≡ x / 2 ^ n / 2
half n x = sym (div-div-eq-div-mul x (2 ^ n) 2 ∙ ap (λ (m : ℕ). x / m) (omega (arith, pow-suc 2 n)))

pub read_bits :
    (n v x : ℕ) (rest : List ℕ)
    → x < 2 ^ 8
    → n ≤ 8
    → v ≡ x / 2 ^ n
    → read_perm n v (print_bits n x ++ rest) ≡ some x
unfolding read_perm print_bits
read_bits zero v x rest byte few known = ap some (omega arith)
read_bits (suc n) v x rest byte few known =
    read_bits n _ x rest byte (omega arith) (omega (arith, half n x, div-le_self x (2 ^ n)))

length-print_bits : (n x : ℕ) → length (print_bits n x) ≡ n
unfolding print_bits
length-print_bits zero x = refl
length-print_bits (suc n) x = ap suc (length-print_bits n x)

print_bits-InLine : (n x : ℕ) → All InLine (print_bits n x)
unfolding print_bits
print_bits-InLine zero x = tt
print_bits-InLine (suc n) x = ((omega arith, λ e. absurd (omega arith)), print_bits-InLine n x)

digits-InLine : (digits : List ℕ) → All IsDigit digits → All InLine digits
digits-InLine digits = All-imp digits (λ c h. (omega arith, λ e. absurd (omega arith)))

-- What is behind the digits of a user's line.
abbrev behind_uid : User → List ℕ
behind_uid u = print_bits 8 u.permissions ++ (comma_text ++ u.nickname)

pub user_body-InLine : (u : User) → IsUser u → All InLine (user_body u)
unfolding user_body
user_body-InLine u h =
    let comma : All InLine comma_text =
      ((omega arith, λ e. absurd (omega arith)), ((omega arith, λ e. absurd (omega arith)), tt)) in
    let name = All-append InLine comma_text u.nickname comma h.nickname_line in
    let bits =
      All-append InLine (print_bits 8 u.permissions) (comma_text ++ u.nickname)
        (print_bits-InLine 8 u.permissions) name in
    let rest = All-append InLine comma_text (behind_uid u) comma bits in
    (
      (omega arith, λ e. absurd (omega arith)),
      All-append InLine (print_number u.uid) (comma_text ++ behind_uid u)
          (digits-InLine (print_number u.uid) (print_number-IsDigit u.uid)) rest,
    )

pub length-user_body : (u : User) → IsUser u → length (user_body u) < 1000
unfolding user_body
length-user_body u h = omega (
  arith,
  length-print_number 10 u.uid h.uid_short (omega arith),
  length-print_bits 8 u.permissions,
  length-append (print_number u.uid) (comma_text ++ behind_uid u),
  length-append (print_bits 8 u.permissions) (comma_text ++ u.nickname),
  h.nickname_short,
)

-- The line of a user, in a buffer: its id is read, and `grabber` points to the last digit of it.
pub user_line-user :
    (u : User) (uid : ℕ) (grabber : Option ℕ) (rest : List ℕ)
    → IsUser u
    → user_line uid grabber (user_body u ++ rest)
      ≡ some (u.uid == uid, some (length (print_number u.uid)))
unfolding user_line user_body is_digit
user_line-user u uid grabber rest h =
    let digits = print_number u.uid in
    let count = length-print_number 10 u.uid h.uid_short (omega arith) in
    rw
      (
        append_assoc digits (comma_text ++ behind_uid u) rest,
        scan_digits 1 0 44 grabber digits (32 ∷ (behind_uid u ++ rest)) (print_number-IsDigit u.uid)
            refl,
        value-print_number u.uid (omega (arith, h.uid_short)),
        last_index-some 1 grabber digits count.0,
      )
      (ap (λ i. some (u.uid == uid, some i)) (omega arith))

-- Behind `grabber`, which points to the last digit, the permissions follow in three bytes.
pub drop_to_bits :
    (u : User) (rest : List ℕ)
    → IsUser u
    → drop 3 (drop (length (print_number u.uid)) (user_body u ++ rest)) ≡ behind_uid u ++ rest
unfolding user_body
drop_to_bits u rest h =
    let digits = print_number u.uid in
    let n = length digits in
    let line = b'\t' ∷ (digits ++ (44 ∷ 32 ∷ (behind_uid u ++ rest))) in
    drop-drop 3 n _
    ∙ ap (λ l. drop (n + 3) (b'\t' ∷ l)) (append_assoc digits (44 ∷ 32 ∷ behind_uid u) rest)
    ∙ drop-append_more (n + 3) 2 (b'\t' ∷ digits) (44 ∷ 32 ∷ (behind_uid u ++ rest)) (omega arith)

-- And the nickname in thirteen.
pub drop_to_nickname :
    (u : User) (rest : List ℕ)
    → IsUser u
    → drop 13 (drop (length (print_number u.uid)) (user_body u ++ rest)) ≡ u.nickname ++ rest
drop_to_nickname u rest h =
    let n = length (print_number u.uid) in
    let bits = print_bits 8 u.permissions in
    drop-drop 13 n _
    ∙ ap (λ k. drop k (user_body u ++ rest)) {y = n + 3 + 10} (omega arith)
    ∙ sym (drop-drop 10 (n + 3) _)
    ∙ ap (drop 10) (
        sym (drop-drop 3 n _)
        ∙ drop_to_bits u rest h
        ∙ append_assoc bits (comma_text ++ u.nickname) rest)
    ∙ drop-append_more 10 2 bits (comma_text ++ (u.nickname ++ rest))
        (omega (arith, length-print_bits 8 u.permissions))
