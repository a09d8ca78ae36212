-- ===== src/ChatFiles/Stdio/Laws.antt =====
-- Reading lines and printing numbers: what the model of the C library answers.
use native.Mathlib.Nat.{pow-suc}
use qmsp.Base.{ℕ, zero, suc, ◌+◌, ◌-◌, ◌*◌, ◌/◌, ◌%◌, ◌^◌, ◌≤◌, ◌<◌, ◌≡◌, ◌≢◌, refl, ap, ◌∙◌, arith}
use qmsp.Base.{
  List, [], ◌∷◌, ◌++◌, Bool-cases, inl, inr, true, some, All, length, length-append, drop, ltb, u64,
}
use qmsp.ChatFiles.Stdio.{
  take_line, fgets, begins_with, equal_text, print_digits, print_number, put_text, text_of,
}

abbrev pub InLine : ℕ → Type 0
InLine c = (0 < c) × (c ≢ 10)

abbrev pub IsDigit : ℕ → Type 0
IsDigit c = (48 ≤ c) × (c ≤ 57)

module _ {ℓ} {A : Type ℓ} (P : A → Type 0) where
  pub All-append : (xs ys : List A) → All P xs → All P ys → All P (xs ++ ys)
  All-append [] ys h k = k
  All-append (x ∷ xs) ys (h, hs) k = (h, All-append xs ys hs k)

pub All-imp : {P Q : ℕ → Type 0} (xs : List ℕ) → ((x : ℕ) → P x → Q x) → All P xs → All Q xs
All-imp [] f h = tt
All-imp (x ∷ xs) f (h, hs) = (f x h, All-imp xs f hs)

take_line-line :
    (n : ℕ) (body rest : List ℕ)
    → All InLine body
    → length body < n
    → take_line n (body ++ (10 ∷ rest)) ≡ (body ++ (10 ∷ []), rest)
unfolding take_line
take_line-line zero body rest h short = absurd (omega arith)
take_line-line (suc n) [] rest h short = refl
take_line-line (suc n) (c ∷ body) rest (h, hs) short = ground (arith, take_line-line n body rest hs)

-- A whole line is read where the buffer has room for it and a terminator.
pub fgets_line :
    (n : ℕ) (body rest : List ℕ)
    → All InLine body
    → length body + 1 < n
    → fgets n (body ++ (10 ∷ rest)) ≡ some (body ++ (10 ∷ []), rest)
unfolding fgets
fgets_line n [] rest h short = ap some (take_line-line (n - 1) [] rest h (omega arith))
fgets_line n (c ∷ body) rest h short =
    ap some (take_line-line (n - 1) (c ∷ body) rest h (omega arith))

text_of-ended : (text rest : List ℕ) → All (λ c. 0 < c) text → text_of (text ++ (0 ∷ rest)) ≡ text
unfolding text_of
text_of-ended [] rest h = refl
text_of-ended (c ∷ text) rest (h, hs) = ground (arith, text_of-ended text rest hs)

pub text_of-put_text :
    (text buf : List ℕ) → All (λ c. 0 < c) text → text_of (put_text text buf) ≡ text
unfolding put_text
text_of-put_text text buf h = text_of-ended text (drop (length text + 1) buf) h

pub print_digits-IsDigit : (k n : ℕ) → All IsDigit (print_digits k n)
unfolding print_digits
print_digits-IsDigit zero n = tt
print_digits-IsDigit (suc k) n = elim (Bool-cases (ltb n 10)) [
  | inl e ↦ rw e ((ground arith, ground arith), tt)
  | inr e ↦ rw e (
      All-append IsDigit (print_digits k (n / 10)) ((48 + n % 10) ∷ [])
        (print_digits-IsDigit k (n / 10)) ((omega arith, omega arith), tt))
]

pub length-print_digits : (k j n : ℕ) → n < 10 ^ j → 1 ≤ j → length (print_digits k n) ≤ j
unfolding print_digits
length-print_digits zero j n h positive = omega arith
length-print_digits (suc k) zero n h positive = absurd (omega arith)
length-print_digits (suc k) (suc zero) n h positive = ground arith
length-print_digits (suc k) (suc (suc j)) n h positive = elim (Bool-cases (ltb n 10)) [
  | inl e ↦ rw e (omega arith)
  | inr e ↦ rw e (
      omega (
        arith,
        length-append (print_digits k (n / 10)) ((48 + n % 10) ∷ []),
        length-print_digits k (suc j) (n / 10),
        pow-suc 10 (suc j),
      ))
]

pub print_digits-some : (k n : ℕ) → 1 ≤ k → 1 ≤ length (print_digits k n)
unfolding print_digits
print_digits-some zero n h = absurd (omega arith)
print_digits-some (suc k) n h = elim (Bool-cases (ltb n 10)) [
  | inl e ↦ rw e (omega arith)
  | inr e ↦ rw e (omega (arith, length-append (print_digits k (n / 10)) ((48 + n % 10) ∷ [])))
]

-- The number that digits stand for, as both readers accumulate it.
unfoldable pub value : ℕ → List ℕ → ℕ
value v [] = v
value v (c ∷ digits) = value (u64 (u64 (v * 10) + (c - 48))) digits

value-append :
    (v d : ℕ) (digits : List ℕ)
    → value v (digits ++ (d ∷ [])) ≡ u64 (u64 (value v digits * 10) + (d - 48))
unfolding value
value-append v d [] = refl
value-append v d (c ∷ digits) = value-append (u64 (u64 (v * 10) + (c - 48))) d digits

pub value-print_digits : (k n : ℕ) → n < 10 ^ k → n < 2 ^ 64 → value 0 (print_digits k n) ≡ n
unfolding print_digits
value-print_digits zero n h word = unfold value in omega arith
value-print_digits (suc k) n h word = elim (Bool-cases (ltb n 10)) [
  | inl e ↦ rw e (unfold value in ground arith)
  | inr e ↦ rw e (
      value-append 0 (48 + n % 10) (print_digits k (n / 10))
      ∙ rw (value-print_digits k (n / 10) (omega (arith, pow-suc 10 k)) (omega arith))
          (omega arith))
]

pub value-print_number : (n : ℕ) → n < 2 ^ 64 → value 0 (print_number n) ≡ n
unfolding print_number
value-print_number n word = value-print_digits 20 n (omega arith) word

pub print_number-IsDigit : (n : ℕ) → All IsDigit (print_number n)
unfolding print_number
print_number-IsDigit n = print_digits-IsDigit 20 n

pub length-print_number :
    (j n : ℕ) → n < 10 ^ j → 1 ≤ j → (1 ≤ length (print_number n)) × (length (print_number n) ≤ j)
unfolding print_number
length-print_number j n h positive =
    (print_digits-some 20 n (omega arith), length-print_digits 20 j n h positive)

pub begins_with-append : (xs ys : List ℕ) → begins_with (xs ++ ys) xs ≡ true
unfolding begins_with
begins_with-append [] ys = refl
begins_with-append (x ∷ xs) ys = ground (arith, begins_with-append xs ys)

pub equal_text_self : (xs : List ℕ) → equal_text xs xs ≡ true
unfolding equal_text
equal_text_self [] = refl
equal_text_self (x ∷ xs) = ground (arith, equal_text_self xs)
