-- ===== src/StringCompare/Laws.antt =====
-- stringCompareAnyCase.c: what the comparisons answer on terminated strings.
use qmsp.Base.{ℕ, zero, suc, ◌+◌, ◌-◌, ◌<◌, ◌≡◌, refl, arith, bit_and, some}
use qmsp.Base.{
  ap, ◌∙◌, length, List, [], ◌∷◌, ◌++◌, Bool, true, false, ◌&&◌, ◌==◌, leb, truthy, if◌then◌else◌,
  All,
}
use qmsp.Base.Memory.{Platform}
use qmsp.StringCompare.{capital, char_value, char_difference, string_case_cmp, string_case_cmp_seg}

-- A character of a text: a byte that is no terminator.
abbrev pub IsChar : ℕ → Type 0
IsChar c = (0 < c) × (c < 256)

letters_below : ℕ → Bool
letters_below zero = true
letters_below (suc n) = bit_and (97 + n) 0x5f == 65 + n && letters_below n

letter_mask : (n j : ℕ) → letters_below n ≡ true → j < n → bit_and (97 + j) 0x5f ≡ 65 + j
unfolding letters_below
letter_mask zero j table less = absurd (omega arith)
letter_mask (suc n) j table less = ground (arith, letter_mask n j)

all_letters : letters_below 26 ≡ true
unfolding letters_below
all_letters = refl

-- The case of a letter is 32 away.
pub capital_lem : (c : ℕ) → capital c ≡ (if leb 97 c && leb c 122 then c - 32 else c)
unfolding capital
capital_lem c = ground (arith, letter_mask 26 (c - 97) all_letters)

difference_same :
    (p : Platform) (a b : ℕ)
    → a < 256
    → b < 256
    → truthy (char_difference p a b) ≡ (if a == b then false else true)
unfolding char_difference char_value
difference_same p a b ha hb = ground arith

capital_small : (c : ℕ) → c < 256 → capital c < 256
capital_small c h = ground (arith, capital_lem c)

capital_char : (c : ℕ) → 0 < c → 0 < capital c
capital_char c h = ground (arith, capital_lem c)

capital_zero : capital 0 ≡ 0
unfolding capital
capital_zero = refl

differ :
    (p : Platform) (c d : ℕ)
    → c < 256
    → d < 256
    → truthy (char_difference p (capital c) (capital d))
      ≡ (if capital c == capital d then false else true)
differ p c d hc hd =
    difference_same p (capital c) (capital d) (capital_small c hc) (capital_small d hd)

-- The texts are the same but for the case of their letters.
unfoldable pub same_text : List ℕ → List ℕ → Bool
same_text [] [] = true
same_text [] (d ∷ t) = false
same_text (c ∷ s) [] = false
same_text (c ∷ s) (d ∷ t) = capital c == capital d && same_text s t

-- Two texts behind which the memory has a terminator are compared to the end, and the answer is 0
-- exactly where they are the same but for the case of their letters.
pub string_case_cmp_lem :
    (p : Platform) (s t after_s after_t : List ℕ)
    → All IsChar s
    → All IsChar t
    → (d : ℕ) × (string_case_cmp p (s ++ (0 ∷ after_s)) (t ++ (0 ∷ after_t)) ≡ some d)
      × ((d == 0) ≡ same_text s t)
unfolding string_case_cmp same_text
string_case_cmp_lem p [] [] after_s after_t hs ht = (0, refl, refl)
string_case_cmp_lem p [] (d ∷ t) after_s after_t hs (h, ht) = (
  char_difference p (capital 0) (capital d),
  ground (arith, differ p 0 d (omega arith) h.1, capital_char d h.0, capital_zero),
  ground (arith, differ p 0 d (omega arith) h.1, capital_char d h.0, capital_zero),
)
string_case_cmp_lem p (c ∷ s) [] after_s after_t (h, hs) ht = (
  char_difference p (capital c) (capital 0),
  ground (arith, differ p c 0 h.1 (omega arith), capital_char c h.0, capital_zero),
  ground (arith, differ p c 0 h.1 (omega arith), capital_char c h.0, capital_zero),
)
string_case_cmp_lem p (c ∷ s) (d ∷ t) after_s after_t (hc, hs) (hd, ht) =
    let (rest, eq, same) = string_case_cmp_lem p s t after_s after_t hs ht in
    (
      (if truthy (char_difference p (capital c) (capital d))
          then char_difference p (capital c) (capital d)
          else rest),
      ground (arith, differ p c d hc.1 hd.1, eq, same),
      ground (arith, differ p c d hc.1 hd.1, eq, same),
    )

-- The name begins the text, but for the case of their letters.
unfoldable pub begins : List ℕ → List ℕ → Bool
begins [] s = true
begins (n ∷ name) [] = false
begins (n ∷ name) (c ∷ s) = capital c == capital n && begins name s

-- Comparing the first characters of a text with a whole name: the comparison ends inside both
-- strings, and the answer is 0 exactly where the name begins the text, but for the letters' case.
pub string_case_cmp_seg_lem :
    (p : Platform) (s name after_s after_name : List ℕ) (checked : ℕ)
    → All IsChar s
    → All IsChar name
    → (d : ℕ) × (string_case_cmp_seg p
          (s ++ (0 ∷ after_s))
          (name ++ (0 ∷ after_name))
          (checked + length name)
          checked
        ≡ some d)
      × ((d == 0) ≡ begins name s)
unfolding string_case_cmp_seg begins
string_case_cmp_seg_lem p [] [] after_s after_name checked hs hn = (0, ground arith, refl)
string_case_cmp_seg_lem p (c ∷ s) [] after_s after_name checked hs hn = (0, ground arith, refl)
string_case_cmp_seg_lem p [] (n ∷ name) after_s after_name checked hs (h, hn) = (
  char_difference p (capital 0) (capital n),
  ground (arith, differ p 0 n (omega arith) h.1, capital_char n h.0, capital_zero),
  ground (arith, differ p 0 n (omega arith) h.1, capital_char n h.0, capital_zero),
)
string_case_cmp_seg_lem p (c ∷ s) (n ∷ name) after_s after_name checked (hc, hs) (hn, hns) =
    let (rest, eq, same) =
      string_case_cmp_seg_lem p s name after_s after_name (checked + 1) hs hns in
    let eq' : string_case_cmp_seg p (s ++ (0 ∷ after_s)) (name ++ (0 ∷ after_name))
          (checked + suc (length name)) (checked + 1)
        ≡ some rest =
      ap
        (λ m. string_case_cmp_seg p (s ++ (0 ∷ after_s)) (name ++ (0 ∷ after_name)) m (checked + 1))
        (omega arith)
      ∙ eq in
    (
      if truthy (char_difference p (capital c) (capital n))
          then char_difference p (capital c) (capital n)
          else rest,
      ground (arith, differ p c n hc.1 hn.1, eq', same),
      ground (arith, differ p c n hc.1 hn.1, eq', same),
    )
