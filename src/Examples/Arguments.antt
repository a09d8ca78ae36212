-- ===== src/Examples/Arguments.antt =====
-- Looking up arguments, with a comparison of texts that keeps to the documentation.
use qmsp.Base.{
  ℕ, zero, suc, ◌≡◌, refl, ap, arith, List, [], ◌∷◌, ◌++◌, none, some, Bool, true, false, ◌&&◌,
  ◌==◌, length, length-append,
}
use qmsp.Arguments.{get_flag, get_value}
use qmsp.Arguments.Laws.{lower, Alike, ComparesNames, HasFlag, NoValue, get_flag_lem, get_value_lem}

compare_upto : List ℕ → List ℕ → ℕ → Bool
compare_upto text name zero = true
compare_upto [] [] (suc n) = true
compare_upto [] (d ∷ name) (suc n) = false
compare_upto (c ∷ text) [] (suc n) = false
compare_upto (c ∷ text) (d ∷ name) (suc n) = lower c == lower d && compare_upto text name n

compare_next :
    (c d : ℕ) (text name : List ℕ)
    → compare_upto (c ∷ text) (d ∷ name) (length (d ∷ name))
      ≡ (lower c == lower d && compare_upto text name (length name))
unfolding compare_upto
compare_next c d text name = refl

compare_none : (text : List ℕ) → compare_upto text [] 0 ≡ true
unfolding compare_upto
compare_none text = refl

compare_short : (d : ℕ) (name : List ℕ) → compare_upto [] (d ∷ name) (length (d ∷ name)) ≡ false
unfolding compare_upto
compare_short d name = refl

compare-Alike :
    (front rest name : List ℕ)
    → Alike front name
    → compare_upto (front ++ rest) name (length name) ≡ true
compare-Alike [] rest [] h = compare_none rest
compare-Alike [] rest (d ∷ name) h = absurd h
compare-Alike (c ∷ front) rest [] h = absurd h
compare-Alike (c ∷ front) rest (d ∷ name) (h, hs) =
    ground (arith, compare_next c d (front ++ rest) name, h, compare-Alike front rest name hs)

Alike-compare :
    (text name : List ℕ)
    → compare_upto text name (length name) ≡ true
    → (front : List ℕ) × (rest : List ℕ) × (text ≡ front ++ rest) × Alike front name
Alike-compare text [] h = ([], text, refl, tt)
Alike-compare [] (d ∷ name) h = absurd (ground (arith, compare_short d name, h))
Alike-compare (c ∷ text) (d ∷ name) h =
    let next = compare_next c d text name in
    let (front, rest, split, like) = Alike-compare text name (ground (arith, next, h)) in
    (c ∷ front, rest, ap (λ l. c ∷ l) split, (ground (arith, next, h), like))

compare_upto-ComparesNames : ComparesNames compare_upto
compare_upto-ComparesNames = record { on_alike = compare-Alike; only_alike = Alike-compare }

-- "QUICchat", "-Client", "-chat:7".
abbrev argv : List (List ℕ)
argv = (b'Q' ∷ b'U' ∷ b'I' ∷ b'C' ∷ []) ∷ (b'-' ∷ b'C' ∷ b'l' ∷ b'i' ∷ b'e' ∷ b'n' ∷ b't' ∷ []) ∷ []

abbrev client : List ℕ
client = b'c' ∷ b'l' ∷ b'i' ∷ b'e' ∷ b'n' ∷ b't' ∷ []

abbrev chat : List ℕ
chat = b'c' ∷ b'h' ∷ b'a' ∷ b't' ∷ []

get_flag_lem_example :
    (found : Bool) × (get_flag compare_upto argv client ≡ some found)
    × (found ≡ true → HasFlag client argv)
    × (HasFlag client argv → found ≡ true)
get_flag_lem_example =
    get_flag_lem compare_upto compare_upto-ComparesNames argv client (tt, (tt, tt))

no_chat : NoValue chat (b'Q' ∷ [])
no_chat [] value like something same = absurd like
no_chat (c ∷ front) [] like something same = absurd something
no_chat (c ∷ front) (d ∷ value) like something same =
    omega (arith, ap length same, length-append front (58 ∷ d ∷ value))

get_value_lem_example :
    (get_value compare_upto
        ((b'Q' ∷ []) ∷ (b'-' ∷ b'C' ∷ b'H' ∷ b'a' ∷ b't' ∷ b':' ∷ b'7' ∷ []) ∷ argv)
        chat
      ≡ some (some (b'7' ∷ [])))
    × (get_value compare_upto ((b'Q' ∷ []) ∷ []) chat ≡ some none)
get_value_lem_example =
    get_value_lem compare_upto compare_upto-ComparesNames ((b'Q' ∷ []) ∷ []) argv chat
      (b'C' ∷ b'H' ∷ b'a' ∷ b't' ∷ []) (b'7' ∷ []) b'-' (no_chat, tt)
      (refl, (refl, (refl, (refl, tt)))) tt
