-- ===== src/Arguments/Laws.antt =====
-- OriginalLinuxCode/quichelper.h: the flags and the values that are found.
use mathlib.Core.Path.{subst}
use qmsp.Base.{
  ℕ, suc, ◌+◌, ◌<◌, ◌≡◌, ◌≢◌, refl, sym, ap, ◌∙◌, arith, ◌⊎◌, inl, inr, List, [], ◌∷◌, ◌++◌, none,
  some, Bool, true, false, ◌&&◌, ◌==◌, ltb, leb, if◌then◌else◌, length, length-append, drop, All,
  Bool-cases, drop-append_self, append_assoc,
}
use qmsp.ByteSwap.{first_byte}
use qmsp.Arguments.{get_flag, get_value}

abbrev pub lower : ℕ → ℕ
lower c = if leb 65 c && leb c 90 then c + 32 else c

-- The same text but for the case of its letters.
abbrev pub Alike : List ℕ → List ℕ → Type 0
Alike [] [] = Unit
Alike [] (d ∷ name) = ⊥
Alike (c ∷ text) [] = ⊥
Alike (c ∷ text) (d ∷ name) = (lower c ≡ lower d) × Alike text name

-- What is documented of `strncasecmp`, up to the length of its second text: it gives 0 exactly where the
-- first text begins with one that is alike.
pub record ComparesNames (strnicmp : List ℕ → List ℕ → ℕ → Bool) : Type 0 where
  pub on_alike :
      (front rest name : List ℕ)
      → Alike front name
      → strnicmp (front ++ rest) name (length name) ≡ true
  pub only_alike :
      (text name : List ℕ)
      → strnicmp text name (length name) ≡ true
      → (front : List ℕ) × (rest : List ℕ) × (text ≡ front ++ rest) × Alike front name

abbrev pub IsSomething : List ℕ → Type 0
IsSomething [] = ⊥
IsSomething (c ∷ arg) = Unit

-- A character, and the name behind it.
abbrev pub IsFlag : List ℕ → List ℕ → Type 0
IsFlag name [] = ⊥
IsFlag name (c ∷ arg) = Alike arg name

abbrev pub HasFlag : List ℕ → List (List ℕ) → Type 0
HasFlag name [] = ⊥
HasFlag name (arg ∷ argv) = IsFlag name arg ⊎ HasFlag name argv

length-Alike : (text name : List ℕ) → Alike text name → length text ≡ length name
length-Alike [] [] h = refl
length-Alike [] (d ∷ name) h = absurd h
length-Alike (c ∷ text) [] h = absurd h
length-Alike (c ∷ text) (d ∷ name) (h, hs) = ap suc (length-Alike text name hs)

-- No name, a colon and a value behind a character.
abbrev pub NoValue : List ℕ → List ℕ → Type 0
NoValue name [] = ⊥
NoValue name (c ∷ arg) =
    (front value : List ℕ) → Alike front name → IsSomething value → arg ≢ front ++ (58 ∷ value)

no_rest : (front rest : List ℕ) → length (front ++ rest) ≡ length front → rest ≡ []
no_rest [] [] h = refl
no_rest [] (c ∷ rest) h = absurd (omega (arith, h))
no_rest (d ∷ front) rest h = no_rest front rest (omega (arith, h))

append-end : (front : List ℕ) → front ++ [] ≡ front
append-end [] = refl
append-end (c ∷ front) = ap (λ l. c ∷ l) (append-end front)

append_nothing : (front rest arg : List ℕ) → arg ≡ front ++ rest → rest ≡ [] → arg ≡ front
append_nothing front rest arg split nothing =
    split ∙ ap (λ r. front ++ r) nothing ∙ append-end front

something-some : (value : List ℕ) → IsSomething value → 0 < length value
something-some [] h = absurd h
something-some (c ∷ value) h = omega arith

IsSomething-pos : (value : List ℕ) → 0 < length value → IsSomething value
IsSomething-pos [] h = absurd (omega (arith, h))
IsSomething-pos (c ∷ value) h = tt

module _ (strnicmp : List ℕ → List ℕ → ℕ → Bool) (compares : ComparesNames strnicmp) where
  flag_hit :
      (c : ℕ) (arg name : List ℕ)
      → Alike arg name
      → (strnicmp arg name (length name) ≡ true) × (length (c ∷ arg) ≡ length name + 1)
  flag_hit c arg name h = (
    ap (λ l. strnicmp l name (length name)) (sym (append-end arg))
        ∙ compares.on_alike arg [] name h,
    omega (arith, length-Alike arg name h),
  )

  flag_miss :
      (c : ℕ) (arg name : List ℕ)
      → strnicmp arg name (length name) ≡ true
      → length (c ∷ arg) ≡ length name + 1
      → Alike arg name
  flag_miss c arg name alike long =
      let (front, rest, split, like) = compares.only_alike arg name alike in
      let same : length (front ++ rest) ≡ length front =
        omega (arith, ap length split, long, length-Alike front name like) in
      subst (λ l. Alike l name)
        (sym (append_nothing front rest arg split (no_rest front rest same))) like

  flag_else :
      (c : ℕ) (arg name : List ℕ) (argv : List (List ℕ)) (found : Bool)
      → (strnicmp arg name (length name) && length (c ∷ arg) == length name + 1) ≡ false
      → (HasFlag name argv → found ≡ true)
      → HasFlag name ((c ∷ arg) ∷ argv)
      → found ≡ true
  flag_else c arg name argv found e all (inl here) =
      let (alike, long) = flag_hit c arg name here in absurd (ground (arith, alike, long, e))
  flag_else c arg name argv found e all (inr later) = all later

  -- Among arguments none of which is empty, GetFlag tells whether one is a character with the name behind
  -- it, whatever the case of its letters, where `_strnicmp` compares names as it is documented to.
  pub get_flag_lem :
      (argv : List (List ℕ)) (name : List ℕ)
      → All IsSomething argv
      → (found : Bool) × (get_flag strnicmp argv name ≡ some found)
        × (found ≡ true → HasFlag name argv)
        × (HasFlag name argv → found ≡ true)
  unfolding get_flag
  get_flag_lem [] name h = (false, refl, λ e. cc, λ e. absurd e)
  get_flag_lem ([] ∷ argv) name (h, hs) = absurd h
  get_flag_lem ((c ∷ arg) ∷ argv) name (h, hs) =
      let (found, told, only, all) = get_flag_lem argv name hs in
      elim (Bool-cases (strnicmp arg name (length name) && length (c ∷ arg) == length name + 1)) [
        | inl e ↦ (
          true,
          rw e refl,
          λ t. inl (flag_miss c arg name (ground arith) (ground arith)),
          λ t. refl,
        )
        | inr e ↦ (found, rw e told, λ t. inr (only t), flag_else c arg name argv found e all)
      ]

  value_hit :
      (c : ℕ) (front name value : List ℕ)
      → Alike front name
      → IsSomething value
      → (strnicmp (front ++ (58 ∷ value)) name (length name) ≡ true)
        × (1 + length name + 1 < length (c ∷ (front ++ (58 ∷ value))))
        × (drop (length name) (front ++ (58 ∷ value)) ≡ 58 ∷ value)
        × (drop (length name + 1) (front ++ (58 ∷ value)) ≡ value)
  value_hit c front name value like something = (
    compares.on_alike front (58 ∷ value) name like,
    omega (
      arith,
      length-Alike front name like,
      something-some value something,
      length-append front (58 ∷ value),
    ),
    drop-append_self (length name) front (58 ∷ value) (sym (length-Alike front name like)),
    ap (drop (length name + 1)) (sym (append_assoc front (58 ∷ []) value))
        ∙ drop-append_self (length name + 1) (front ++ (58 ∷ [])) value
            (omega (arith, length-Alike front name like, length-append front (58 ∷ []))),
  )

  value_miss :
      (c : ℕ) (arg name front rest : List ℕ)
      → NoValue name (c ∷ arg)
      → arg ≡ front ++ rest
      → Alike front name
      → 1 + length name + 1 < length (c ∷ arg)
      → first_byte (drop (length name) arg) ≢ 58
  value_miss c arg name front [] no_value split like long colon =
      absurd
        (omega (arith, ap length split, length-append front [], length-Alike front name like, long))
  value_miss c arg name front (d ∷ value) no_value split like long colon =
      let size = length-append front (d ∷ value) in
      let longer : 0 < length value =
        omega (arith, ap length split, size, length-Alike front name like, long) in
      let here : drop (length name) arg ≡ d ∷ value =
        ap (drop (length name)) split
        ∙ drop-append_self (length name) front (d ∷ value) (sym (length-Alike front name like)) in
      let is_colon : d ≡ 58 = sym (ap first_byte here) ∙ colon in
      no_value front value like (IsSomething-pos value longer)
        (split ∙ ap (λ x. front ++ (x ∷ value)) is_colon)

  abbrev value_test : List ℕ → ℕ → List ℕ → Bool
  value_test arg c name =
      strnicmp arg name (length name)
      && (ltb (1 + length name + 1) (length (c ∷ arg)) && first_byte (drop (length name) arg) == 58)

  NoValue-test :
      (c : ℕ) (arg name : List ℕ) → NoValue name (c ∷ arg) → value_test arg c name ≡ false
  NoValue-test c arg name no_value = elim (Bool-cases (strnicmp arg name (length name))) [
    | inr e ↦ ground (arith, e)
    | inl e ↦
        let (front, rest, split, like) = compares.only_alike arg name e in
        ground (arith, e, value_miss c arg name front rest no_value split like)
  ]

  -- GetValue passes by each argument, none of them empty, that is not a character, the name in any case of
  -- its letters, a colon and a value. From the first that is, it returns the value, and NULL if there is
  -- none. This holds where `_strnicmp` compares names as it is documented to.
  pub get_value_lem :
      (before after : List (List ℕ)) (name front value : List ℕ) (c : ℕ)
      → All (NoValue name) before
      → Alike front name
      → IsSomething value
      → (get_value strnicmp (before ++ ((c ∷ (front ++ (58 ∷ value))) ∷ after)) name
          ≡ some (some value))
        × (get_value strnicmp before name ≡ some none)
  unfolding get_value
  get_value_lem [] after name front value c h like something =
      let (alike, long, colon, behind) = value_hit c front name value like something in
      (ground (arith, alike, long, ap first_byte colon, behind), refl)
  get_value_lem ([] ∷ before) after name front value c (h, hs) like something = absurd h
  get_value_lem ((d ∷ arg) ∷ before) after name front value c (h, hs) like something =
      let (found, null) = get_value_lem before after name front value c hs like something in
      let passed = NoValue-test d arg name h in (rw passed found, rw passed null)
