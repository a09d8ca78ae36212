-- ===== src/ColorNames/Laws.antt =====
-- colorNames.c: which colour a text is mapped to.
use qmsp.Base.{ℕ, ◌≡◌, refl, arith, Option, none, some, List, [], ◌∷◌, ◌++◌, All, length}
use qmsp.Base.{ap, ◌∙◌, Bool, ltb, ◌&&◌, true, if◌then◌else◌, ◌==◌}
use qmsp.Base.Memory.{Platform}
use qmsp.StringCompare.{string_case_cmp_seg}
use qmsp.StringCompare.Laws.{IsChar, begins, string_case_cmp_seg_lem}
use qmsp.ColorNames.{ColorName, color_names, try_names, map_name}

-- The first colour whose name begins the text, but for the case of their letters.
unfoldable pub first_color : List ColorName → List ℕ → Option ℕ × Option ℕ
first_color [] s = (none, none)
first_color (e ∷ es) s =
    let rest = first_color es s in
    if begins e.name s then (some e.color, some (length e.name)) else rest

-- The name is a text, and the length that is compared is its own.
pub record IsName (e : ColorName) : Type 0 where
  pub chars : All IsChar e.name
  pub whole : e.len ≡ length e.name

try_names-first_color :
    (p : Platform) (es : List ColorName) (s after_s : List ℕ)
    → All IsName es
    → All IsChar s
    → try_names p es (s ++ (0 ∷ after_s)) ≡ some (first_color es s)
unfolding try_names first_color
try_names-first_color p [] s after_s hes hs = refl
try_names-first_color p (e ∷ es) s after_s (he, hes) hs =
    let (d, eq, same) = string_case_cmp_seg_lem p s e.name after_s [] 0 hs he.chars in
    let eq' : string_case_cmp_seg p (s ++ (0 ∷ after_s)) (e.name ++ (0 ∷ [])) (length e.name) 0
        ≡ some d =
      ap (λ m. string_case_cmp_seg p (s ++ (0 ∷ after_s)) (e.name ++ (0 ∷ [])) m 0) (omega arith)
      ∙ eq in
    rw (he.whole, eq') (ground (arith, same, try_names-first_color p es s after_s hes hs))

chars_fit : List ℕ → Bool
chars_fit [] = true
chars_fit (c ∷ s) = ltb 0 c && ltb c 256 && chars_fit s

chars_fit-IsChar : (s : List ℕ) → chars_fit s ≡ true → All IsChar s
unfolding chars_fit
chars_fit-IsChar [] h = tt
chars_fit-IsChar (c ∷ s) h = ((ground arith, ground arith), chars_fit-IsChar s (ground arith))

names_fit : List ColorName → Bool
names_fit [] = true
names_fit (e ∷ es) = chars_fit e.name && e.len == length e.name && names_fit es

names_fit-IsName : (es : List ColorName) → names_fit es ≡ true → All IsName es
unfolding names_fit
names_fit-IsName [] h = tt
names_fit-IsName (e ∷ es) h = (
  record { chars = chars_fit-IsChar e.name (ground arith); whole = ground arith },
  names_fit-IsName es (ground arith),
)

color_names_fit : names_fit color_names ≡ true
unfolding names_fit chars_fit color_names
color_names_fit = refl

-- A text is mapped to the first colour of the list whose name begins it, whatever the case of the
-- letters, and `lastLen` is the length of that name; to BADCOLOR and -1 where there is none.
pub map_name_lem :
    (p : Platform) (s after_s : List ℕ)
    → All IsChar s
    → map_name p (s ++ (0 ∷ after_s)) ≡ some (first_color color_names s)
unfolding map_name
map_name_lem p s after_s hs =
    try_names-first_color p color_names s after_s (names_fit-IsName color_names color_names_fit) hs
