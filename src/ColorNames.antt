-- ===== src/ColorNames.antt =====
-- colorNames.c: the colour that a name begins with. The names are looked for in the code's order;
-- the global `lastLen` is a result, `none` for its -1, and so is BADCOLOR.
pub mod Laws
use qmsp.Base.{ℕ, Option, none, some, ◌>>=◌, List, [], ◌∷◌, ◌++◌, ◌==◌, if◌then◌else◌}
use qmsp.Base.Memory.{Platform}
use qmsp.StringCompare.{string_case_cmp_seg}

-- One `if` of `mapName`: the name, the length that is compared, and the colour.
pub record ColorName : Type 0 where
  pub name : List ℕ
  pub len : ℕ
  pub color : ℕ

abbrev color_name : List ℕ → ℕ → ℕ → ColorName
color_name name len color = record { name = name; len = len; color = color }

-- The names are string literals: WHITE, SILVER, GRAY, and so on.
unfoldable pub color_names : List ColorName
color_names =
    color_name (87 ∷ 72 ∷ 73 ∷ 84 ∷ 69 ∷ []) 5 0xFFFFFF
    ∷ color_name (83 ∷ 73 ∷ 76 ∷ 86 ∷ 69 ∷ 82 ∷ []) 6 0xC0C0C0
    ∷ color_name (71 ∷ 82 ∷ 65 ∷ 89 ∷ []) 4 0x808080
    ∷ color_name (66 ∷ 76 ∷ 65 ∷ 67 ∷ 75 ∷ []) 5 0x000000
    ∷ color_name (82 ∷ 69 ∷ 68 ∷ []) 3 0xFF0000
    ∷ color_name (77 ∷ 65 ∷ 82 ∷ 79 ∷ 79 ∷ 78 ∷ []) 6 0x800000
    ∷ color_name (89 ∷ 69 ∷ 76 ∷ 76 ∷ 79 ∷ 87 ∷ []) 6 0xFFFF00
    ∷ color_name (79 ∷ 76 ∷ 73 ∷ 86 ∷ 69 ∷ []) 5 0x808000
    ∷ color_name (76 ∷ 73 ∷ 77 ∷ 69 ∷ []) 4 0x00FF00
    ∷ color_name (71 ∷ 82 ∷ 69 ∷ 69 ∷ 78 ∷ []) 5 0x008000
    ∷ color_name (65 ∷ 81 ∷ 85 ∷ 65 ∷ []) 4 0x00FFFF
    ∷ color_name (84 ∷ 69 ∷ 65 ∷ 76 ∷ []) 4 0x008080
    ∷ color_name (66 ∷ 76 ∷ 85 ∷ 69 ∷ []) 4 0x0000FF
    ∷ color_name (78 ∷ 65 ∷ 86 ∷ 89 ∷ []) 4 0x000080
    ∷ color_name (70 ∷ 85 ∷ 67 ∷ 72 ∷ 83 ∷ 73 ∷ 65 ∷ []) 7 0xFF00FF
    ∷ color_name (80 ∷ 85 ∷ 82 ∷ 80 ∷ 76 ∷ 69 ∷ []) 6 0x800080
    ∷ color_name (67 ∷ 89 ∷ 65 ∷ 78 ∷ []) 4 0x00FFFF
    ∷ color_name (77 ∷ 65 ∷ 71 ∷ 69 ∷ 78 ∷ 84 ∷ 65 ∷ []) 7 0xFF00FF
    ∷ color_name (79 ∷ 82 ∷ 65 ∷ 78 ∷ 71 ∷ 69 ∷ []) 6 0xFFA500
    ∷ color_name (73 ∷ 78 ∷ 68 ∷ 73 ∷ 71 ∷ 79 ∷ []) 6 0x4B0082
    ∷ color_name (83 ∷ 76 ∷ 65 ∷ 84 ∷ 69 ∷ []) 5 0x708090
    ∷ color_name (71 ∷ 79 ∷ 76 ∷ 68 ∷ []) 4 0xFFD700
    ∷ color_name (80 ∷ 73 ∷ 78 ∷ 75 ∷ []) 4 0xFFC0CB
    ∷ color_name (68 ∷ 82 ∷ 69 ∷ 88 ∷ 69 ∷ 76 ∷ 66 ∷ 76 ∷ 85 ∷ 69 ∷ []) 10 0x07294D
    ∷ color_name (68 ∷ 82 ∷ 69 ∷ 88 ∷ 69 ∷ 76 ∷ 71 ∷ 79 ∷ 76 ∷ 68 ∷ []) 10 0xFFC600
    ∷ []

-- The `if`s from one of them on: the colour and the new `lastLen`.
unfoldable pub try_names : Platform → List ColorName → List ℕ → Option (Option ℕ × Option ℕ)
try_names p [] name = some (none, none)
try_names p (e ∷ es) name =
    let rest = try_names p es name in
    string_case_cmp_seg p name (e.name ++ (0 ∷ [])) e.len 0 >>= λ d.
    if d == 0 then some (some e.color, some e.len) else rest

unfoldable pub map_name : Platform → List ℕ → Option (Option ℕ × Option ℕ)
map_name p name = try_names p color_names name

-- `lastColorNameLen`, of the global that the last call of `mapName` left.
unfoldable pub last_color_name_len : Option ℕ × Option ℕ → Option ℕ
last_color_name_len called = called.1
