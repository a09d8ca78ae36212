-- ===== src/Examples/Text.antt =====
-- stringCompareAnyCase.c, colorNames.c and FtextPacker.c on concrete texts.
use qmsp.Base.{ℕ, ◌^◌, ◌≡◌, ◌≢◌, refl, arith, some, List, [], ◌∷◌, ◌++◌, All, ◌==◌}
use qmsp.StringCompare.{capital, char_value, char_difference, string_case_cmp, string_case_cmp_seg}
use qmsp.StringCompare.Laws.{IsChar, same_text, string_case_cmp_lem}
use qmsp.ColorNames.{color_names, try_names, map_name}
use qmsp.ColorNames.Laws.{first_color, map_name_lem}
use qmsp.FtextPacker.{
  valid, stuck, round, round_size, read_size, is_digit, command_loop, is_valid_format_cmd,
}
use qmsp.FtextPacker.Laws.{is_valid_format_cmd_ends}
use qmsp.FtextPacker.Colors.{color_ahead, is_valid_format_cmd-color}
use qmsp.Examples.{x86_64}

-- "Red" and "rED".
abbrev red : List ℕ
red = 82 ∷ 101 ∷ 100 ∷ []

abbrev red_other_case : List ℕ
red_other_case = 114 ∷ 69 ∷ 68 ∷ []

red-IsChar : All IsChar red
red-IsChar =
    ((omega arith, omega arith), ((omega arith, omega arith), ((omega arith, omega arith), tt)))

red_other_case-IsChar : All IsChar red_other_case
red_other_case-IsChar =
    ((omega arith, omega arith), ((omega arith, omega arith), ((omega arith, omega arith), tt)))

red_is_red : string_case_cmp x86_64 (red ++ (0 ∷ [])) (red_other_case ++ (0 ∷ [])) ≡ some 0
unfolding string_case_cmp char_difference char_value capital
red_is_red = refl

red_mapped : map_name x86_64 (red ++ (118 ∷ 0 ∷ [])) ≡ some (some 0xFF0000, some 3)
unfolding map_name try_names color_names string_case_cmp_seg char_difference char_value capital
red_mapped = refl

-- "bis32>".
format_accepted : is_valid_format_cmd x86_64 (2 ^ 22) (98 ∷ 105 ∷ 115 ∷ 51 ∷ 50 ∷ 62 ∷ []) ≡ valid
unfolding is_valid_format_cmd command_loop round round_size read_size is_digit
format_accepted = refl

string_case_cmp_lem_example :
    (d : ℕ) × (string_case_cmp x86_64 (red ++ (0 ∷ [])) (red_other_case ++ (0 ∷ [])) ≡ some d)
    × ((d == 0) ≡ same_text red red_other_case)
string_case_cmp_lem_example =
    string_case_cmp_lem x86_64 red red_other_case [] [] red-IsChar red_other_case-IsChar

map_name_lem_example : map_name x86_64 (red ++ (0 ∷ [])) ≡ some (first_color color_names red)
map_name_lem_example = map_name_lem x86_64 red [] red-IsChar

-- "cred>" and what follows it.
is_valid_format_cmd_ends_example :
    is_valid_format_cmd x86_64 (2 ^ 22) (99 ∷ 114 ∷ 101 ∷ 100 ∷ 62 ∷ 0 ∷ []) ≢ stuck
is_valid_format_cmd_ends_example =
    is_valid_format_cmd_ends x86_64 (2 ^ 22) (99 ∷ 114 ∷ 101 ∷ 100 ∷ 62 ∷ 0 ∷ [])

is_valid_format_cmd-color_example :
    is_valid_format_cmd x86_64 (2 ^ 22) (98 ∷ 99 ∷ 114 ∷ 101 ∷ 100 ∷ 62 ∷ 0 ∷ []) ≢ valid
unfolding color_ahead
is_valid_format_cmd-color_example =
    is_valid_format_cmd-color x86_64 (2 ^ 22) (98 ∷ 99 ∷ 114 ∷ 101 ∷ 100 ∷ 62 ∷ 0 ∷ []) refl
