-- ===== src/FtextPacker.antt =====
-- FtextPacker.c: which text between `<` and `>` is a formatting command. `*color == "#"` compares a
-- character with the address of a literal; that address, as an `int`, is the argument `hash`. The
-- global `lastLen` of colorNames.c has no part in the answer and is left out.
pub mod Laws
pub mod Colors
use qmsp.Base.{ℕ, zero, suc, ◌+◌, ◌-◌, ◌*◌, Option, none, some, List, [], ◌∷◌, ◌||◌, ◌&&◌, not}
use qmsp.Base.{Bool, true, false, leb, ltb, ◌==◌, if◌then◌else◌, ◌>>=◌, u64, truthy, length}
use qmsp.Base.Memory.{Platform}
use qmsp.StringCompare.{char_value}
use qmsp.ColorNames.{map_name, last_color_name_len}

-- The result 7, or what `lastColorNameLen` answers.
unfoldable pub color_len : Platform → ℕ → List ℕ → Option ℕ × Option ℕ → Option (Option ℕ)
color_len p hash [] called = none
color_len p hash (c ∷ color) called =
    if char_value p c == hash then some (some 7) else some (last_color_name_len called)

-- The loop over the characters behind "#", with those that are still to be looked at.
unfoldable pub hex_color : ℕ → List ℕ → Option ℕ
hex_color zero color = some 1
hex_color (suc left) [] = none
hex_color (suc left) (c ∷ color) =
    let rest = hex_color left color in
    if ltb c 48 || (ltb 57 c && ltb c 65) || (ltb 70 c && ltb c 97) || ltb 102 c
    then some 0
    else rest

unfoldable pub is_valid_color : Platform → ℕ → List ℕ → Option ℕ
is_valid_color p hash [] = none
is_valid_color p hash (c ∷ color) =
    let named = map_name p (c ∷ color) >>= λ r. elim r.0 [ none ↦ some 0 | some value ↦ some 1 ] in
    if char_value p c == hash then hex_color 6 color else named

-- The flags of a command's attributes, 1 for those that were met.
pub record Attributes : Type 0 where
  pub bold : ℕ
  pub ital : ℕ
  pub ulin : ℕ
  pub stru : ℕ
  pub sups : ℕ
  pub subs : ℕ
  pub size : ℕ
  pub colr : ℕ

-- The results 1 and 0, a read past the end of the memory, and a loop that is not done.
pub data Verdict : Type 0 where
  valid invalid fault stuck : Verdict

-- One round of the loop: the result, or the command from the new `copypnt` on, and whether that is
-- still `copypoint`.
pub data Round : Type 0 where
  returned : Verdict → Round
  next : Bool → List ℕ → Attributes → Round

unfoldable pub is_digit : ℕ → Bool
is_digit c = leb 48 c && leb c 57

-- `while(digit) { sizeColorCheck *= 10; sizeColorCheck += *copypnt - '0'; copypnt++; }`
unfoldable pub read_size : ℕ → List ℕ → Option (ℕ × List ℕ)
read_size size_check [] = none
read_size size_check (c ∷ cmd) =
    let rest = read_size (u64 (u64 (size_check * 10) + (c - 48))) cmd in
    if is_digit c then rest else some (size_check, c ∷ cmd)

-- The cases '/', 's' and 'c'.
unfoldable pub round_slash : Bool → List ℕ → Round
round_slash true [] = returned fault
round_slash true (d ∷ cmd) = if d == 62 then returned valid else returned invalid
round_slash false cmd = returned invalid

unfoldable pub round_size : List ℕ → Attributes → Round
round_size [] attrs = returned (if attrs.size == 1 then invalid else fault)
round_size (d ∷ cmd) attrs =
    if attrs.size == 1
    then returned invalid
    else if not (is_digit d)
    then returned invalid
    else elim (read_size 0 (d ∷ cmd)) [
      | none ↦ returned fault
      | some (size_check, after) ↦
          if ltb 255 size_check
          then returned invalid
          else next false after (record attrs { size = 1 })
    ]

-- `isValidColor(...) < 0` is never met, and `copypnt` stays where it is.
unfoldable pub round_color : Platform → ℕ → Bool → List ℕ → Attributes → Round
round_color p hash start cmd attrs =
    if attrs.colr == 1 then returned invalid else elim (is_valid_color p hash cmd) [
      | none ↦ returned fault
      | some answer ↦
          if ltb answer 0
          then returned invalid
          else next start (99 ∷ cmd) (record attrs { colr = 1 })
    ]

-- The switch, for a character that is not '>'.
unfoldable pub round : Platform → ℕ → Bool → ℕ → List ℕ → Attributes → Round
round p hash start c cmd attrs =
    if c == 47
    then round_slash start cmd
    else if c == 98
    then if attrs.bold == 1 then returned invalid else next false cmd (record attrs { bold = 1 })
    else if c == 105
    then if attrs.ital == 1 then returned invalid else next false cmd (record attrs { ital = 1 })
    else if c == 117
    then if attrs.ulin == 1 then returned invalid else next false cmd (record attrs { ulin = 1 })
    else if c == 120
    then if attrs.stru == 1 then returned invalid else next false cmd (record attrs { stru = 1 })
    else if c == 94
    then if attrs.subs == 1 || attrs.sups == 1
      then returned invalid
      else next false cmd (record attrs { sups = 1 })
    else if c == 118
    then if attrs.subs == 1 || attrs.sups == 1
      then returned invalid
      else next false cmd (record attrs { subs = 1 })
    else if c == 115
    then round_size cmd attrs
    else if c == 99
    then round_color p hash start cmd attrs
    else returned invalid

-- `while(*copypnt != '>')`, with fuel.
unfoldable pub command_loop : Platform → ℕ → ℕ → Bool → List ℕ → Attributes → Verdict
command_loop p hash zero start cmd attrs = stuck
command_loop p hash (suc fuel) start [] attrs = fault
command_loop p hash (suc fuel) start (c ∷ cmd) attrs =
    elim (if c == 62 then returned valid else round p hash start c cmd attrs) [
      | returned v ↦ v
      | next start' cmd' attrs' ↦ command_loop p hash fuel start' cmd' attrs'
    ]

abbrev pub no_attributes : Attributes
no_attributes = record {
  bold = 0;
  ital = 0;
  ulin = 0;
  stru = 0;
  sups = 0;
  subs = 0;
  size = 0;
  colr = 0;
}

-- A round moves on, or is the one that meets a first colour: two rounds more than there are
-- characters are enough (see Laws).
unfoldable pub is_valid_format_cmd : Platform → ℕ → List ℕ → Verdict
is_valid_format_cmd p hash copypoint =
    command_loop p hash (length copypoint + 2) true copypoint no_attributes
