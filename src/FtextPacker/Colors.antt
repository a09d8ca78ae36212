-- ===== src/FtextPacker/Colors.antt =====
-- FtextPacker.c: commands with a colour.
use qmsp.Base.{ℕ, zero, suc, ◌+◌, ◌-◌, ◌*◌, u64, ◌≡◌, ◌≢◌, arith, some}
use qmsp.Base.{not, ◌&&◌, ◌||◌, List, [], ◌∷◌, Bool, true, false, ◌==◌, length}
use qmsp.Base.{Option-cases, Bool-cases, inl, inr, ◌⊎◌}
use mathlib.Core.Path.{subst}
use qmsp.Base.Memory.{Platform}
use qmsp.FtextPacker.{
  Attributes, valid, returned, next, is_digit, is_valid_color, read_size, round_slash, round_size,
  round_color, round, command_loop, no_attributes, is_valid_format_cmd,
}
use qmsp.FtextPacker.Laws.{round_slash_ends, Round-cases}

color_invalid :
    (p : Platform) (hash : ℕ) (fuel : ℕ) (start : Bool) (cmd : List ℕ) (attrs : Attributes)
    → command_loop p hash fuel start (99 ∷ cmd) attrs ≢ valid
unfolding command_loop round round_color
color_invalid p hash zero start cmd attrs h = ground arith
color_invalid p hash (suc zero) start cmd attrs h =
    elim (Option-cases (is_valid_color p hash cmd)) [
      | inl e ↦ ground arith
      | inr (answer, e) ↦ ground arith
    ]
color_invalid p hash (suc (suc fuel)) start cmd attrs h =
    elim (Option-cases (is_valid_color p hash cmd)) [
      | inl e ↦ ground arith
      | inr (answer, e) ↦ ground arith
    ]

-- The memory goes on with a 'c' before any '>'.
unfoldable pub color_ahead : List ℕ → Bool
color_ahead [] = false
color_ahead (c ∷ cmd) = c == 99 || not (c == 62) && color_ahead cmd

read_size-color_ahead :
    (v w : ℕ) (cmd after : List ℕ)
    → read_size v cmd ≡ some (w, after)
    → color_ahead cmd ≡ true
    → color_ahead after ≡ true
unfolding read_size color_ahead is_digit
read_size-color_ahead v w [] after h ahead = ground arith
read_size-color_ahead v w (c ∷ cmd) after h ahead =
    ground (arith, read_size-color_ahead (u64 (u64 (v * 10) + (c - 48))) w cmd after)

round_size-color_ahead :
    (cmd cmd' : List ℕ) (attrs attrs' : Attributes) (start : Bool)
    → round_size cmd attrs ≡ next start cmd' attrs'
    → color_ahead cmd ≡ true
    → color_ahead cmd' ≡ true
unfolding round_size
round_size-color_ahead [] cmd' attrs attrs' start h ahead = ground arith
round_size-color_ahead (d ∷ cmd) cmd' attrs attrs' start h ahead =
    elim (Option-cases (read_size 0 (d ∷ cmd))) [
      | inl e ↦ ground arith
      | inr ((w, after), e) ↦ ground (arith, read_size-color_ahead 0 w (d ∷ cmd) after e)
    ]

round-color_ahead :
    (p : Platform) (hash : ℕ) (start start' : Bool) (c : ℕ) (cmd cmd' : List ℕ)
    (attrs attrs' : Attributes)
    → c ≢ 99
    → round p hash start c cmd attrs ≡ next start' cmd' attrs'
    → color_ahead (c ∷ cmd) ≡ true
    → color_ahead cmd' ≡ true
unfolding round color_ahead
round-color_ahead p hash start start' c cmd cmd' attrs attrs' other h ahead = ground (
  arith,
  round_slash_ends start start' cmd cmd' attrs',
  round_size-color_ahead cmd cmd' attrs attrs' start',
)

round_slash-valid :
    (start : Bool) (cmd : List ℕ) → color_ahead cmd ≡ true → round_slash start cmd ≢ returned valid
unfolding round_slash color_ahead
round_slash-valid true [] ahead h = ground arith
round_slash-valid true (d ∷ cmd) ahead h = ground arith
round_slash-valid false cmd ahead h = ground arith

round_size-valid : (cmd : List ℕ) (attrs : Attributes) → round_size cmd attrs ≢ returned valid
unfolding round_size
round_size-valid [] attrs h = ground arith
round_size-valid (d ∷ cmd) attrs h = elim (Option-cases (read_size 0 (d ∷ cmd))) [
  | inl e ↦ ground arith
  | inr (read, e) ↦ ground arith
]

round-valid :
    (p : Platform) (hash : ℕ) (start : Bool) (c : ℕ) (cmd : List ℕ) (attrs : Attributes)
    → c ≢ 99
    → color_ahead (c ∷ cmd) ≡ true
    → round p hash start c cmd attrs ≢ returned valid
unfolding round color_ahead
round-valid p hash start c cmd attrs other ahead h =
    ground (arith, round_slash-valid start cmd, round_size-valid cmd attrs)

color_ahead-other :
    (c : ℕ) (cmd : List ℕ) → c ≢ 99 → color_ahead (c ∷ cmd) ≡ true → (c == 62) ≡ false
unfolding color_ahead
color_ahead-other c cmd other ahead = ground arith

ℕ-decided : (a b : ℕ) → (a ≡ b) ⊎ (a ≢ b)
ℕ-decided a b = elim (Bool-cases (a == b)) [
  | inl e ↦ inl (ground arith)
  | inr e ↦ inr (λ same. ground arith)
]

command_loop-color_ahead :
    (p : Platform) (hash : ℕ) (fuel : ℕ) (start : Bool) (cmd : List ℕ) (attrs : Attributes)
    → color_ahead cmd ≡ true
    → command_loop p hash fuel start cmd attrs ≢ valid
unfolding command_loop
command_loop-color_ahead p hash zero start cmd attrs ahead h = ground arith
command_loop-color_ahead p hash (suc fuel) start [] attrs ahead h = ground arith
command_loop-color_ahead p hash (suc fuel) start (c ∷ cmd) attrs ahead h = elim (ℕ-decided c 99) [
  | inl same ↦
      color_invalid p hash (suc fuel) start cmd attrs
        (subst (λ x. command_loop p hash (suc fuel) start (x ∷ cmd) attrs ≡ valid) same h)
  | inr other ↦ elim (Round-cases (round p hash start c cmd attrs)) [
    | inl (v, e) ↦ ground (
      arith,
      color_ahead-other c cmd other ahead,
      round-valid p hash start c cmd attrs other ahead,
    )
    | inr (start', cmd', attrs', e) ↦ ground (
      arith,
      color_ahead-other c cmd other ahead,
      round-color_ahead p hash start start' c cmd cmd' attrs attrs' other e ahead,
      command_loop-color_ahead p hash fuel start' cmd' attrs',
    )
  ]
]

-- A command with a 'c' before its '>' is never valid, whatever colour follows: the loop does not
-- move on from the 'c', and meets it again as a second colour.
pub is_valid_format_cmd-color :
    (p : Platform) (hash : ℕ) (copypoint : List ℕ)
    → color_ahead copypoint ≡ true
    → is_valid_format_cmd p hash copypoint ≢ valid
unfolding is_valid_format_cmd
is_valid_format_cmd-color p hash copypoint ahead =
    command_loop-color_ahead p hash (length copypoint + 2) true copypoint no_attributes ahead
