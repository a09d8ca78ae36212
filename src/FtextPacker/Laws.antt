-- ===== src/FtextPacker/Laws.antt =====
-- FtextPacker.c: the loop over a command ends, and what becomes of colours.
use qmsp.Base.{ℕ, zero, suc, ◌+◌, ◌-◌, ◌*◌, u64, ◌<◌, ◌≤◌, ◌≡◌, ◌≢◌, refl, arith, some}
use qmsp.Base.{
  List, [], ◌∷◌, Bool, true, false, ◌==◌, if◌then◌else◌, length, Option-cases, inl, inr, ◌⊎◌,
}
use qmsp.Base.Memory.{Platform}
use qmsp.FtextPacker.{
  Attributes, Verdict, stuck, Round, returned, next, is_valid_color, read_size, round_slash,
  round_size, round_color, round, command_loop, no_attributes, is_valid_format_cmd,
}

-- Rounds that may still come: one for each character, and one for a first colour.
unfoldable pub rounds_left : List ℕ → Attributes → ℕ
rounds_left cmd attrs = length cmd + (if attrs.colr == 1 then 0 else 1)

pub read_size-shorter :
    (v w : ℕ) (cmd after : List ℕ) → read_size v cmd ≡ some (w, after) → length after ≤ length cmd
unfolding read_size
read_size-shorter v w [] after h = ground arith
read_size-shorter v w (c ∷ cmd) after h =
    ground (arith, read_size-shorter (u64 (u64 (v * 10) + (c - 48))) w cmd after)

round_size-shorter :
    (cmd cmd' : List ℕ) (attrs attrs' : Attributes) (start : Bool)
    → round_size cmd attrs ≡ next start cmd' attrs'
    → (length cmd' ≤ length cmd) × (attrs'.colr ≡ attrs.colr)
unfolding round_size
round_size-shorter [] cmd' attrs attrs' start h = ground arith
round_size-shorter (d ∷ cmd) cmd' attrs attrs' start h =
    elim (Option-cases (read_size 0 (d ∷ cmd))) [
      | inl e ↦ ground arith
      | inr ((w, after), e) ↦ ground (arith, read_size-shorter 0 w (d ∷ cmd) after e)
    ]

pub round_slash_ends :
    (start start' : Bool) (cmd cmd' : List ℕ) (attrs : Attributes)
    → round_slash start cmd ≢ next start' cmd' attrs
unfolding round_slash
round_slash_ends true start' [] cmd' attrs h = ground arith
round_slash_ends true start' (d ∷ cmd) cmd' attrs h = ground arith
round_slash_ends false start' cmd cmd' attrs h = ground arith

round_color-next :
    (p : Platform) (hash : ℕ) (start start' : Bool) (cmd cmd' : List ℕ) (attrs attrs' : Attributes)
    → round_color p hash start cmd attrs ≡ next start' cmd' attrs'
    → rounds_left cmd' attrs' < rounds_left (99 ∷ cmd) attrs
unfolding round_color rounds_left
round_color-next p hash start start' cmd cmd' attrs attrs' h =
    elim (Option-cases (is_valid_color p hash cmd)) [
      | inl e ↦ ground arith
      | inr (answer, e) ↦ ground arith
    ]

round-next :
    (p : Platform) (hash : ℕ) (start start' : Bool) (c : ℕ) (cmd cmd' : List ℕ)
    (attrs attrs' : Attributes)
    → round p hash start c cmd attrs ≡ next start' cmd' attrs'
    → rounds_left cmd' attrs' < rounds_left (c ∷ cmd) attrs
unfolding round rounds_left
round-next p hash start start' c cmd cmd' attrs attrs' h = ground (
  arith,
  round_slash_ends start start' cmd cmd' attrs',
  round_size-shorter cmd cmd' attrs attrs' start',
  round_color-next p hash start start' cmd cmd' attrs attrs',
)

round_slash-answer : (start : Bool) (cmd : List ℕ) → round_slash start cmd ≢ returned stuck
unfolding round_slash
round_slash-answer true [] h = ground arith
round_slash-answer true (d ∷ cmd) h = ground arith
round_slash-answer false cmd h = ground arith

round_size-answer : (cmd : List ℕ) (attrs : Attributes) → round_size cmd attrs ≢ returned stuck
unfolding round_size
round_size-answer [] attrs h = ground arith
round_size-answer (d ∷ cmd) attrs h = elim (Option-cases (read_size 0 (d ∷ cmd))) [
  | inl e ↦ ground arith
  | inr (read, e) ↦ ground arith
]

round_color-answer :
    (p : Platform) (hash : ℕ) (start : Bool) (cmd : List ℕ) (attrs : Attributes)
    → round_color p hash start cmd attrs ≢ returned stuck
unfolding round_color
round_color-answer p hash start cmd attrs h = elim (Option-cases (is_valid_color p hash cmd)) [
  | inl e ↦ ground arith
  | inr (answer, e) ↦ ground arith
]

round_ends :
    (p : Platform) (hash : ℕ) (start : Bool) (c : ℕ) (cmd : List ℕ) (attrs : Attributes)
    → round p hash start c cmd attrs ≢ returned stuck
unfolding round
round_ends p hash start c cmd attrs h = ground (
  arith,
  round_slash-answer start cmd,
  round_size-answer cmd attrs,
  round_color-answer p hash start cmd attrs,
)

pub Round-cases :
    (r : Round)
    → ((v : Verdict) × (r ≡ returned v))
      ⊎ ((start : Bool) × (cmd : List ℕ) × (attrs : Attributes) × (r ≡ next start cmd attrs))
Round-cases (returned v) = inl (v, refl)
Round-cases (next start cmd attrs) = inr (start, cmd, attrs, refl)

command_loop_ends :
    (p : Platform) (hash : ℕ) (fuel : ℕ) (start : Bool) (cmd : List ℕ) (attrs : Attributes)
    → rounds_left cmd attrs < fuel
    → command_loop p hash fuel start cmd attrs ≢ stuck
unfolding command_loop
command_loop_ends p hash zero start cmd attrs enough h = absurd (omega arith)
command_loop_ends p hash (suc fuel) start [] attrs enough h = ground arith
command_loop_ends p hash (suc fuel) start (c ∷ cmd) attrs enough h =
    elim (Round-cases (round p hash start c cmd attrs)) [
      | inl (v, e) ↦ ground (arith, round_ends p hash start c cmd attrs)
      | inr (start', cmd', attrs', e) ↦ ground (
        arith,
        round-next p hash start start' c cmd cmd' attrs attrs' e,
        command_loop_ends p hash fuel start' cmd' attrs',
      )
    ]

-- The loop over a command ends, whatever the memory holds: by one of its returns, or by a read
-- past the end of the memory.
pub is_valid_format_cmd_ends :
    (p : Platform) (hash : ℕ) (copypoint : List ℕ) → is_valid_format_cmd p hash copypoint ≢ stuck
unfolding is_valid_format_cmd
is_valid_format_cmd_ends p hash copypoint =
    command_loop_ends p hash (length copypoint + 2) true copypoint no_attributes
      (unfold rounds_left in omega arith)
