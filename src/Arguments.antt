-- ===== src/Arguments.antt =====
-- OriginalLinuxCode/quichelper.h: looking up the command line's arguments. An argument is the text
-- before its terminator. `_strnicmp`, which is the C library's `strncasecmp`, is a parameter: whether
-- it gives 0 for two texts and a number of characters.
pub mod Laws
use qmsp.Base.{
  ℕ, ◌+◌, List, [], ◌∷◌, Option, none, some, Bool, true, false, ◌&&◌, ◌==◌, ltb, if◌then◌else◌,
  length, drop,
}
use qmsp.ByteSwap.{first_byte}

module _ (strnicmp : List ℕ → List ℕ → ℕ → Bool) where
  -- The text behind the first character of an empty argument is behind its terminator: undefined.
  unfoldable pub get_flag : List (List ℕ) → List ℕ → Option Bool
  get_flag [] name = some false
  get_flag ([] ∷ argv) name = none
  get_flag ((c ∷ arg) ∷ argv) name =
      let rest = get_flag argv name in
      if strnicmp arg name (length name) && length (c ∷ arg) == length name + 1
      then some true
      else rest

  -- `some none` is the result NULL.
  unfoldable pub get_value : List (List ℕ) → List ℕ → Option (Option (List ℕ))
  get_value [] name = some none
  get_value ([] ∷ argv) name = none
  get_value ((c ∷ arg) ∷ argv) name =
      let rest = get_value argv name in
      if strnicmp arg name (length name)
        && (ltb (1 + length name + 1) (length (c ∷ arg))
            && first_byte (drop (length name) arg) == b':')
      then some (some (drop (length name + 1) arg))
      else rest
