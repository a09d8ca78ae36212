-- ===== src/ChatFiles/Stdio.antt =====
-- What the programs use of the C library: reading a line, comparing beginnings, printing numbers.
pub mod Laws
use qmsp.Base.{
  ℕ, zero, suc, ◌+◌, ◌-◌, ◌*◌, ◌/◌, ◌%◌, Option, none, some, List, [], ◌∷◌, ◌++◌, Bool, true, false,
  ◌&&◌,
}
use qmsp.Base.{◌==◌, ltb, leb, if◌then◌else◌, take, drop, length, u64}

-- At most `n` bytes, and no more than one line.
unfoldable pub take_line : ℕ → List ℕ → List ℕ × List ℕ
take_line zero bytes = ([], bytes)
take_line (suc n) [] = ([], [])
take_line (suc n) (c ∷ bytes) =
    let rest = take_line n bytes in if c == 10 then (c ∷ [], bytes) else (c ∷ rest.0, rest.1)

-- `fgets(buf, n, file)`: the text and the file behind it, or NULL at the end of the file.
unfoldable pub fgets : ℕ → List ℕ → Option (List ℕ × List ℕ)
fgets n [] = none
fgets n (c ∷ bytes) = some (take_line (n - 1) (c ∷ bytes))

-- `strncmp(text, prefix, strlen(prefix)) == 0`.
unfoldable pub begins_with : List ℕ → List ℕ → Bool
begins_with text [] = true
begins_with [] (p ∷ prefix) = false
begins_with (c ∷ text) (p ∷ prefix) = c == p && begins_with text prefix

-- `strcmp(text, other) == 0`.
unfoldable pub equal_text : List ℕ → List ℕ → Bool
equal_text [] [] = true
equal_text [] (d ∷ other) = false
equal_text (c ∷ text) [] = false
equal_text (c ∷ text) (d ∷ other) = c == d && equal_text text other

-- The conversions `%lu` and `%llu`, of at most `digits` digits.
unfoldable pub print_digits : ℕ → ℕ → List ℕ
print_digits zero n = []
print_digits (suc digits) n =
    let front = print_digits digits (n / 10) in
    if ltb n 10 then (48 + n) ∷ [] else front ++ ((48 + n % 10) ∷ [])

unfoldable pub print_number : ℕ → List ℕ
print_number n = print_digits 20 n

-- A text in the first bytes of a buffer, with its terminator; what stood behind it stays.
unfoldable pub put_text : List ℕ → List ℕ → List ℕ
put_text text buf = text ++ (0 ∷ drop (length text + 1) buf)

-- The text in a buffer.
unfoldable pub text_of : List ℕ → List ℕ
text_of [] = []
text_of (c ∷ buf) = let rest = text_of buf in if c == 0 then [] else c ∷ rest

unfoldable pub is_digit : ℕ → Bool
is_digit c = leb 48 c && leb c 57
