-- ===== src/StringCompare.antt =====
-- stringCompareAnyCase.c: comparing terminated strings whatever the case of their letters. A string
-- is the memory from its first byte on; a read past the end of it is undefined. The difference of
-- two characters is an `int`, kept as its 32 bits.
pub mod Laws
use qmsp.Base.{ℕ, ◌+◌, ◌-◌, ◌^◌, ◌%◌, bit_and, Option, none, some, List, [], ◌∷◌, ◌&&◌, ◌||◌, not}
use qmsp.Base.{truthy, leb, ◌==◌, if◌then◌else◌, u32}
use qmsp.Base.Memory.{Platform}

-- `if(hold >= 'a' && hold <= 'z') hold &= 0x5F`.
unfoldable pub capital : ℕ → ℕ
capital c = if leb 97 c && leb c 122 then bit_and c 0x5f else c

-- A plain `char` as an `int`.
unfoldable pub char_value : Platform → ℕ → ℕ
char_value p c = if p.char_signed && leb 128 c then c + (2 ^ 32 - 2 ^ 8) else c

unfoldable pub char_difference : Platform → ℕ → ℕ → ℕ
char_difference p hold hord = u32 (char_value p hold + (2 ^ 32 - char_value p hord))

unfoldable pub string_case_cmp : Platform → List ℕ → List ℕ → Option ℕ
string_case_cmp p [] right = none
string_case_cmp p (l ∷ lefty) [] = none
string_case_cmp p (l ∷ lefty) (r ∷ right) =
    let rest = string_case_cmp p lefty right in
    let difference = char_difference p (capital l) (capital r) in
    if not (truthy l) && not (truthy r)
    then some 0
    else if truthy difference
    then some difference
    else rest

-- The right string is not read where the left one has not ended and `len` is reached.
unfoldable pub string_case_cmp_seg : Platform → List ℕ → List ℕ → ℕ → ℕ → Option ℕ
string_case_cmp_seg p [] right len checked = none
string_case_cmp_seg p (l ∷ lefty) [] len checked =
    if truthy l && checked == len then some 0 else none
string_case_cmp_seg p (l ∷ lefty) (r ∷ right) len checked =
    let rest = string_case_cmp_seg p lefty right len (checked + 1) in
    let difference = char_difference p (capital l) (capital r) in
    if (not (truthy l) && not (truthy r)) || checked == len
    then some 0
    else if truthy difference
    then some difference
    else rest
