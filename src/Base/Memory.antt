-- ===== src/Base/Memory.antt =====
-- Memory as bytes: how a machine stores a word, and what `memcpy` and `malloc` do to a block.
pub mod Load
use Prim.Native.Nat.{ℕ, zero, suc, ◌+◌, ◌/◌, ◌%◌, ◌^◌, ◌≤◌}
use mathlib.Core.Path.{◌≡◌, refl, sym, ap}
use mathlib.Core.Bool.{Bool}
use mathlib.Core.Option.{Option, none, some}
use mathlib.Core.List.{List, [], ◌∷◌, ◌++◌, append_assoc}
use native.Mathlib.Omega.{arith}
use qmsp.Base.Tests.{leb, le→leb, if◌then◌else◌, ◌>>=◌}
use qmsp.Base.Lists.{
  length, take, drop, length-append, length-drop, take-append_self, drop-append_more,
  length-take_le,
}

-- The lowest `n` bytes of a number, from the highest down and from the lowest up.
unfoldable pub be_bytes : ℕ → ℕ → List ℕ
be_bytes zero x = []
be_bytes (suc n) x = (x / 256 ^ n % 256) ∷ be_bytes n x

unfoldable pub le_bytes : ℕ → ℕ → List ℕ
le_bytes zero x = []
le_bytes (suc n) x = (x % 256) ∷ le_bytes n (x / 256)

-- What the compiler and the machine decide: the byte order, `sizeof(unsigned long)`, and whether
-- a plain `char` is signed.
pub record Platform : Type 0 where
  pub little : Bool
  pub long_size : ℕ
  pub char_signed : Bool

-- The bytes that a word of `w` bytes occupies.
unfoldable pub word_bytes : Platform → ℕ → ℕ → List ℕ
word_bytes p w x = if p.little then le_bytes w x else be_bytes w x

-- `malloc`: NULL, or a block whose contents are not specified.
pub record Allocator : Type 0 where
  pub malloc : ℕ → Option (List ℕ)
  pub length-malloc : (n : ℕ) (block : List ℕ) → malloc n ≡ some block → length block ≡ n

-- `memcpy(block + off, src, length src)`; a write past the end of the block is undefined.
unfoldable pub memcpy : List ℕ → ℕ → List ℕ → Option (List ℕ)
memcpy block off src =
    if leb (off + length src) (length block)
    then some (take off block ++ (src ++ drop (off + length src) block))
    else none

pub length-be_bytes : (n x : ℕ) → length (be_bytes n x) ≡ n
unfolding be_bytes
length-be_bytes zero x = refl
length-be_bytes (suc n) x = ap suc (length-be_bytes n x)

pub length-le_bytes : (n x : ℕ) → length (le_bytes n x) ≡ n
unfolding le_bytes
length-le_bytes zero x = refl
length-le_bytes (suc n) x = ap suc (length-le_bytes n (x / 256))

-- Copying into a block behind a part that is already filled.
pub memcpy-append :
    (done rest src : List ℕ) (off : ℕ)
    → off ≡ length done
    → length src ≤ length rest
    → memcpy (done ++ rest) off src ≡ some ((done ++ src) ++ drop (length src) rest)
unfolding memcpy
memcpy-append done rest src off at_end fits =
    rw
      (
        le→leb (off + length src) (length (done ++ rest)) (omega (arith, length-append done rest)),
        take-append_self off done rest at_end,
        drop-append_more (off + length src) (length src) done rest (omega arith),
      )
      (ap some (sym (append_assoc done src (drop (length src) rest))))

-- The next of a row of copies: what is filled grows by `src`, and the rest shrinks by it.
pub memcpy_next :
    (done rest src : List ℕ) (off left : ℕ) {B : Type 0} (k : List ℕ → Option B)
    → off ≡ length done
    → length rest ≡ length src + left
    → (rest' : List ℕ) × (length rest' ≡ left)
      × ((memcpy (done ++ rest) off src >>= k) ≡ k ((done ++ src) ++ rest'))
memcpy_next done rest src off left k at_end fits = (
  drop (length src) rest,
  omega (arith, length-drop (length src) rest),
  rw (memcpy-append done rest src off at_end (omega arith)),
)

pub length-word_bytes : (p : Platform) (w x : ℕ) → length (word_bytes p w x) ≡ w
unfolding word_bytes
length-word_bytes p w x = ground (arith, length-be_bytes w x, length-le_bytes w x)

pub length-take-word_bytes :
    (p : Platform) (n w x : ℕ) → n ≤ w → length (take n (word_bytes p w x)) ≡ n
length-take-word_bytes p n w x h =
    length-take_le n (word_bytes p w x) (omega (arith, length-word_bytes p w x))
