-- ===== src/Base/Memory/Load.antt =====
-- Reading a word back from the bytes that it occupies.
use native.Mathlib.Nat.{pow-suc, div-div-eq-div-mul, div-eq_of_lt}
use Prim.Native.Nat.{ℕ, zero, suc, ◌+◌, ◌*◌, ◌/◌, ◌%◌, ◌^◌, ◌<◌}
use mathlib.Core.Path.{◌≡◌, sym, ap, ◌∙◌}
use mathlib.Core.List.{List, [], ◌∷◌}
use native.Mathlib.Omega.{arith}
use qmsp.Base.Tests.{if◌then◌else◌}
use qmsp.Base.Memory.{Platform, be_bytes, le_bytes, word_bytes}

unfoldable pub le_word : List ℕ → ℕ
le_word [] = 0
le_word (b ∷ bytes) = b + le_word bytes * 256

unfoldable pub be_word : ℕ → List ℕ → ℕ
be_word v [] = v
be_word v (b ∷ bytes) = be_word (v * 256 + b) bytes

unfoldable pub load_word : Platform → List ℕ → ℕ
load_word p bytes = if p.little then le_word bytes else be_word 0 bytes

pub le_word-le_bytes : (n x : ℕ) → x < 256 ^ n → le_word (le_bytes n x) ≡ x
unfolding le_word le_bytes
le_word-le_bytes zero x h = omega arith
le_word-le_bytes (suc n) x h =
    ap (λ v. x % 256 + v * 256) (le_word-le_bytes n (x / 256) (omega (arith, pow-suc 256 n)))
    ∙ omega arith

step_down : (n x : ℕ) → x / 256 ^ suc n ≡ x / 256 ^ n / 256
step_down n x =
    sym (div-div-eq-div-mul x (256 ^ n) 256 ∙ ap (λ (m : ℕ). x / m) (omega (arith, pow-suc 256 n)))

be_word-be_bytes : (n v x : ℕ) → v ≡ x / 256 ^ n → be_word v (be_bytes n x) ≡ x
unfolding be_word be_bytes
be_word-be_bytes zero v x h = omega arith
be_word-be_bytes (suc n) v x h = be_word-be_bytes n _ x (omega (arith, step_down n x))

-- A word that fits its bytes is read back, in both byte orders.
pub load-word_bytes : (p : Platform) (w x : ℕ) → x < 256 ^ w → load_word p (word_bytes p w x) ≡ x
unfolding load_word word_bytes
load-word_bytes p w x h =
    ground (arith, le_word-le_bytes w x h, be_word-be_bytes w 0 x (sym (div-eq_of_lt h)))
