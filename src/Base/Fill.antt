-- ===== src/Base/Fill.antt =====
-- Rows of copies: each starts where the one before it ended.
use Prim.Native.Nat.{ℕ, ◌+◌}
use mathlib.Core.Path.{◌≡◌, refl, ap, ◌∙◌}
use mathlib.Core.Option.{Option}
use mathlib.Core.List.{List, [], ◌++◌, append-nil, append_assoc}
use native.Mathlib.Omega.{arith}
use qmsp.Base.Tests.{◌>>=◌}
use qmsp.Base.Lists.{length, length-append, length-eq-zero}
use qmsp.Base.Memory.{memcpy, memcpy_next}

module _ {B : Type 0} (k : List ℕ → Option B) (done rest : List ℕ) where
  -- The row `row` fills the block with the bytes `src`, behind `done` and in front of `left` bytes.
  abbrev pub Fills : Option B → List ℕ → ℕ → Type 0
  Fills row src left = (rest' : List ℕ) × (length rest' ≡ left) × (row ≡ k ((done ++ src) ++ rest'))

  pub fill_one :
      (a : List ℕ) (o left : ℕ)
      → o ≡ length done
      → length rest ≡ length a + left
      → Fills (memcpy (done ++ rest) o a >>= k) a left
  fill_one a o left at_end fits = memcpy_next done rest a o left k at_end fits

module _ {B : Type 0} (k : List ℕ → Option B) (done rest : List ℕ) where
  pub fill_two :
      (a b : List ℕ) (o₁ o₂ left : ℕ)
      → o₁ ≡ length done
      → o₂ ≡ o₁ + length a
      → length rest ≡ length a + length b + left
      → Fills k done rest (memcpy (done ++ rest) o₁ a >>= λ x. memcpy x o₂ b >>= k) (a ++ b) left
  fill_two a b o₁ o₂ left at_end next fits =
      let (r₁, l₁, e₁) =
        memcpy_next done rest a o₁ (length b + left) (λ x. memcpy x o₂ b >>= k) at_end
          (omega arith) in
      let (r₂, l₂, e₂) =
        memcpy_next (done ++ a) r₁ b o₂ left k (omega (arith, length-append done a)) l₁ in
      (r₂, l₂, e₁ ∙ e₂ ∙ ap (λ l. k (l ++ r₂)) (append_assoc done a b))

module _ {B : Type 0} (k : List ℕ → Option B) (done rest : List ℕ) where
  pub fill_three :
      (a b c : List ℕ) (o₁ o₂ o₃ left : ℕ)
      → o₁ ≡ length done
      → o₂ ≡ o₁ + length a
      → o₃ ≡ o₂ + length b
      → length rest ≡ length a + length b + length c + left
      → Fills k done rest
          (memcpy (done ++ rest) o₁ a >>= λ w. memcpy w o₂ b >>= λ x. memcpy x o₃ c >>= k)
          ((a ++ b) ++ c)
          left
  fill_three a b c o₁ o₂ o₃ left at_end n₂ n₃ fits =
      let (r₁, l₁, e₁) =
        fill_two (λ x. memcpy x o₃ c >>= k) done rest a b o₁ o₂ (length c + left) at_end n₂
          (omega arith) in
      let (r₂, l₂, e₂) =
        fill_one k (done ++ (a ++ b)) r₁ c o₃ left
          (omega (arith, length-append done (a ++ b), length-append a b)) l₁ in
      (r₂, l₂, e₁ ∙ e₂ ∙ ap (λ l. k (l ++ r₂)) (append_assoc done (a ++ b) c))

  pub fill_four :
      (a b c d : List ℕ) (o₁ o₂ o₃ o₄ left : ℕ)
      → o₁ ≡ length done
      → o₂ ≡ o₁ + length a
      → o₃ ≡ o₂ + length b
      → o₄ ≡ o₃ + length c
      → length rest ≡ length a + length b + length c + length d + left
      → Fills k done rest
          (memcpy (done ++ rest) o₁ a >>= λ w.
            memcpy w o₂ b >>= λ x. memcpy x o₃ c >>= λ y. memcpy y o₄ d >>= k)
          ((a ++ b) ++ (c ++ d))
          left
  fill_four a b c d o₁ o₂ o₃ o₄ left at_end n₂ n₃ n₄ fits =
      let (r₁, l₁, e₁) =
        fill_two (λ x. memcpy x o₃ c >>= λ y. memcpy y o₄ d >>= k) done rest a b o₁ o₂
          (length c + length d + left) at_end n₂ (omega arith) in
      let (r₂, l₂, e₂) =
        fill_two k (done ++ (a ++ b)) r₁ c d o₃ o₄ left
          (omega (arith, length-append done (a ++ b), length-append a b)) n₄ l₁ in
      (r₂, l₂, e₁ ∙ e₂ ∙ ap (λ l. k (l ++ r₂)) (append_assoc done (a ++ b) (c ++ d)))

-- A row that fills the whole of a block.
filled :
    {B : Type 0} (k : List ℕ → Option B) (done rest : List ℕ) (row : Option B) (src : List ℕ)
    → Fills k done rest row src 0
    → row ≡ k (done ++ src)
filled k done rest row src (rest', none_left, eq) =
    eq
    ∙ ap k
        (ap (λ r. (done ++ src) ++ r) (length-eq-zero rest' none_left) ∙ append-nil (done ++ src))

module _ {B : Type 0} (k : List ℕ → Option B) (block : List ℕ) where
  pub fill_all_four :
      (a b c d : List ℕ) (o₂ o₃ o₄ : ℕ)
      → o₂ ≡ length a
      → o₃ ≡ o₂ + length b
      → o₄ ≡ o₃ + length c
      → length block ≡ length a + length b + length c + length d
      → (memcpy block 0 a >>= λ w.
          memcpy w o₂ b >>= λ x. memcpy x o₃ c >>= λ y. memcpy y o₄ d >>= k)
        ≡ k ((a ++ b) ++ (c ++ d))
  fill_all_four a b c d o₂ o₃ o₄ n₂ n₃ n₄ fits =
      filled k [] block _ ((a ++ b) ++ (c ++ d))
        (fill_four k [] block a b c d 0 o₂ o₃ o₄ 0 refl (omega arith) n₃ n₄ (omega arith))

  pub fill_all_five :
      (a b c d e : List ℕ) (o₂ o₃ o₄ o₅ : ℕ)
      → o₂ ≡ length a
      → o₃ ≡ o₂ + length b
      → o₄ ≡ o₃ + length c
      → o₅ ≡ o₄ + length d
      → length block ≡ length a + length b + length c + length d + length e
      → (memcpy block 0 a >>= λ v.
          memcpy v o₂ b >>= λ w. memcpy w o₃ c >>= λ x. memcpy x o₄ d >>= λ y. memcpy y o₅ e >>= k)
        ≡ k (a ++ ((b ++ c) ++ (d ++ e)))
  fill_all_five a b c d e o₂ o₃ o₄ o₅ n₂ n₃ n₄ n₅ fits =
      let (rest, left, eq) =
        fill_one
          (λ v. memcpy v o₂ b >>= λ w.
            memcpy w o₃ c >>= λ x. memcpy x o₄ d >>= λ y. memcpy y o₅ e >>= k)
          [] block a 0 (length b + length c + length d + length e) refl (omega arith) in
      eq
      ∙ filled k a rest _ ((b ++ c) ++ (d ++ e))
          (fill_four k a rest b c d e o₂ o₃ o₄ o₅ 0 n₂ n₃ n₄ n₅ (omega arith))
