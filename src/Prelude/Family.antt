-- ===== src/Prelude/Family.antt =====
-- C arrays as functions of the index: assignment to one cell, and sums over the first `n` cells.
use Prim.Native.Nat.{ℕ, zero, suc, ◌+◌, ◌≤◌, ◌<◌}
use mathlib.Core.Path.{◌≡◌, refl}
use mathlib.Core.Logic.{◌≢◌, inl, inr}
use native.Mathlib.Omega.{arith}
use nbd_vram.Prelude.Tests.{◌==◌, if◌then◌else◌, eq_cases, ==_refl, ==_ne}

module _ {ℓ} {A : Type ℓ} where
  -- `f[i] = a`
  abbrev pub update : (ℕ → A) → ℕ → A → ℕ → A
  update f i a j = if i == j then a else f j

  pub update_self : (f : ℕ → A) (i : ℕ) (a : A) → update f i a i ≡ a
  update_self f i a = rw (==_refl i)

  pub update_ne : (f : ℕ → A) (i : ℕ) (a : A) (j : ℕ) → i ≢ j → update f i a j ≡ f j
  update_ne f i a j h = rw (==_ne i j h)

module _ {ℓ} {A : Type ℓ} (w : A → ℕ) where
  -- the sum of `w (f i)` over `i < n`
  unfoldable pub total : ℕ → (ℕ → A) → ℕ
  total zero f = 0
  total (suc n) f = total n f + w (f n)

  pub total_congr :
      (n : ℕ) (f g : ℕ → A) → ((i : ℕ) → i < n → w (f i) ≡ w (g i)) → total n f ≡ total n g
  unfolding total
  total_congr zero f g h = refl
  total_congr (suc n) f g h =
      omega (arith, total_congr n f g (λ i lt. h i (omega arith)), h n (omega arith))

  pub total-change :
      (n : ℕ) (f g : ℕ → A) (i : ℕ)
      → ((j : ℕ) → i ≢ j → w (f j) ≡ w (g j))
      → i < n
      → total n g + w (f i) ≡ total n f + w (g i)
  unfolding total
  total-change zero f g i h lt = absurd (omega arith)
  total-change (suc n) f g i h lt = elim (eq_cases i n) [
    | inl e ↦ rw e (omega (arith, total_congr n f g (λ j below. h j (omega arith))))
    | inr ne ↦ omega (arith, total-change n f g i h (omega arith), h n ne)
  ]

  pub total-zero : (n : ℕ) (f : ℕ → A) → ((i : ℕ) → i < n → w (f i) ≡ 0) → total n f ≡ 0
  unfolding total
  total-zero zero f h = refl
  total-zero (suc n) f h =
      omega (arith, total-zero n f (λ i lt. h i (omega arith)), h n (omega arith))

  -- a term is at most the sum
  pub le-total : (n : ℕ) (f : ℕ → A) (i : ℕ) → i < n → w (f i) ≤ total n f
  unfolding total
  le-total zero f i lt = absurd (omega arith)
  le-total (suc n) f i lt = elim (eq_cases i n) [
    | inl e ↦ rw e (omega arith)
    | inr ne ↦ omega (arith, le-total n f i (omega arith))
  ]

  pub total-le_one : ((a : A) → w a ≤ 1) → (n : ℕ) (f : ℕ → A) → total n f ≤ n
  unfolding total
  total-le_one small zero f = omega arith
  total-le_one small (suc n) f = omega (arith, small (f n), total-le_one small n f)
