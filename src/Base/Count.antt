-- ===== src/Base/Count.antt =====
-- How many indices below a bound pass a test.
use Prim.Native.Nat.{ℕ, zero, suc, ◌+◌, ◌-◌, ◌≤◌, ◌<◌, min}
use mathlib.Core.Path.{◌≡◌, refl, sym}
use mathlib.Core.Logic.{◌≢◌, inl, inr}
use mathlib.Core.Bool.{Bool, true, false, ◌&&◌}
use native.Mathlib.Omega.{arith}
use native.Mathlib.Decide.{ℕ_discrete}
use pyrenis.Base.Tests.{if◌then◌else◌, Bool-cases, leb, ltb}

unfoldable pub count_below : ℕ → (ℕ → Bool) → ℕ
count_below zero p = 0
count_below (suc n) p = count_below n p + (if p n then 1 else 0)

module _ (p q : ℕ → Bool) where
  pub count_below-ext : (n : ℕ) → ((i : ℕ) → i < n → p i ≡ q i) → count_below n p ≡ count_below n q
  unfolding count_below
  count_below-ext zero h = refl
  count_below-ext (suc n) h =
      ground (arith, count_below-ext n (λ i l. h i (omega arith)), h n (omega arith))

  -- Turning the test on at one index adds one.
  pub count_below-insert :
      (n k : ℕ)
      → k < n
      → p k ≡ false
      → q k ≡ true
      → ((i : ℕ) → i < n → i ≢ k → p i ≡ q i)
      → count_below n q ≡ count_below n p + 1
  unfolding count_below
  count_below-insert zero k l hp hq h = absurd (omega arith)
  count_below-insert (suc n) k l hp hq h = elim (ℕ_discrete k n) [
    | yes e ↦
        ground (arith, e, hp, hq, count_below-ext n (λ i i_lt. h i (omega arith) (omega arith)))
    | no ne ↦ ground (
      arith,
      count_below-insert n k (omega arith) hp hq (λ i i_lt. h i (omega arith)),
      h n (omega arith) (λ e. ne (sym e)),
    )
  ]

module _ (p : ℕ → Bool) where
  pub count_below-le : (n : ℕ) → count_below n p ≤ n
  unfolding count_below
  count_below-le zero = omega arith
  count_below-le (suc n) = ground (arith, count_below-le n)

  -- A positive count has an index that passes.
  pub count_below-find : (n : ℕ) → 0 < count_below n p → (k : ℕ) × (k < n) × (p k ≡ true)
  unfolding count_below
  count_below-find zero h = absurd (omega arith)
  count_below-find (suc n) h = elim (Bool-cases (p n)) [
    | inl e ↦ (n, omega arith, e)
    | inr e ↦ let (k, l, t) = count_below-find n (ground arith) in (k, omega arith, t)
  ]

-- Turning the test on over a run adds the length of the run.
pub count_below-run :
    (p q : ℕ → Bool) (first past n : ℕ)
    → ((i : ℕ) → (p i ≡ (if leb first i && ltb i past then false else q i)))
    → ((i : ℕ) → (q i ≡ (if leb first i && ltb i past then true else p i)))
    → count_below n q ≡ count_below n p + (min n past - first)
unfolding count_below
count_below-run p q first past zero hp hq = omega arith
count_below-run p q first past (suc n) hp hq =
    ground (arith, count_below-run p q first past n hp hq, hp n, hq n)
