-- ===== src/Base/Bits.antt =====
-- Masks: `x & (a - 1)` for a power of two `a`.
use Prim.Native.Nat.{
  ℕ, zero, suc, ◌+◌, ◌-◌, ◌*◌, ◌/◌, ◌%◌, ◌≤◌, ◌<◌, min, max, bit_and, bit_or, digits,
  bit_and-bitwise, bit_or-bitwise,
}
use mathlib.Core.Path.{◌≡◌, refl, ap, ◌∙◌, sym}
use mathlib.Core.Logic.{◌≢◌}
use native.Mathlib.Omega.{arith}
use native.Mathlib.Decide.{ℕ_discrete}
use native.Mathlib.Nat.{div-add-mod, mod-lt, add-mul-mod_self_left, mod-eq_of_lt}

-- The digits of a conjunction, with `fuel` for their number.
abbrev conj : ℕ → ℕ → ℕ → ℕ
conj fuel x y = digits (λ _. zero) min fuel x y

-- Any two numbers of digits that suffice give the same.
conj_fuel : (f g x y : ℕ) → x ≤ f → x ≤ g → conj f x y ≡ conj g x y
conj_fuel zero zero x y hf hg = refl
conj_fuel zero (suc g) zero y hf hg = refl
conj_fuel zero (suc g) (suc x) y hf hg = absurd (omega arith)
conj_fuel (suc f) g zero y hf hg = nothing g
  where
    nothing : (g : ℕ) → conj (suc f) zero y ≡ conj g zero y
    nothing zero = refl
    nothing (suc g) = refl
conj_fuel (suc f) zero (suc x) y hf hg = absurd (omega arith)
conj_fuel (suc f) (suc g) (suc x) y hf hg =
    omega (arith, conj_fuel f g (suc x / 2) (y / 2) (omega arith) (omega arith))

pub and_zero_left : (y : ℕ) → bit_and 0 y ≡ 0
and_zero_left y = bit_and-bitwise 0 y

-- The lowest digit, and the rest.
pub and_split : (x y : ℕ) → bit_and x y ≡ min (x % 2) (y % 2) + 2 * bit_and (x / 2) (y / 2)
and_split zero y = omega (arith, and_zero_left y, and_zero_left (y / 2))
and_split (suc x) y = omega (
  arith,
  bit_and-bitwise (suc x) y,
  bit_and-bitwise (suc x / 2) (y / 2),
  conj_fuel x (suc x / 2) (suc x / 2) (y / 2) (omega arith) (omega arith),
)

and_self : (n x : ℕ) → x ≤ n → bit_and x x ≡ x
and_self n zero h = and_zero_left 0
and_self zero (suc x) h = absurd (omega arith)
and_self (suc n) (suc x) h =
    omega (arith, and_split (suc x) (suc x), and_self n (suc x / 2) (omega arith))

and_zero : (n x : ℕ) → x ≤ n → bit_and x 0 ≡ 0
and_zero n zero h = and_zero_left 0
and_zero zero (suc x) h = absurd (omega arith)
and_zero (suc n) (suc x) h =
    omega (arith, and_split (suc x) 0, and_zero n (suc x / 2) (omega arith))

-- `a & (a - 1) == 0` holds of powers of two only; masking by `a - 1` is then the remainder.
mask_step : (x b : ℕ) → 0 < b → x % 2 + 2 * (x / 2 % b) ≡ x % (2 * b)
mask_step x b h = sym (ap (λ (t : ℕ). t % (2 * b)) split ∙ drop ∙ small)
  where
    split : x ≡ x % 2 + 2 * (x / 2 % b) + 2 * b * (x / 2 / b)
    split = omega (arith, div-add-mod (x / 2) b)

    drop :
        (x % 2 + 2 * (x / 2 % b) + 2 * b * (x / 2 / b)) % (2 * b)
        ≡ (x % 2 + 2 * (x / 2 % b)) % (2 * b)
    drop = add-mul-mod_self_left (x % 2 + 2 * (x / 2 % b)) (2 * b) (x / 2 / b)

    small : (x % 2 + 2 * (x / 2 % b)) % (2 * b) ≡ x % 2 + 2 * (x / 2 % b)
    small = mod-eq_of_lt (omega (arith, mod-lt (x / 2) h))

mask_even :
    (a x : ℕ)
    → a % 2 ≡ 0
    → 0 < a
    → bit_and (x / 2) (a / 2 - 1) ≡ x / 2 % (a / 2)
    → bit_and x (a - 1) ≡ x % a
mask_even a x even h e =
    let half : (a - 1) / 2 ≡ a / 2 - 1 = omega arith in
    let whole : 2 * (a / 2) ≡ a = omega arith in
    and_split x (a - 1)
    ∙ rw half (omega (arith, e))
    ∙ rw whole at (mask_step x (a / 2) (omega arith))

mask_fuel : (n a x : ℕ) → a ≤ n → a ≢ 0 → bit_and a (a - 1) ≡ 0 → bit_and x (a - 1) ≡ x % a
mask_fuel n zero x h ne e = absurd (ne refl)
mask_fuel zero (suc a) x h ne e = absurd (omega arith)
mask_fuel (suc n) (suc a) x h ne e = elim (ℕ_discrete (suc a % 2) 0) [
  | yes even ↦
      let half : (suc a - 1) / 2 ≡ suc a / 2 - 1 = omega arith in
      mask_even (suc a) x even (omega arith) (
        mask_fuel n (suc a / 2) (x / 2) (omega arith) (omega arith)
          (omega (arith, rw half at (and_split (suc a) (suc a - 1)))))
  | no odd ↦
      let half : (suc a - 1) / 2 ≡ suc a / 2 = omega arith in
      let one : suc a ≡ 1 = omega (
        arith,
        rw half at (and_split (suc a) (suc a - 1)),
        and_self (suc a / 2) (suc a / 2) (omega arith),
      ) in
      rw one (and_zero x x (omega arith) ∙ omega arith)
]

pub mask_mod : (a x : ℕ) → a ≢ 0 → bit_and a (a - 1) ≡ 0 → bit_and x (a - 1) ≡ x % a
mask_mod a x ne e = mask_fuel a a x (omega arith) ne e

-- A disjunction is no more than the sum.
disj_le : (f x y : ℕ) → digits (λ b. b) max f x y ≤ x + y
disj_le zero x y = omega arith
disj_le (suc f) zero y = omega arith
disj_le (suc f) (suc x) y = omega (arith, disj_le f (suc x / 2) (y / 2))

pub bit_or_le : (x y : ℕ) → bit_or x y ≤ x + y
bit_or_le x y = omega (arith, bit_or-bitwise x y, disj_le x x y)
