-- ===== src/Base/Number.antt =====
-- JavaScript numbers as an interface: the operations that the code applies to prices and
-- percentages, and the laws of IEEE 754 comparison that a proof needs.
use Prim.Native.Nat.{ℕ}
use mathlib.Core.Path.{◌≡◌}
use mathlib.Core.Bool.{Bool, true, false, not}
use mathlib.Core.Option.{Option, none, some}

pub record Number (N : Type 0) : Type 0 where
  pub of_ℕ : ℕ → N
  pub is_finite : N → Bool  -- `Number.isFinite`
  pub lt : N → N → Bool
  pub le : N → N → Bool
  pub eq : N → N → Bool  -- `===`
  pub add : N → N → N
  pub sub : N → N → N
  pub mul : N → N → N
  pub div : N → N → N
  pub neg : N → N
  pub abs : N → N  -- `Math.abs`
  pub max : N → N → N  -- `Math.max`
  pub min : N → N → N  -- `Math.min`

-- IEEE 754: finite numbers are totally ordered, `===` is symmetric, and `Math.max` and `Math.min` of
-- two finite numbers are their bounds.
pub record IsLawful {N : Type 0} (num : Number N) : Type 0 where
  pub le-not_lt :
      (a b : N) → num.is_finite a ≡ true → num.is_finite b ≡ true → num.le a b ≡ not (num.lt b a)
  pub eq_symm : (a b : N) → num.eq a b ≡ num.eq b a
  pub le_refl : (a : N) → num.is_finite a ≡ true → num.le a a ≡ true
  pub le_trans :
      (a b c : N)
      → num.is_finite b ≡ true
      → num.le a b ≡ true
      → num.le b c ≡ true
      → num.le a c ≡ true
  pub max-upper :
      (a b : N)
      → num.is_finite a ≡ true
      → num.is_finite b ≡ true
      → (num.is_finite (num.max a b) ≡ true)
        × (num.le a (num.max a b) ≡ true)
        × (num.le b (num.max a b) ≡ true)
  pub min-lower :
      (a b : N)
      → num.is_finite a ≡ true
      → num.is_finite b ≡ true
      → (num.is_finite (num.min a b) ≡ true)
        × (num.le (num.min a b) a ≡ true)
        × (num.le (num.min a b) b ≡ true)

-- `a === b` on `number | null`.
abbrev pub eq_opt : {N : Type 0} → Number N → Option N → Option N → Bool
eq_opt num none none = true
eq_opt num (some a) (some b) = num.eq a b
eq_opt num _ _ = false
