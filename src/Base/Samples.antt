-- ===== src/Base/Samples.antt =====
-- Whole numbers as prices, for the tests and the runs at concrete inputs.
use atabak_gold.Base.Number.{Number, IsLawful}
use atabak_gold.Base.Tests.{ltb, leb, ◌==◌, if◌then◌else◌}
use Prim.Native.Nat.{ℕ, ◌+◌, ◌*◌, ◌-◌, ◌/◌}
use mathlib.Core.Path.{◌≡◌}
use mathlib.Core.Bool.{true, not}
use native.Mathlib.Omega.{arith}

instance unfoldable pub whole : Number ℕ
whole = record {
  of_ℕ = λ n. n;
  is_finite = λ n. true;
  lt = ltb;
  le = leb;
  eq = λ a b. a == b;
  add = λ a b. a + b;
  sub = λ a b. a - b;
  mul = λ a b. a * b;
  div = λ a b. a / b;
  neg = λ a. 0;
  abs = λ a. a;
  max = λ a b. if ltb a b then b else a;
  min = λ a b. if ltb a b then a else b;
}

leb-ltb : (a b : ℕ) → leb a b ≡ not (ltb b a)
leb-ltb a b = ground arith

==_symm : (a b : ℕ) → (a == b) ≡ (b == a)
==_symm a b = ground arith

pub whole-IsLawful : IsLawful whole
unfolding whole
whole-IsLawful = record {
  le-not_lt = λ a b ha hb. leb-ltb a b;
  eq_symm = λ a b. ==_symm a b;
  le_refl = λ a ha. ground arith;
  le_trans = λ a b c hb ab bc. ground arith;
  max-upper = λ a b ha hb. ground arith;
  min-lower = λ a b ha hb. ground arith;
}
