-- ===== src/Base/Floats.antt =====
-- float64 as an interface. The operations are left open; the laws are that `<` is transitive
-- and that no number is below itself, which holds of IEEE numbers, NaN among them.
use Prim.Native.Nat.{ℕ, ◌+◌, ◌-◌, ◌*◌, ◌/◌, min}
use native.Mathlib.Omega.{arith}
use faisalaffan_design_syste.Base.Tests.{ltb, leb}
use mathlib.Core.Path.{◌≡◌}
use mathlib.Core.Bool.{Bool, true, false}

pub record Floats : Type 1 where
  pub F : Type 0
  pub less : F → F → Bool
  -- `>=`
  pub at_least : F → F → Bool
  pub add : F → F → F
  pub sub : F → F → F
  pub mul : F → F → F
  pub div : F → F → F
  pub neg : F → F
  pub sin : F → F
  pub cos : F → F
  pub sqrt : F → F
  pub atan2 : F → F → F
  pub least : F → F → F
  -- `math.Round`
  pub round : F → F
  -- `float64(n)`
  pub of_int : ℕ → F
  -- the literal m * 10^-k
  pub decimal : ℕ → ℕ → F
  pub pi : F
  pub max_float64 : F
  pub less_trans : (a b c : F) → less a b ≡ true → less b c ≡ true → less a c ≡ true
  pub less_irrefl : (a : F) → less a a ≡ false

pub ltb_trans : (a b c : ℕ) → ltb a b ≡ true → ltb b c ≡ true → ltb a c ≡ true
ltb_trans a b c h k = ground arith

pub ltb_irrefl : (a : ℕ) → ltb a a ≡ false
ltb_irrefl a = ground arith

-- Natural numbers in place of floats: enough to meet the laws, and to run tests.
abbrev pub nat_floats : Floats
nat_floats = record {
  F = ℕ;
  less = ltb;
  at_least = λ a b. leb b a;
  add = λ a b. a + b;
  sub = λ a b. a - b;
  mul = λ a b. a * b;
  div = λ a b. a / b;
  neg = λ a. 0;
  sin = λ a. a;
  cos = λ a. 1;
  sqrt = λ a. a;
  atan2 = λ a b. a;
  least = λ a b. min a b;
  round = λ a. a;
  of_int = λ n. n;
  decimal = λ m k. m;
  pi = 3;
  max_float64 = 1000;
  less_trans = ltb_trans;
  less_irrefl = ltb_irrefl;
}
