-- ===== src/Base/Keys.antt =====
-- Keys of maps: a type whose values a program tests for equality. Strings and numbers are keys.
use Prim.Native.Nat.{ℕ}
use Prim.Native.String.{String}
use mathlib.Core.Path.{◌≡◌, refl}
use mathlib.Core.Logic.{◌↔◌, ◌≢◌}
use mathlib.Core.Bool.{Bool, true, false}
use native.Mathlib.Omega.{arith}
use text.Mathlib.Text.{◌==◌ as text_beq}
use text.Mathlib.TextEquality.{eq_iff}
use faisalaffan_design_syste.Base.Tests.{nat_beq, nat_beq_iff}

pub record HasEq {ℓ} (K : Type ℓ) : Type ℓ where
  pub test : K → K → Bool
  pub test_iff : (x y : K) → (test x y ≡ true) ↔ (x ≡ y)

instance abbrev pub string_key : HasEq String
string_key = record { test = text_beq; test_iff = eq_iff }

instance abbrev pub nat_key : HasEq ℕ
nat_key = record { test = nat_beq; test_iff = nat_beq_iff }

module _ {ℓ} {K : Type ℓ} ⦃e : HasEq K⦄ where
  infix 50 ◌==◌
  abbrev pub ◌==◌ : K → K → Bool
  x == y = e.test x y

  pub ==-refl : (x : K) → (x == x) ≡ true
  ==-refl x = (e.test_iff x x).1 refl

  pub ==_of_ne : (x y : K) → x ≢ y → (x == y) ≡ false
  ==_of_ne x y h = ground (arith, e.test_iff x y)
