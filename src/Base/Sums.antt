-- ===== src/Base/Sums.antt =====
-- Sums over a list, which do not depend on its order.
use Prim.Native.Nat.{ℕ, ◌+◌}
use mathlib.Core.Path.{◌≡◌, refl, sym, ◌∙◌}
use mathlib.Core.Bool.{Bool}
use mathlib.Core.List.{List, [], ◌∷◌, ◌++◌, Perm, foldr}
use mathlib.Core.List.Perm
use native.Mathlib.Omega.{arith}
use faisalaffan_design_syste.Base.Tests.{if◌then◌else◌}
use faisalaffan_design_syste.Base.Lists.{tally}

nat_set : IsSet ℕ
nat_set = hlevel

module _ {ℓ} {A : Type ℓ} where
  abbrev pub add_of : (A → ℕ) → A → ℕ → ℕ
  add_of f x n = f x + n

  abbrev pub sum_by : (A → ℕ) → List A → ℕ
  sum_by f xs = foldr (add_of f) 0 xs

  sum_by-swap : (f : A → ℕ) (a b : A) (n : ℕ) → f a + (f b + n) ≡ f b + (f a + n)
  sum_by-swap f a b n = omega arith

  pub sum_by-perm : (f : A → ℕ) {xs ys : List A} → Perm xs ys → sum_by f xs ≡ sum_by f ys
  sum_by-perm f p = Perm.foldr-eq nat_set (add_of f) (sum_by-swap f) p 0

  pub sum_by-append : (f : A → ℕ) (xs ys : List A) → sum_by f (xs ++ ys) ≡ sum_by f xs + sum_by f ys
  sum_by-append f [] ys = omega arith
  sum_by-append f (x ∷ xs) ys = omega (arith, sum_by-append f xs ys)

  pub tally-sum_by :
      (p : A → Bool) (xs : List A) → tally p xs ≡ sum_by (λ x. if p x then 1 else 0) xs
  tally-sum_by p [] = refl
  tally-sum_by p (x ∷ xs) = ground (arith, tally-sum_by p xs)

  pub tally-perm : (p : A → Bool) {xs ys : List A} → Perm xs ys → tally p xs ≡ tally p ys
  tally-perm p {xs} {ys} q = tally-sum_by p xs ∙ sum_by-perm _ q ∙ sym (tally-sum_by p ys)
