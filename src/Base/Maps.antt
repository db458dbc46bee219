-- ===== src/Base/Maps.antt =====
-- Go's built-in maps as association lists: the first entry for a key is the one that is read.
use mathlib.Core.Path.{◌≡◌, refl}
use mathlib.Core.Logic.{◌≢◌}
use mathlib.Core.List.{List, [], ◌∷◌}
use mathlib.Core.Option.{Option, none, some}
use native.Mathlib.Omega.{arith}
use faisalaffan_design_syste.Base.Tests.{if◌then◌else◌}
use faisalaffan_design_syste.Base.Keys.{HasEq, ◌==◌, ==-refl, ==_of_ne}

module _ {ℓ κ} {K : Type ℓ} {V : Type κ} ⦃e : HasEq K⦄ where
  -- `delete(m, k)`
  unfoldable pub remove : K → List (K × V) → List (K × V)
  remove k [] = []
  remove k ((x, old) ∷ rest) = if x == k then remove k rest else (x, old) ∷ remove k rest

  -- `m[k] = new`
  unfoldable pub insert : K → V → List (K × V) → List (K × V)
  insert k new [] = (k, new) ∷ []
  insert k new ((x, old) ∷ rest) = if x == k then (k, new) ∷ rest else (x, old) ∷ insert k new rest

  -- `m[k]`
  unfoldable pub lookup : K → List (K × V) → Option V
  lookup k [] = none
  lookup k ((x, old) ∷ rest) = if x == k then some old else lookup k rest

  pub lookup-remove :
      (k j : K) (m : List (K × V)) → lookup j (remove k m) ≡ (if k == j then none else lookup j m)
  unfolding lookup remove
  lookup-remove k j [] = ground arith
  lookup-remove k j ((x, old) ∷ rest) =
      ground (arith, lookup-remove k j rest, e.test_iff x j, e.test_iff x k, e.test_iff k j)

  pub lookup-insert :
      (k j : K) (new : V) (m : List (K × V))
      → lookup j (insert k new m) ≡ (if k == j then some new else lookup j m)
  unfolding lookup insert
  lookup-insert k j new [] = refl
  lookup-insert k j new ((x, old) ∷ rest) =
      ground (arith, lookup-insert k j new rest, e.test_iff x j, e.test_iff x k, e.test_iff k j)

  pub lookup-insert_self :
      (k : K) (new : V) (m : List (K × V)) → lookup k (insert k new m) ≡ some new
  lookup-insert_self k new m = rw (lookup-insert k k new m) (rw (==-refl k))

  pub lookup-insert_ne :
      (k j : K) (new : V) (m : List (K × V)) → k ≢ j → lookup j (insert k new m) ≡ lookup j m
  lookup-insert_ne k j new m h = rw (lookup-insert k j new m) (rw (==_of_ne k j h))
