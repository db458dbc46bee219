-- ===== src/Base/Sorting.antt =====
-- `sort.Ints` and `sort.Slice` as an insertion sort, and membership as a Boolean.
use Prim.Native.Nat.{ℕ}
use mathlib.Core.Path.{◌≡◌, refl}
use mathlib.Core.Bool.{Bool, true, false, ◌||◌, ◌&&◌}
use mathlib.Core.List.{List, [], ◌∷◌, ◌++◌}
use native.Mathlib.Omega.{arith}
use faisalaffan_design_syste.Base.Tests.{if◌then◌else◌, leb}
use faisalaffan_design_syste.Base.Lists.{All, keep}
use faisalaffan_design_syste.Base.Keys.{HasEq, ◌==◌}

module _ {ℓ} {A : Type ℓ} (le : A → A → Bool) where
  unfoldable pub place : A → List A → List A
  place a [] = a ∷ []
  place a (x ∷ xs) = if le a x then a ∷ x ∷ xs else x ∷ place a xs

  unfoldable pub sort : List A → List A
  unfolding place
  sort [] = []
  sort (x ∷ xs) = place x (sort xs)

  -- Every element is before all that follow it.
  abbrev pub IsSorted : List A → Type 0
  IsSorted [] = Unit
  IsSorted (x ∷ xs) = All (λ y. le x y ≡ true) xs × IsSorted xs

  module _ (le_total : (a b : A) → le a b ≡ false → le b a ≡ true)
      (le_trans : (a b c : A) → le a b ≡ true → le b c ≡ true → le a c ≡ true) where
    All-trans :
        (a x : A) (xs : List A)
        → le a x ≡ true
        → All (λ y. le x y ≡ true) xs
        → All (λ y. le a y ≡ true) xs
    All-trans a x [] h p = tt
    All-trans a x (y ∷ ys) h p = (le_trans a x y h p.0, All-trans a x ys h p.1)

    All-place :
        (a x : A) (xs : List A)
        → le x a ≡ true
        → All (λ y. le x y ≡ true) xs
        → All (λ y. le x y ≡ true) (place a xs)
    unfolding place
    All-place a x [] h p = (h, tt)
    All-place a x (y ∷ ys) h p = ground (arith, All-place a x ys h p.1)

    place-IsSorted : (a : A) (xs : List A) → IsSorted xs → IsSorted (place a xs)
    unfolding place
    place-IsSorted a [] s = (tt, tt)
    place-IsSorted a (x ∷ xs) s =
        ground (arith, le_total a x, All-trans a x xs, All-place a x xs, place-IsSorted a xs s.1)

    pub sort-IsSorted : (xs : List A) → IsSorted (sort xs)
    unfolding sort
    sort-IsSorted [] = tt
    sort-IsSorted (x ∷ xs) = place-IsSorted x (sort xs) (sort-IsSorted xs)

module _ {ℓ} {A : Type ℓ} ⦃e : HasEq A⦄ where
  unfoldable pub contains : A → List A → Bool
  contains a [] = false
  contains a (x ∷ xs) = x == a || contains a xs

  pub contains-append :
      (a : A) (xs ys : List A) → contains a (xs ++ ys) ≡ (contains a xs || contains a ys)
  unfolding contains
  contains-append a [] ys = refl
  contains-append a (x ∷ xs) ys = ground (arith, contains-append a xs ys)

  pub contains-keep :
      (a : A) (p : A → Bool) (xs : List A) → contains a (keep p xs) ≡ (p a && contains a xs)
  unfolding contains
  contains-keep a p [] = ground arith
  contains-keep a p (x ∷ xs) = ground (arith, e.test_iff x a, contains-keep a p xs)

  module _ (le : A → A → Bool) where
    contains-place :
        (a b : A) (xs : List A) → contains a (place le b xs) ≡ (b == a || contains a xs)
    unfolding contains place
    contains-place a b [] = refl
    contains-place a b (x ∷ xs) = ground (arith, contains-place a b xs)

    -- Sorting neither loses nor adds an element.
    pub contains-sort : (a : A) (xs : List A) → contains a (sort le xs) ≡ contains a xs
    unfolding contains sort
    contains-sort a [] = refl
    contains-sort a (x ∷ xs) = ground (arith, contains-place a x (sort le xs), contains-sort a xs)

pub leb_total : (a b : ℕ) → leb a b ≡ false → leb b a ≡ true
leb_total a b h = ground arith

pub leb_trans : (a b c : ℕ) → leb a b ≡ true → leb b c ≡ true → leb a c ≡ true
leb_trans a b c h k = ground arith
