-- ===== src/Base/Lists.antt =====
-- Lists measured by native numbers, and predicates on their elements.
use Prim.Native.Nat.{ℕ, zero, suc, ◌+◌, ◌-◌}
use mathlib.Core.Path.{◌≡◌, refl, ap}
use mathlib.Core.Bool.{Bool}
use mathlib.Core.Option.{Option, none, some}
use mathlib.Core.List.{List, [], ◌∷◌, ◌++◌, map, Perm, Sublist, sublist-cons_self}
use mathlib.Core.List.Perm
use mathlib.Core.List.Sublist
use native.Mathlib.Omega.{arith}
use faisalaffan_design_syste.Base.Tests.{if◌then◌else◌}

module _ {ℓ} {A : Type ℓ} where
  abbrev pub length : List A → ℕ
  length [] = 0
  length (x ∷ xs) = suc (length xs)

  pub length-append : (xs ys : List A) → length (xs ++ ys) ≡ length xs + length ys
  length-append [] ys = omega arith
  length-append (x ∷ xs) ys = omega (arith, length-append xs ys)

  abbrev pub take : ℕ → List A → List A
  take zero xs = []
  take (suc n) [] = []
  take (suc n) (x ∷ xs) = x ∷ take n xs

  abbrev pub drop : ℕ → List A → List A
  drop zero xs = xs
  drop (suc n) [] = []
  drop (suc n) (x ∷ xs) = drop n xs

  pub length-drop : (n : ℕ) (xs : List A) → length (drop n xs) ≡ length xs - n
  length-drop zero xs = omega arith
  length-drop (suc n) [] = omega arith
  length-drop (suc n) (x ∷ xs) = omega (arith, length-drop n xs)

  abbrev pub get_elem? : List A → ℕ → Option A
  get_elem? [] i = none
  get_elem? (x ∷ xs) zero = some x
  get_elem? (x ∷ xs) (suc i) = get_elem? xs i

  -- `append(xs[:i], xs[i+1:]...)`
  abbrev pub remove_at : ℕ → List A → List A
  remove_at i [] = []
  remove_at zero (x ∷ xs) = xs
  remove_at (suc i) (x ∷ xs) = x ∷ remove_at i xs

  -- The elements that pass a Boolean test, and how many they are.
  abbrev pub keep : (A → Bool) → List A → List A
  keep p [] = []
  keep p (x ∷ xs) = if p x then x ∷ keep p xs else keep p xs

  abbrev pub tally : (A → Bool) → List A → ℕ
  tally p [] = 0
  tally p (x ∷ xs) = if p x then suc (tally p xs) else tally p xs

  pub tally-append : (p : A → Bool) (xs ys : List A) → tally p (xs ++ ys) ≡ tally p xs + tally p ys
  tally-append p [] ys = omega arith
  tally-append p (x ∷ xs) ys = ground (arith, tally-append p xs ys)

  pub length-keep : (p : A → Bool) (xs : List A) → length (keep p xs) ≡ tally p xs
  length-keep p [] = refl
  length-keep p (x ∷ xs) = ground (arith, length-keep p xs)

  -- A predicate holds of each element.
  abbrev pub All {κ} : (A → Type κ) → List A → Type κ
  All Holds [] = Unit
  All Holds (a ∷ rest) = Holds a × All Holds rest

  pub All-map {κ μ} :
      (P : A → Type κ) (Q : A → Type μ) (xs : List A) → ((x : A) → P x → Q x) → All P xs → All Q xs
  All-map P Q [] f h = tt
  All-map P Q (x ∷ xs) f h = (f x h.0, All-map P Q xs f h.1)

  pub All-append {κ} :
      (Holds : A → Type κ) (front back : List A)
      → All Holds back
      → All Holds front
      → All Holds (front ++ back)
  All-append Holds [] back last first = last
  All-append Holds (a ∷ front) back last first = (first.0, All-append Holds front back last first.1)

-- Removing the element at an index.
module _ {ℓ} {A : Type ℓ} where
  pub remove_at-perm :
      (i : ℕ) (xs : List A) (x : A) → get_elem? xs i ≡ some x → Perm (x ∷ remove_at i xs) xs
  remove_at-perm i [] x h = absurd (cc h)
  remove_at-perm zero (y ∷ ys) x h = Perm.cons' (cc) Perm.rfl
  remove_at-perm (suc i) (y ∷ ys) x h =
      Perm.trans (Perm.swap y x (remove_at i ys)) (Perm.cons y (remove_at-perm i ys x h))

  pub remove_at-sublist : (i : ℕ) (xs : List A) → Sublist (remove_at i xs) xs
  remove_at-sublist i [] = Sublist.refl []
  remove_at-sublist zero (y ∷ ys) = sublist-cons_self y ys
  remove_at-sublist (suc i) (y ∷ ys) = Sublist.cons-cons y (remove_at-sublist i ys)

  pub length-remove_at :
      (i : ℕ) (xs : List A) (x : A)
      → get_elem? xs i ≡ some x
      → suc (length (remove_at i xs)) ≡ length xs
  length-remove_at i [] x h = absurd (cc h)
  length-remove_at zero (y ∷ ys) x h = refl
  length-remove_at (suc i) (y ∷ ys) x h = omega (arith, length-remove_at i ys x h)

  pub remove_at-map {κ} :
      {B : Type κ} (f : A → B) (i : ℕ) (xs : List A)
      → remove_at i (map f xs) ≡ map f (remove_at i xs)
  remove_at-map f i [] = refl
  remove_at-map f zero (y ∷ ys) = refl
  remove_at-map f (suc i) (y ∷ ys) = ap (◌∷◌ (f y)) (remove_at-map f i ys)

  pub length-map {κ} : {B : Type κ} (f : A → B) (xs : List A) → length (map f xs) ≡ length xs
  length-map f [] = refl
  length-map f (x ∷ xs) = ap suc (length-map f xs)
