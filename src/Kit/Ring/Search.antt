-- ===== src/Kit/Ring/Search.antt =====
-- `sort.Search` of Go's library: the binary search that `HashRing.Get` calls.
use faisalaffan_design_syste.Base.{
  ℕ, zero, suc, ◌+◌, ◌-◌, ◌/◌, ◌≤◌, ◌<◌, ◌≡◌, inl, inr, Bool, true, false, arith, ltb,
  if◌then◌else◌, Bool-cases,
}

-- `for i < j { h := (i+j)/2; if !f(h) { i = h+1 } else { j = h } }`, on fuel.
pub search_from : ℕ → (ℕ → Bool) → ℕ → ℕ → ℕ
search_from zero f i j = i
search_from (suc fuel) f i j =
    let right = search_from fuel f ((i + j) / 2 + 1) j in
    let left = search_from fuel f i ((i + j) / 2) in
    if ltb i j then (if f ((i + j) / 2) then left else right) else i

-- The interval shrinks in each round, so `n` rounds are enough.
unfoldable pub sort_search : ℕ → (ℕ → Bool) → ℕ
unfolding search_from
sort_search n f = search_from n f 0 n

-- A test that stays true once it is, up to `n`.
abbrev pub IsMonotone : ℕ → (ℕ → Bool) → Type 0
IsMonotone n f = (a b : ℕ) → a ≤ b → b < n → f a ≡ true → f b ≡ true

abbrev pub IsFirst : ℕ → (ℕ → Bool) → ℕ → Type 0
IsFirst n f r = (r ≤ n) × ((a : ℕ) → a < r → f a ≡ false) × (r < n → f r ≡ true)

search_from-IsFirst :
    (n fuel : ℕ) (f : ℕ → Bool) (i j : ℕ)
    → IsMonotone n f
    → j ≤ n
    → i ≤ j
    → j - i ≤ fuel
    → ((a : ℕ) → a < i → f a ≡ false)
    → (j < n → f j ≡ true)
    → IsFirst n f (search_from fuel f i j)
unfolding search_from
search_from-IsFirst n zero f i j mono jn ij fuel lo hi =
    let e : i ≡ j = omega arith in (omega arith, lo, λ lt. rw e (hi (omega arith)))
search_from-IsFirst n (suc fuel) f i j mono jn ij le lo hi = elim (Bool-cases (ltb i j)) [
  | inr done ↦
      rw done (let e : i ≡ j = ground arith in (omega arith, lo, λ lt. rw e (hi (omega arith))))
  | inl more ↦ rw more (elim (Bool-cases (f ((i + j) / 2))) [
    | inl up ↦ rw up (
        search_from-IsFirst n fuel f i ((i + j) / 2) mono (ground arith) (ground arith)
          (ground arith) lo (λ _. up))
    | inr down ↦ rw down (
        search_from-IsFirst n fuel f ((i + j) / 2 + 1) j mono jn (ground arith) (ground arith)
          (λ a h. ground (arith, mono a ((i + j) / 2))) hi)
  ])
]

-- The search finds the first index below `n` at which a monotone test holds, or `n`.
pub sort_search-IsFirst : (n : ℕ) (f : ℕ → Bool) → IsMonotone n f → IsFirst n f (sort_search n f)
unfolding sort_search
sort_search-IsFirst n f mono =
    search_from-IsFirst n n f 0 n mono (omega arith) (omega arith) (omega arith)
      (λ a h. absurd (omega arith)) (λ h. absurd (omega arith))
