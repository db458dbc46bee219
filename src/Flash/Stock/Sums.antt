-- ===== src/Flash/Stock/Sums.antt =====
-- Sums over the indices below a bound, and the indices that a rotation visits.
use native.Mathlib.Nat.{mod-eq_of_lt, add-mod_right}
use faisalaffan_design_syste.Base.{
  ℕ, zero, suc, ◌+◌, ◌-◌, ◌*◌, ◌%◌, ◌<◌, ◌≡◌, refl, ap, ◌∙◌, subst, ◌≢◌, inl, inr, arith, ltb, leb,
  nat_beq, if◌then◌else◌, leb→le, nat_beq_iff, Bool-cases,
}

-- f 0 + ... + f (n - 1)
abbrev pub sum : (ℕ → ℕ) → ℕ → ℕ
sum f zero = 0
sum f (suc n) = sum f n + f n

pub sum-cong : (f g : ℕ → ℕ) (n : ℕ) → ((i : ℕ) → i < n → f i ≡ g i) → sum f n ≡ sum g n
sum-cong f g zero h = refl
sum-cong f g (suc n) h =
    omega (arith, sum-cong f g n (λ i lt. h i (omega (arith, lt))), h n (omega arith))

-- One summand that shrinks by `q` takes `q` off the sum.
pub sum-shrink :
    (f g : ℕ → ℕ) (n i q : ℕ)
    → i < n
    → g i + q ≡ f i
    → ((j : ℕ) → i ≢ j → g j ≡ f j)
    → sum g n + q ≡ sum f n
sum-shrink f g zero i q lt e h = absurd (omega (arith, lt))
sum-shrink f g (suc n) i q lt e h = elim (Bool-cases (nat_beq i n)) [
  | inl t ↦
      let i-n : i ≡ n = (nat_beq_iff i n).0 t in
      let low : sum g n ≡ sum f n =
        sum-cong g f n (λ j lt'. h j (λ e'. omega (arith, lt', e', i-n))) in
      omega (arith, low, subst (λ x. g x + q ≡ f x) i-n e)
  | inr t ↦
      let i-ne : i ≢ n = λ e'. ground (arith, (nat_beq_iff i n).1 e') in
      let low : sum g n + q ≡ sum f n = sum-shrink f g n i q (omega (arith, lt, i-ne)) e h in
      omega (arith, low, h n i-ne)
]

-- A first part of size `c` with one more each.
pub sum-split :
    (base rem n : ℕ)
    → sum (λ i. if ltb i rem then base + 1 else base) n ≡ base * n + (if ltb n rem then n else rem)
sum-split base rem zero = ground arith
sum-split base rem (suc n) = ground (arith, sum-split base rem n)

-- A rotation by `start` visits each index below `count`.
pub rotate-reaches :
    (start j count : ℕ)
    → start < count
    → j < count
    → (i : ℕ) × (i < count) × ((start + i) % count ≡ j)
rotate-reaches start j count s-lt j-lt = elim (Bool-cases (leb start j)) [
  | inl t ↦
      let e : start + (j - start) ≡ j = omega (arith, leb→le start j t) in
      (j - start, omega (arith, j-lt), ap (λ x. x % count) e ∙ mod-eq_of_lt j-lt)
  | inr t ↦
      let lt : j < start = ground (arith, t) in
      let e : start + (j + count - start) ≡ j + count = omega (arith, s-lt) in
      (
        j + count - start,
        omega (arith, lt, s-lt),
        ap (λ x. x % count) e ∙ add-mod_right j count ∙ mod-eq_of_lt j-lt,
      )
]
