-- ===== src/Promo/Counter/Unset.antt =====
-- services/promo-engine/repository/redis.go: rules of which some limits are set and others are not.
use faisalaffan_design_syste.Base.{
  ℕ, ◌+◌, String, ◌≡◌, refl, sym, ◌∙◌, subst, ◌⊎◌, inl, inr, true, false, Option, some, arith, leb,
  le→leb, Bool-cases, ◌==◌, nat_key, string_key, get_or,
}
use faisalaffan_design_syste.Base.Redis.{Redis}
use faisalaffan_design_syste.Promo.Model.{UsageLimits, has_any}
use faisalaffan_design_syste.Promo.Counter.Cases.{
  incremented, get-incremented, increment_and_check_cases,
}
use faisalaffan_design_syste.Promo.Counter.{
  Key, total, daily, user, counter_key, LimitResult, Reading, reached, increment_and_check,
  check_all, check_all_limits,
}

-- Some limit is unset while another is set.
abbrev pub IsPartlyUnset : UsageLimits → Type 0
IsPartlyUnset l =
    (has_any l ≡ true) × ((l.max_total ≡ 0) ⊎ ((l.max_daily ≡ 0) ⊎ (l.max_per_user ≡ 0)))

leb_zero : (n : ℕ) → leb 0 n ≡ true
leb_zero n = le→leb 0 n (omega arith)

module _ (redis : Redis Key Unit) where
  -- The read-only check refuses a rule with an unset limit whatever the counters are.
  pub check_all_limits-unset :
      (l : UsageLimits) (rule uid today : String) (r : redis.R)
      → IsPartlyUnset l
      → LimitResult.allowed (check_all_limits redis l rule uid today r) ≡ false
  unfolding check_all_limits check_all
  check_all_limits-unset l rule uid today r (some_set, inl e) =
      rw some_set (rw e (ground (arith, leb_zero (get_or (redis.get (total rule) r) 0))))
  check_all_limits-unset l rule uid today r (some_set, inr (inl e)) =
      rw some_set (rw e (ground (arith, leb_zero (get_or (redis.get (daily rule today) r) 0))))
  check_all_limits-unset l rule uid today r (some_set, inr (inr e)) =
      rw some_set (rw e (ground (arith, leb_zero (get_or (redis.get (user rule uid) r) 0))))

  set-incr_by :
      (k j : Key) (r : redis.R)
      → (k ≡ j) ⊎ ((n : ℕ) × (redis.get j r ≡ some n))
      → (m : ℕ) × (redis.get j (redis.incr_by k 1 r) ≡ some m)
  set-incr_by k j r known =
      let law = redis.get-incr_by k j 1 r in
      elim (Bool-cases (k == j)) [
        | inl e ↦ (get_or (redis.get k r) 0 + 1, law ∙ rw e refl)
        | inr e ↦ elim known [
          | inl same ↦ absurd (cc (e, (counter_key.test_iff k j).1 same))
          | inr (n, h) ↦ (n, law ∙ rw e h)
        ]
      ]

  -- The counters that an admitted call has set.
  abbrev AllSet : String → String → Reading → redis.R → Type 0
  AllSet rule uid today r =
      ((m : ℕ) × (redis.get (total rule) r ≡ some m))
      × ((m : ℕ) × (redis.get (daily rule today.date) r ≡ some m))
      × ((m : ℕ) × (redis.get (user rule uid) r ≡ some m))

  incremented-AllSet :
      (rule uid : String) (today : Reading) (r : redis.R)
      → AllSet rule uid today (incremented redis rule uid today r)
  incremented-AllSet rule uid today r =
      let t = set-incr_by (total rule) (total rule) r (inl refl) in
      let r1 = redis.incr_by (total rule) 1 r in
      let d = set-incr_by (daily rule today.date) (daily rule today.date) r1 (inl refl) in
      let r2 = redis.incr_by (daily rule today.date) 1 r1 in
      let stays : (j : Key)
          → (m : ℕ) × (redis.get j (redis.incr_by (user rule uid) 1 r2) ≡ some m)
          → (m : ℕ) × (redis.get j (incremented redis rule uid today r) ≡ some m) =
        λ j (m, e). (m, get-incremented redis rule uid today j r ∙ e) in
      (
        stays (total rule) (
            set-incr_by (user rule uid) (total rule) r2
              (inr (set-incr_by (daily rule today.date) (total rule) r1 (inr t)))),
        stays (daily rule today.date)
            (set-incr_by (user rule uid) (daily rule today.date) r2 (inr d)),
        stays (user rule uid) (set-incr_by (user rule uid) (user rule uid) r2 (inl refl)),
      )

  reached-zero : (o : Option ℕ) (limit n : ℕ) → limit ≡ 0 → o ≡ some n → reached o limit ≡ true
  unfolding reached
  reached-zero o limit n e h = rw h (rw e (leb_zero n))

  AllSet-refuses :
      (l : UsageLimits) (rule uid : String) (today : Reading) (r : redis.R)
      → IsPartlyUnset l
      → AllSet rule uid today r
      → LimitResult.allowed (increment_and_check redis l rule uid today r).1 ≡ false
  AllSet-refuses l rule uid today r (some_set, unset) (t, d, u) =
      elim (increment_and_check_cases redis l rule uid today r some_set) [
        | inl (refused, kept) ↦ refused
        | inr (passed, free_t, free_d, free_u, moved) ↦ elim unset [
          | inl e ↦ absurd (cc (free_t, reached-zero _ l.max_total t.0 e t.1))
          | inr rest ↦ elim rest [
            | inl e ↦ absurd (cc (free_d, reached-zero _ l.max_daily d.0 e d.1))
            | inr e ↦ absurd (cc (free_u, reached-zero _ l.max_per_user u.0 e u.1))
          ]
        ]
      ]

  -- With some limit set and another one unset, the user whom IncrementAndCheck has admitted once for a
  -- rule is refused at once afterwards, however high the limit that is set.
  pub increment_and_check_twice :
      (l : UsageLimits) (rule uid : String) (today : Reading) (r : redis.R)
      → IsPartlyUnset l
      → LimitResult.allowed (increment_and_check redis l rule uid today r).1 ≡ true
      → LimitResult.allowed
          (increment_and_check redis l rule uid today
            (increment_and_check redis l rule uid today r).0).1
        ≡ false
  increment_and_check_twice l rule uid today r part first =
      elim (increment_and_check_cases redis l rule uid today r part.0) [
        | inl (refused, kept) ↦ absurd (cc (first, refused))
        | inr (passed, t, d, u, moved) ↦
            AllSet-refuses l rule uid today _ part
              (subst (AllSet rule uid today) (sym moved) (incremented-AllSet rule uid today r))
      ]
