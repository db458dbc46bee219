-- ===== src/Promo/Counter/Cases.antt =====
-- services/promo-engine/repository/redis.go: what a call of IncrementAndCheck under some limit does.
use faisalaffan_design_syste.Base.{
  ℕ, ◌*◌, ◌<◌, String, ◌≡◌, refl, ◌∙◌, ◌⊎◌, inl, inr, true, false, arith, Bool-cases, ◌==◌, nat_key,
  string_key, get_or,
}
use faisalaffan_design_syste.Base.Redis.{Redis}
use faisalaffan_design_syste.Promo.Model.{UsageLimits, has_any}
use faisalaffan_design_syste.Promo.Counter.{
  Key, total, daily, user, counter_key, LimitResult, Reading, reached, ttl_at, expire_first,
  increment, incr_check, increment_and_check,
}

module _ (redis : Redis Key Unit) where
  -- What an admitted call leaves.
  abbrev pub incremented : String → String → Reading → redis.R → redis.R
  incremented rule uid today r = (increment redis rule uid today.date (ttl_at today.now) r).0

  get-expire_first :
      (k j : Key) (n seconds : ℕ) (r : redis.R)
      → 0 < seconds
      → redis.get j (expire_first redis k n seconds r) ≡ redis.get j r
  unfolding expire_first
  get-expire_first k j n seconds r pos = elim (Bool-cases (n == 1)) [
    | inl e ↦ rw e (redis.get-expire k j seconds r pos)
    | inr e ↦ rw e refl
  ]

  ttl_at_pos : (now : ℕ) → 0 < ttl_at now
  unfolding ttl_at
  ttl_at_pos now = ground arith

  -- The expiries leave the counters as the three increments have made them.
  pub get-incremented :
      (rule uid : String) (today : Reading) (j : Key) (r : redis.R)
      → redis.get j (incremented rule uid today r)
        ≡ redis.get j (
            redis.incr_by
              (user rule uid)
              1
              (redis.incr_by (daily rule today.date) 1 (redis.incr_by (total rule) 1 r)))
  unfolding increment
  get-incremented rule uid today j r =
      let pos = ttl_at_pos today.now in
      let r1 = redis.incr_by (total rule) 1 r in
      let r2 = redis.incr_by (daily rule today.date) 1 r1 in
      let r3 = redis.incr_by (user rule uid) 1 r2 in
      let value : Key → redis.R → ℕ = λ k r'. get_or (redis.get k r') 0 in
      get-expire_first (user rule uid) j (value (user rule uid) r3) (ttl_at today.now) _ pos
      ∙ get-expire_first (daily rule today.date) j (value (daily rule today.date) r2)
          (ttl_at today.now) _ pos
      ∙ get-expire_first (total rule) j (value (total rule) r1) (86400 * 365) _ (omega arith)

  -- A call is refused and leaves the store, or has reached no limit and counts on the three counters.
  pub increment_and_check_cases :
      (l : UsageLimits) (rule uid : String) (today : Reading) (r : redis.R)
      → has_any l ≡ true
      → ((LimitResult.allowed (increment_and_check redis l rule uid today r).1 ≡ false)
          × ((increment_and_check redis l rule uid today r).0 ≡ r))
        ⊎ ((LimitResult.allowed (increment_and_check redis l rule uid today r).1 ≡ true)
            × (reached (redis.get (total rule) r) l.max_total ≡ false)
            × (reached (redis.get (daily rule today.date) r) l.max_daily ≡ false)
            × (reached (redis.get (user rule uid) r) l.max_per_user ≡ false)
            × ((increment_and_check redis l rule uid today r).0 ≡ incremented rule uid today r))
  unfolding increment_and_check incr_check
  increment_and_check_cases l rule uid today r some_set =
      rw some_set elim (Bool-cases (reached (redis.get (total rule) r) l.max_total)) [
        | inl t ↦ rw t (inl (refl, refl))
        | inr t ↦
            rw t elim (Bool-cases (reached (redis.get (daily rule today.date) r) l.max_daily)) [
              | inl d ↦ rw d (inl (refl, refl))
              | inr d ↦
                  rw d elim (Bool-cases (reached (redis.get (user rule uid) r) l.max_per_user)) [
                    | inl u ↦ rw u (inl (refl, refl))
                    | inr u ↦ rw u (inr (refl, refl, refl, refl, refl))
                  ]
            ]
      ]
