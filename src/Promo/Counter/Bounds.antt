-- ===== src/Promo/Counter/Bounds.antt =====
-- services/promo-engine/repository/redis.go: how often IncrementAndCheck and BudgetReserve admit.
use faisalaffan_design_syste.Base.{
  ℕ, ◌+◌, ◌≤◌, ◌<◌, String, ◌≡◌, sym, ap, ◌∙◌, subst, ◌⊎◌, inl, inr, Bool, true, false, ◌&&◌,
  Option, none, some, List, [], ◌∷◌, arith, if◌then◌else◌, tests, Bool-cases, tally, All, ◌==◌,
  nat_key, string_key, get_or,
}
use faisalaffan_design_syste.Base.Redis.{Redis}
use faisalaffan_design_syste.Promo.Model.{UsageLimits, has_any}
use faisalaffan_design_syste.Promo.Counter.Cases.{
  incremented, get-incremented, increment_and_check_cases,
}
use faisalaffan_design_syste.Promo.Counter.{
  Key, total, budget, daily, user, counter_key, LimitResult, Reading, reached, increment_and_check,
}

-- A user and the clock.
abbrev pub Call : Type 0
Call = String × Reading

-- The limit of a counter of the rule, and whether a call counts on it.
abbrev pub limit_of : UsageLimits → Key → ℕ
limit_of l (total rule) = l.max_total
limit_of l (daily rule today) = l.max_daily
limit_of l (user rule uid) = l.max_per_user
limit_of l (budget rule) = 0

abbrev pub counts_on : String → Call → Key → Bool
counts_on rule (uid, today) (total s) = rule == s
counts_on rule (uid, today) (daily s d) = (rule == s) && (today.date == d)
counts_on rule (uid, today) (user s u) = (rule == s) && (uid == u)
counts_on rule (uid, today) (budget s) = false

unreached : (o : Option ℕ) (limit : ℕ) → 0 < limit → reached o limit ≡ false → get_or o 0 < limit
unfolding reached
unreached none limit pos h = pos
unreached (some cur) limit pos h = grind tests

module _ (redis : Redis Key Unit) where
  abbrev pub used : Key → redis.R → ℕ
  used k r = get_or (redis.get k r) 0

  -- A call, after what has become of the store since the call before it.
  abbrev pub Turn : Type 0
  Turn = (redis.R → redis.R) × Call

  -- The calls that are admitted, in order.
  unfoldable pub admitted : UsageLimits → String → List Turn → redis.R → List Call
  unfolding increment_and_check
  admitted l rule [] r = []
  admitted l rule ((passes, c) ∷ turns) r =
      let answer = increment_and_check redis l rule c.0 c.1 (passes r) in
      let rest = admitted l rule turns answer.0 in
      if LimitResult.allowed answer.1 then c ∷ rest else rest

  -- Between the calls the counter neither expires nor is written by others.
  abbrev pub Lasts : Key → List Turn → Type 0
  Lasts k turns = All (λ turn. (r : redis.R) → redis.get k (turn.0 r) ≡ redis.get k r) turns

  used-incr_by :
      (k j : Key) (r : redis.R)
      → used j (redis.incr_by k 1 r) ≡ used j r + (if k == j then 1 else 0)
  used-incr_by k j r =
      ap (λ o. get_or o 0) (redis.get-incr_by k j 1 r) ∙ elim (Bool-cases (k == j)) [
        | inl e ↦ rw e (ap (λ x. used x r + 1) ((counter_key.test_iff k j).0 e))
        | inr e ↦ rw e (omega arith)
      ]

  pub used-all :
      (rule : String) (c : Call) (k : Key) (r : redis.R)
      → used k (incremented redis rule c.0 c.1 r) ≡ used k r + (if counts_on rule c k then 1 else 0)
  used-all rule c k r =
      let r1 = redis.incr_by (total rule) 1 r in
      let r2 = redis.incr_by (daily rule c.1.date) 1 r1 in
      ap (λ o. get_or o 0) (get-incremented redis rule c.0 c.1 k r)
      ∙ used-incr_by (user rule c.0) k r2
      ∙ ap (λ n. n + (if user rule c.0 == k then 1 else 0))
          (used-incr_by (daily rule c.1.date) k r1
            ∙ ap (λ n. n + (if daily rule c.1.date == k then 1 else 0))
                (used-incr_by (total rule) k r))
      ∙ of_key k
    where
      of_key :
          (k : Key)
          → used k r
              + (if total rule == k then 1 else 0)
              + (if daily rule c.1.date == k then 1 else 0)
              + (if user rule c.0 == k then 1 else 0)
            ≡ used k r + (if counts_on rule c k then 1 else 0)
      of_key (total s) = omega arith
      of_key (daily s d) = omega arith
      of_key (user s u) = omega arith
      of_key (budget s) = omega arith

  -- An admitted call was below the limits it counts on.
  below :
      (l : UsageLimits) (rule : String) (c : Call) (k : Key) (r : redis.R)
      → 0 < limit_of l k
      → reached (redis.get (total rule) r) l.max_total ≡ false
      → reached (redis.get (daily rule c.1.date) r) l.max_daily ≡ false
      → reached (redis.get (user rule c.0) r) l.max_per_user ≡ false
      → counts_on rule c k ≡ true
      → used k r < limit_of l k
  below l rule c (total s) r pos t d u e =
      rw (sym ((string_key.test_iff rule s).0 e))
        (unreached (redis.get (total rule) r) l.max_total pos t)
  below l rule c (daily s d') r pos t d u e =
      let same : daily rule c.1.date ≡ daily s d' =
        (counter_key.test_iff (daily rule c.1.date) (daily s d')).0 e in
      subst (λ k. used k r < l.max_daily) same
        (unreached (redis.get (daily rule c.1.date) r) l.max_daily pos d)
  below l rule c (user s u') r pos t d u e =
      let same : user rule c.0 ≡ user s u' =
        (counter_key.test_iff (user rule c.0) (user s u')).0 e in
      subst (λ k. used k r < l.max_per_user) same
        (unreached (redis.get (user rule c.0) r) l.max_per_user pos u)
  below l rule c (budget s) r pos t d u e = omega (arith, pos)

  -- A call either leaves the store and is refused, or counts on its three keys, below their limits.
  abbrev Counted : UsageLimits → String → Call → Key → redis.R → redis.R × LimitResult → Type 0
  Counted l rule c k r answer =
      ((LimitResult.allowed answer.1 ≡ false) × (answer.0 ≡ r))
      ⊎ ((LimitResult.allowed answer.1 ≡ true)
          × (used k answer.0 ≡ used k r + (if counts_on rule c k then 1 else 0))
          × (counts_on rule c k ≡ true → used k r < limit_of l k))

  some-limit : (l : UsageLimits) (k : Key) → 0 < limit_of l k → has_any l ≡ true
  unfolding has_any
  some-limit l (total s) pos = grind tests
  some-limit l (daily s d) pos = grind tests
  some-limit l (user s u) pos = grind tests
  some-limit l (budget s) pos = ground (arith, pos)

  increment-Counted :
      (l : UsageLimits) (rule : String) (c : Call) (k : Key) (r : redis.R)
      → 0 < limit_of l k
      → Counted l rule c k r (increment_and_check redis l rule c.0 c.1 r)
  increment-Counted l rule c k r pos =
      elim (increment_and_check_cases redis l rule c.0 c.1 r (some-limit l k pos)) [
        | inl refused ↦ inl refused
        | inr (passed, t, d, u, moved) ↦
            inr (passed, ap (used k) moved ∙ used-all rule c k r, below l rule c k r pos t d u)
      ]

  -- Over any calls on a rule whose counter has a limit above 0, between which the counter does not
  -- expire, those admitted that count on the counter, with what was used before, stay within the limit:
  -- in total, of a day and of a user.
  pub tally-admitted :
      (l : UsageLimits) (rule : String) (k : Key) (turns : List Turn) (r : redis.R)
      → 0 < limit_of l k
      → Lasts k turns
      → used k r ≤ limit_of l k
      → used k r + tally (λ c. counts_on rule c k) (admitted l rule turns r) ≤ limit_of l k
  unfolding admitted
  tally-admitted l rule k [] r pos lasts le = omega (arith, le)
  tally-admitted l rule k ((passes, c) ∷ turns) r pos (same, lasts) le =
      let start : used k (passes r) ≡ used k r = ap (λ o. get_or o 0) (same r) in
      let answer = increment_and_check redis l rule c.0 c.1 (passes r) in
      let go = tally-admitted l rule k turns answer.0 pos lasts in
      elim (increment-Counted l rule c k (passes r) pos) [
        | inl (refused, kept) ↦
            let unmoved : used k answer.0 ≡ used k r = ap (used k) kept ∙ start in
            let more = go (rw unmoved le) in rw refused (omega (arith, more, unmoved))
        | inr (passed, moved, low) ↦ rw passed elim (Bool-cases (counts_on rule c k)) [
          | inl e ↦
              let more = go (rw moved (rw e (omega (arith, low e)))) in
              ground (arith, more, moved, e, start)
          | inr e ↦
              let more = go (rw moved (rw e (omega (arith, le, start)))) in
              ground (arith, more, moved, e, start)
        ]
      ]
