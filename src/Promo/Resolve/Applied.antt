-- ===== src/Promo/Resolve/Applied.antt =====
-- services/promo-engine/service/resolver.go with the counters of repository/redis.go: which rules Resolve
-- applies, and what it counts.
use mathlib.Core.List.{append_assoc, append-nil, map-append}
use faisalaffan_design_syste.Base.{
  ℕ, ◌+◌, ◌≤◌, String, ◌≡◌, refl, sym, ap, ◌∙◌, ◌⊎◌, inl, inr, Bool, true, false, not, ◌&&◌, Option,
  some, List, [], ◌∷◌, ◌++◌, map, arith, ltb, leb, if◌then◌else◌, Bool-cases, tally, tally-append,
  ◌==◌, nat_key, string_key,
}
use faisalaffan_design_syste.Base.Sums.{sum_by, tally-perm}
use faisalaffan_design_syste.Base.Floats.{Floats}
use faisalaffan_design_syste.Base.Redis.{Redis}
use faisalaffan_design_syste.Promo.Model.{has_any}
use faisalaffan_design_syste.Promo.Rule.{Rule}
use faisalaffan_design_syste.Promo.Counter.{Key, total, counter_key, Reading, increment_and_check}
use faisalaffan_design_syste.Promo.Counter.Cases.{increment_and_check_cases}
use faisalaffan_design_syste.Promo.Counter.Bounds.{used, used-all}
use faisalaffan_design_syste.Promo.Resolve.{
  GroupRule, Sorter, Increments, Progress, AppliedRule, try_reserve, attempt, best_of_group,
  apply_groups, stackable_round, apply_stackable,
}
use faisalaffan_design_syste.Promo.Resolve.Select.{GroupOf, members, strangers, is_named}

pub tally_mono :
    {A : Type 0} (p q : A → Bool) (xs : List A)
    → ((x : A) → p x ≡ true → q x ≡ true)
    → tally p xs ≤ tally q xs
tally_mono p q [] h = omega arith
tally_mono p q (x ∷ xs) h = ground (arith, tally_mono p q xs h, h x)

module _ (fl : Floats) (sorter : Sorter) (redis : Redis Key Unit) (today : Reading) where
  abbrev pub counter : Option (Increments redis.R)
  counter = some (λ l rule uid r. increment_and_check redis l rule uid today r)

  abbrev pub charges : String → Rule fl.F → Bool
  charges id rule = (rule.id == id) && has_any rule.limits

  abbrev pub in_group : String → Rule fl.F → Bool
  in_group g rule = rule.exclusivity_group == g

  -- The rules are applied, in order, and those with a limit are counted.
  abbrev pub Grown : Progress fl.F redis.R → Progress fl.F redis.R → List (Rule fl.F) → Type 0
  Grown p q rules =
      (map AppliedRule.rule_id q.applied ≡ map AppliedRule.rule_id p.applied ++ map Rule.id rules)
      × ((id : String)
          → used redis (total id) q.counters
            ≡ used redis (total id) p.counters + tally (charges id) rules)

  pub Grown-refl : (p : Progress fl.F redis.R) → Grown p p []
  Grown-refl p = (sym (append-nil (map AppliedRule.rule_id p.applied)), λ id. omega arith)

  pub Grown-trans :
      (p q s : Progress fl.F redis.R) (xs ys : List (Rule fl.F))
      → Grown p q xs
      → Grown q s ys
      → Grown p s (xs ++ ys)
  Grown-trans p q s xs ys (e, c) (e', c') = (
    e'
        ∙ ap (λ l. l ++ map Rule.id ys) e
        ∙ append_assoc _ (map Rule.id xs) (map Rule.id ys)
        ∙ ap (λ l. map AppliedRule.rule_id p.applied ++ l) (sym (map-append Rule.id xs ys)),
    λ id. omega (arith, c id, c' id, tally-append (charges id) xs ys),
  )

  -- A reservation fails and leaves the counters, or counts the rule if it has a limit.
  try_reserve-cases :
      (rule : Rule fl.F) (uid : String) (r : redis.R)
      → (((try_reserve counter rule uid r).1 ≡ false) × ((try_reserve counter rule uid r).0 ≡ r))
        ⊎ (((try_reserve counter rule uid r).1 ≡ true)
            × ((id : String)
                → used redis (total id) (try_reserve counter rule uid r).0
                  ≡ used redis (total id) r + (if charges id rule then 1 else 0)))
  unfolding try_reserve
  try_reserve-cases rule uid r = elim (Bool-cases (has_any rule.limits)) [
    | inl e ↦ rw e elim (increment_and_check_cases redis rule.limits rule.id uid today r e) [
      | inl refused ↦ inl refused
      | inr (passed, t, d, u, moved) ↦ inr (
        passed,
        λ id.
            ap (used redis (total id)) moved
            ∙ used-all redis rule.id (uid, today) (total id) r
            ∙ ground (arith, e),
      )
    ]
    | inr e ↦ rw e (inr (refl, λ id. ground (arith, e)))
  ]

  unfoldable attempted : String → Rule fl.F → Progress fl.F redis.R → List (Rule fl.F)
  attempted uid rule p = if (attempt fl sorter counter uid rule p).1 then rule ∷ [] else []

  attempt-Grown :
      (uid : String) (rule : Rule fl.F) (p : Progress fl.F redis.R)
      → Grown p (attempt fl sorter counter uid rule p).0 (attempted uid rule p)
  unfolding attempt attempted
  attempt-Grown uid rule p = elim (try_reserve-cases rule uid p.counters) [
    | inl (refused, kept) ↦
        rw refused
          (sym (append-nil (map AppliedRule.rule_id p.applied)), λ id. rw kept (omega arith))
    | inr (passed, moved) ↦
        rw passed (map-append AppliedRule.rule_id p.applied _, λ id. ground (arith, moved id))
  ]

  -- What a loop applies, out of the rules that a test counts.
  abbrev pub Bounded :
      (((Rule fl.F → Bool) → ℕ)) → Progress fl.F redis.R → Progress fl.F redis.R → Type 0
  Bounded count p q =
      (rules : List (Rule fl.F)) × Grown p q rules
      × ((t : Rule fl.F → Bool) → tally t rules ≤ count t)

  attempted-le :
      (uid : String) (rule : Rule fl.F) (p : Progress fl.F redis.R) (t : Rule fl.F → Bool)
      → tally t (attempted uid rule p) ≤ (if t rule then 1 else 0)
  unfolding attempted
  attempted-le uid rule p t = ground arith

  stackable_round-Bounded :
      (uid : String) (rule : Rule fl.F) (count : ℕ) (p : Progress fl.F redis.R)
      → Bounded
          (λ t. if t rule then 1 else 0)
          p
          (stackable_round fl sorter counter uid rule count p).0
  unfolding stackable_round
  stackable_round-Bounded uid rule count p =
      let none_applied : Bounded (λ t. if t rule then 1 else 0) p p =
        ([], Grown-refl p, λ t. omega arith) in
      elim (Bool-cases (not rule.stackable)) [
        | inl e ↦ rw e none_applied
        | inr e ↦
            rw e elim (Bool-cases (ltb 0 rule.max_stackable && leb rule.max_stackable count)) [
              | inl e' ↦ rw e' none_applied
              | inr e' ↦
                  rw e' (attempted uid rule p, attempt-Grown uid rule p, attempted-le uid rule p)
            ]
      ]

  pub apply_stackable-Bounded :
      (uid : String) (rules : List (Rule fl.F)) (count : ℕ) (p : Progress fl.F redis.R)
      → Bounded (λ t. tally t rules) p (apply_stackable fl sorter counter uid rules count p)
  unfolding apply_stackable
  apply_stackable-Bounded uid [] count p = ([], Grown-refl p, λ t. omega arith)
  apply_stackable-Bounded uid (rule ∷ rules) count p =
      let next = stackable_round fl sorter counter uid rule count p in
      let (one, grown, le) = stackable_round-Bounded uid rule count p in
      let (rest, grown', le') = apply_stackable-Bounded uid rules next.1 next.0 in
      (
        one ++ rest,
        Grown-trans p next.0 (apply_stackable fl sorter counter uid rules next.1 next.0) one rest
            grown grown',
        λ t. ground (arith, le t, le' t, tally-append t one rest),
      )

  -- A group gives at most one rule; one that is of the named group is of that entry.
  abbrev pub Picked :
      List (GroupOf fl sorter counter) → Progress fl.F redis.R → Progress fl.F redis.R → Type 0
  Picked groups p q =
      (rules : List (Rule fl.F)) × Grown p q rules
      × ((t : Rule fl.F → Bool) → tally t rules ≤ sum_by (members fl sorter counter t) groups)
      × ((g : String)
          → tally (in_group g) rules
            ≤ sum_by (is_named fl sorter counter g) groups
              + sum_by (strangers fl sorter counter) groups)

  best_of_group-Picked :
      (uid name : String) (grp : List (GroupRule fl.F)) (p : Progress fl.F redis.R)
      → Picked ((name, grp) ∷ []) p (best_of_group fl sorter counter uid grp p)
  unfolding best_of_group
  best_of_group-Picked uid name [] p = ([], Grown-refl p, λ t. omega arith, λ g. omega arith)
  best_of_group-Picked uid name (best ∷ others) p =
      let rule = GroupRule.rule best in
      (
        attempted uid rule p,
        attempt-Grown uid rule p,
        λ t. ground (arith, attempted-le uid rule p t),
        λ g. ground (
          arith,
          attempted-le uid rule p (in_group g),
          string_key.test_iff rule.exclusivity_group g,
          string_key.test_iff rule.exclusivity_group name,
          string_key.test_iff name g,
        ),
      )

  pub apply_groups-Picked :
      (uid : String) (groups : List (GroupOf fl sorter counter)) (p : Progress fl.F redis.R)
      → Picked groups p (apply_groups fl sorter counter uid groups p)
  unfolding apply_groups
  apply_groups-Picked uid [] p = ([], Grown-refl p, λ t. omega arith, λ g. omega arith)
  apply_groups-Picked uid ((name, grp) ∷ groups) p =
      let less = λ (a : GroupRule fl.F) (b : GroupRule fl.F). fl.less b.discount a.discount in
      let best_first = sorter.sort_slice less grp in
      let same = λ (t : Rule fl.F → Bool).
        tally-perm (λ (e : GroupRule fl.F). t e.rule) (sorter.sort_slice-perm less grp) in
      let next = best_of_group fl sorter counter uid best_first p in
      let (one, grown, le, own) = best_of_group-Picked uid name best_first p in
      let (rest, grown', le', own') = apply_groups-Picked uid groups next in
      (
        one ++ rest,
        Grown-trans p next (apply_groups fl sorter counter uid groups next) one rest grown grown',
        λ t. omega (arith, le t, le' t, tally-append t one rest, same t),
        λ g. omega (
          arith,
          own g,
          own' g,
          tally-append (in_group g) one rest,
          same (λ r. not (r.exclusivity_group == name)),
        ),
      )
