-- ===== src/Promo/Resolve/Once.antt =====
-- services/promo-engine/service/resolver.go with repository/redis.go: what Resolve guarantees.
use mathlib.Core.List.{Perm}
use faisalaffan_design_syste.Base.{
  ◌+◌, ◌≤◌, String, ◌≡◌, refl, ◌≢◌, Bool, not, List, [], ◌∷◌, ◌++◌, map, arith, ltb, tally,
  tally-append, ◌==◌, nat_key, string_key,
}
use faisalaffan_design_syste.Base.Sums.{sum_by-perm, tally-perm}
use faisalaffan_design_syste.Base.Floats.{Floats}
use faisalaffan_design_syste.Base.Redis.{Redis}
use faisalaffan_design_syste.Promo.Model.{EvalContext}
use faisalaffan_design_syste.Promo.Rule.{Rule}
use faisalaffan_design_syste.Promo.Counter.{Key, total, counter_key, Reading}
use faisalaffan_design_syste.Promo.Counter.Bounds.{used}
use faisalaffan_design_syste.Promo.Resolve.{
  Sorter, Groups, Progress, AppliedRule, ResolveResult, apply_groups, apply_stackable, resolve,
  split,
}
use faisalaffan_design_syste.Promo.Resolve.Select.{members, strangers, is_named, split-cases}
use faisalaffan_design_syste.Promo.Resolve.Applied.{
  counter, charges, in_group, tally_mono, Grown-trans, apply_stackable-Bounded, apply_groups-Picked,
}

module _ (fl : Floats) (sorter : Sorter) (redis : Redis Key Unit) (today : Reading) where
  -- The rules that a result applies, in their order: each was validated and is applied once, at most one
  -- is of a group, and each one with a limit is counted as one use.
  abbrev pub IsSelection :
      List (Rule fl.F) → redis.R → redis.R × ResolveResult fl.F → List (Rule fl.F) → Type 0
  IsSelection validated r answer rules =
      (map AppliedRule.rule_id (ResolveResult.applied_rules answer.1) ≡ map Rule.id rules)
      × ((t : Rule fl.F → Bool) → tally t rules ≤ tally t validated)
      × ((g : String) → g ≢ "" → tally (in_group fl sorter redis today g) rules ≤ 1)
      × ((id : String)
          → used redis (total id) answer.0
            ≡ used redis (total id) r + tally (charges fl sorter redis today id) rules)

  resolved :
      (range : Groups fl sorter (counter fl sorter redis today)
        → Groups fl sorter (counter fl sorter redis today))
      (v : Rule fl.F) (vs : List (Rule fl.F)) (ctx : EvalContext fl.F) (r : redis.R)
      → ((groups : Groups fl sorter (counter fl sorter redis today)) → Perm (range groups) groups)
      → (rules : List (Rule fl.F)) × IsSelection
          (v ∷ vs)
          r
          (resolve fl sorter (counter fl sorter redis today) range (v ∷ vs) ctx r)
          rules
  unfolding resolve
  resolved range v vs ctx r any_order =
      let c = counter fl sorter redis today in
      let less = λ (a : Rule fl.F) (b : Rule fl.F). ltb b.priority a.priority in
      let sorted = sorter.sort_slice less (v ∷ vs) in
      let parts = split fl sorter c ctx.cart_total sorted [] [] in
      let start : Progress fl.F redis.R = record {
        applied = [];
        remaining = ctx.cart_total;
        counters = r;
      } in
      let grouped = apply_groups fl sorter c ctx.user_id (range parts.0) start in
      let (grouping, free, kept) =
        split-cases fl sorter c ctx.cart_total sorted [] [] (refl, λ g. omega arith) refl in
      let (best, grown, le, own) =
        apply_groups-Picked fl sorter redis today ctx.user_id (range parts.0) start in
      let (extra, grown', le') =
        apply_stackable-Bounded fl sorter redis today ctx.user_id parts.1 0 grouped in
      let all =
        Grown-trans fl sorter redis today start grouped
          (apply_stackable fl sorter c ctx.user_id parts.1 0 grouped) best extra grown grown' in
      (
        best ++ extra,
        (
          all.0,
          λ t. omega (
            arith,
            le t,
            le' t,
            kept t,
            tally-append t best extra,
            sum_by-perm (members fl sorter c t) (any_order parts.0),
            tally-perm t (sorter.sort_slice-perm less (v ∷ vs)),
          ),
          λ g named.
              let ungrouped =
                tally_mono (in_group fl sorter redis today g)
                  (λ (x : Rule fl.F). not (x.exclusivity_group == "")) parts.1
                  (λ x e. ground (
                    arith,
                    e,
                    named,
                    string_key.test_iff x.exclusivity_group g,
                    string_key.test_iff x.exclusivity_group "",
                  )) in
              omega (
                arith,
                own g,
                le' (in_group fl sorter redis today g),
                free,
                ungrouped,
                grouping.0,
                grouping.1 g,
                tally-append (in_group fl sorter redis today g) best extra,
                sum_by-perm (is_named fl sorter c g) (any_order parts.0),
                sum_by-perm (strangers fl sorter c) (any_order parts.0),
              ),
          all.1,
        ),
      )

  -- Whatever order the map of groups is read in and however the sorts break ties, the rules that Resolve
  -- applies are among the validated ones, none more often than it was validated, with at most one rule of
  -- each exclusivity group; and the use counter of a rule has grown by its applications that have a
  -- limit: no use is counted for a rule that is not applied.
  pub resolve-IsSelection :
      (range : Groups fl sorter (counter fl sorter redis today)
        → Groups fl sorter (counter fl sorter redis today))
      (validated : List (Rule fl.F)) (ctx : EvalContext fl.F) (r : redis.R)
      → ((groups : Groups fl sorter (counter fl sorter redis today)) → Perm (range groups) groups)
      → (rules : List (Rule fl.F)) × IsSelection validated r
          (resolve fl sorter (counter fl sorter redis today) range validated ctx r)
          rules
  unfolding resolve
  resolve-IsSelection range [] ctx r any_order =
      ([], (refl, λ t. omega arith, λ g named. omega arith, λ id. omega arith))
  resolve-IsSelection range (v ∷ vs) ctx r any_order = resolved range v vs ctx r any_order
