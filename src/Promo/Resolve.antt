-- ===== src/Promo/Resolve.antt =====
-- services/promo-engine/service/resolver.go: the rules that are applied to a cart. The order of the loop
-- over the groups is `range`; sort.Slice, which is not stable, is `Sorter`. The counters are a state `R`.
pub mod Select
pub mod Applied
pub mod Once
mod Samples
use mathlib.Core.List.{Perm}
use faisalaffan_design_syste.Base.{
  ℕ, ◌+◌, String, Bool, true, false, not, ◌&&◌, Option, none, some, List, [], ◌∷◌, ◌++◌, ltb, leb,
  if◌then◌else◌, ◌==◌, nat_key, string_key, lookup, insert, get_or,
}
use faisalaffan_design_syste.Base.Floats.{Floats}
use faisalaffan_design_syste.Promo.Model.{
  Effect, UsageLimits, has_any, EvalContext, calculate_discount, round2,
}
use faisalaffan_design_syste.Promo.Rule.{Rule}
use faisalaffan_design_syste.Promo.Counter.{LimitResult}

-- `sort.Slice`: a permutation.
pub record Sorter : Type 1 where
  pub sort_slice : {A : Type 0} → (A → A → Bool) → List A → List A
  pub sort_slice-perm :
      {A : Type 0} (less : A → A → Bool) (xs : List A) → Perm (sort_slice less xs) xs

pub record AppliedRule (F : Type 0) : Type 0 where
  pub rule_id : String
  pub rule_name : String
  pub effect : Effect F
  pub discount_amount : F

pub record ResolveResult (F : Type 0) : Type 0 where
  pub applied_rules : List (AppliedRule F)
  pub final_amount : F
  pub total_discount : F

pub record GroupRule (F : Type 0) : Type 0 where
  pub rule : Rule F
  pub discount : F

-- The variables of `Resolve`, with the counters.
pub record Progress (F R : Type 0) : Type 0 where
  pub applied : List (AppliedRule F)
  pub remaining : F
  pub counters : R

-- `CounterReserver.IncrementAndCheck`
abbrev pub Increments : Type 0 → Type 0
Increments R = UsageLimits → String → String → R → R × LimitResult

-- `tryReserve`
unfoldable pub try_reserve : {F R : Type 0} → Option (Increments R) → Rule F → String → R → R × Bool
unfolding has_any
try_reserve none rule uid r = (r, true)
try_reserve (some increment) rule uid r =
    if has_any rule.limits
    then (let answer = increment rule.limits rule.id uid r in
        (answer.0, LimitResult.allowed answer.1))
    else (r, true)

module _ (fl : Floats) (sorter : Sorter) {R : Type 0} (counter : Option (Increments R)) where
  abbrev pub Groups : Type 0
  Groups = List (String × List (GroupRule fl.F))

  -- The loop that splits the rules.
  unfoldable pub split :
      fl.F → List (Rule fl.F) → Groups → List (Rule fl.F) → Groups × List (Rule fl.F)
  split cart_total [] groups stackable = (groups, stackable)
  split cart_total (rule ∷ rules) groups stackable =
      let group = rule.exclusivity_group in
      let entry : GroupRule fl.F = record {
        rule = rule;
        discount = calculate_discount fl rule.effect cart_total;
      } in
      if not (group == "")
      then split cart_total rules
          (insert group (get_or (lookup group groups) [] ++ (entry ∷ [])) groups) stackable
      else split cart_total rules groups (stackable ++ (rule ∷ []))

  -- The end of a round of either loop: the rule is applied to what remains.
  abbrev pub apply_rule : Rule fl.F → R → Progress fl.F R → Progress fl.F R
  apply_rule rule r p =
      let disc = calculate_discount fl rule.effect p.remaining in
      record {
        applied =
            p.applied
            ++ (record {
              rule_id = rule.id;
              rule_name = rule.name;
              effect = rule.effect;
              discount_amount = round2 fl disc;
            }
                ∷ []);
        remaining = round2 fl (fl.sub p.remaining disc);
        counters = r;
      }

  -- A rule is applied if it can be reserved.
  unfoldable pub attempt : String → Rule fl.F → Progress fl.F R → Progress fl.F R × Bool
  unfolding try_reserve
  attempt uid rule p =
      let answer = try_reserve counter rule uid p.counters in
      if answer.1
      then (apply_rule rule answer.0 p, true)
      else (record p { counters = answer.0 }, false)

  -- A round of the loop over the groups.
  unfoldable pub best_of_group : String → List (GroupRule fl.F) → Progress fl.F R → Progress fl.F R
  unfolding attempt
  best_of_group uid [] p = p
  best_of_group uid (best ∷ others) p = (attempt uid (GroupRule.rule best) p).0

  unfoldable pub apply_groups : String → Groups → Progress fl.F R → Progress fl.F R
  unfolding best_of_group
  apply_groups uid [] p = p
  apply_groups uid ((group, grp) ∷ groups) p =
      let best_first =
        sorter.sort_slice (λ a b. fl.less (GroupRule.discount b) (GroupRule.discount a)) grp in
      apply_groups uid groups (best_of_group uid best_first p)

  -- A round of the loop over the stackable rules, with `stackApplied`.
  unfoldable pub stackable_round : String → Rule fl.F → ℕ → Progress fl.F R → Progress fl.F R × ℕ
  unfolding attempt
  stackable_round uid rule count p =
      if not rule.stackable
      then (p, count)
      else if ltb 0 rule.max_stackable && leb rule.max_stackable count
      then (p, count)
      else (let tried = attempt uid rule p in (tried.0, if tried.1 then count + 1 else count))

  unfoldable pub apply_stackable : String → List (Rule fl.F) → ℕ → Progress fl.F R → Progress fl.F R
  unfolding stackable_round
  apply_stackable uid [] count p = p
  apply_stackable uid (rule ∷ rules) count p =
      let next = stackable_round uid rule count p in apply_stackable uid rules next.1 next.0

  -- `Resolve`
  unfoldable pub resolve :
      (Groups → Groups) → List (Rule fl.F) → EvalContext fl.F → R → R × ResolveResult fl.F
  unfolding split apply_groups apply_stackable
  resolve range [] ctx r = (
    r,
    record { applied_rules = []; final_amount = ctx.cart_total; total_discount = fl.of_int 0 },
  )
  resolve range (v ∷ vs) ctx r =
      let sorted =
        sorter.sort_slice (λ (a : Rule fl.F) (b : Rule fl.F). ltb b.priority a.priority) (v ∷ vs) in
      let parts = split ctx.cart_total sorted [] [] in
      let start : Progress fl.F R = record {
        applied = [];
        remaining = ctx.cart_total;
        counters = r;
      } in
      let grouped = apply_groups ctx.user_id (range parts.0) start in
      let done = apply_stackable ctx.user_id parts.1 0 grouped in
      (
        done.counters,
        record {
          applied_rules = done.applied;
          final_amount =
              if fl.less done.remaining (fl.of_int 0) then fl.of_int 0 else done.remaining;
          total_discount = round2 fl (fl.sub ctx.cart_total done.remaining);
        },
      )
