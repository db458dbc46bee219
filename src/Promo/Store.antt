-- ===== src/Promo/Store.antt =====
-- services/promo-engine/repository/rule_store.go and service/evaluator.go: the rules by id, and those
-- that apply to a cart. Go leaves the order of a map open: `range` is the order that a loop takes. A
-- fresh id and the clock are arguments.
pub mod Eligible
mod Samples
use faisalaffan_design_syste.Base.{
  ℕ, String, Bool, true, false, not, ◌&&◌, Option, none, some, List, map, if◌then◌else◌, keep, ◌==◌,
  nat_key, string_key, lookup, insert, remove,
}
use faisalaffan_design_syste.Base.Floats.{Floats}
use faisalaffan_design_syste.Promo.Model.{UsageLimits, has_any, EvalContext, Library, rule_active}
use faisalaffan_design_syste.Promo.Condition.{Condition, MaybeCondition, absent, present, eval}
use faisalaffan_design_syste.Promo.Rule.{Rule, is_active}
use faisalaffan_design_syste.Promo.Counter.{LimitResult}

-- `RuleStore`
abbrev pub RuleStore : Type 0 → Type 0
RuleStore F = List (String × Rule F)

-- `Save`, with the rule that it completes in place.
unfoldable pub save : {F : Type 0} → String → ℕ → Rule F → RuleStore F → RuleStore F × Rule F
save uuid now rule s =
    let id = if rule.id == "" then uuid else rule.id in
    let saved = record rule {
      id = id;
      created_at = if rule.created_at == 0 then now else rule.created_at;
      status = if rule.status == "" then rule_active else rule.status;
    } in
    (insert id saved s, saved)

-- `Get`; none is the error.
unfoldable pub get_rule : {F : Type 0} → String → RuleStore F → Option (Rule F)
get_rule id s = lookup id s

-- `List`, in the order of the loop.
unfoldable pub list_rules : {F : Type 0} → Bool → ℕ → List (Rule F) → List (Rule F)
list_rules active_only now rules = keep (λ r. not (active_only && not (is_active r now))) rules

unfoldable pub rules_of : {F : Type 0} → RuleStore F → List (Rule F)
rules_of s = map (λ p. p.1) s

-- `Update`; none is the error.
unfoldable pub update_rule : {F : Type 0} → String → Rule F → RuleStore F → Option (RuleStore F)
update_rule id rule s =
    if is_found (lookup id s) then some (insert id (record rule { id = id }) s) else none
  where
    is_found : {A : Type 0} → Option A → Bool
    is_found none = false
    is_found (some a) = true

unfoldable pub delete_rule : {F : Type 0} → String → RuleStore F → RuleStore F
delete_rule id s = remove id s

-- `LimitChecker.CheckAllLimits`, of a rule's limits, its id and a user.
abbrev pub Checks : Type 0
Checks = UsageLimits → String → String → LimitResult

unfoldable pub within_limits : Option Checks → UsageLimits → String → String → Bool
unfolding has_any
within_limits none l rule uid = true
within_limits (some check) l rule uid =
    if has_any l then LimitResult.allowed (check l rule uid) else true

module _ (lib : Library) (fl : Floats) where
  unfoldable pub holds : ℕ → EvalContext fl.F → MaybeCondition fl.F → Bool
  unfolding eval
  holds clock ctx absent = true
  holds clock ctx (present c) = eval lib fl clock ctx c

  abbrev pub with_now : ℕ → EvalContext fl.F → EvalContext fl.F
  with_now clock ctx = if ctx.now == 0 then record ctx { now = clock } else ctx

  -- The guards of the loop over the rules.
  unfoldable pub passes : Option Checks → ℕ → EvalContext fl.F → Rule fl.F → Bool
  unfolding is_active holds within_limits
  passes checks clock ctx rule =
      if not (is_active rule ctx.now)
      then false
      else if not (holds clock ctx rule.conditions)
      then false
      else within_limits checks rule.limits rule.id ctx.user_id

  -- `EvaluateActiveRules`
  unfoldable pub evaluate_active_rules :
      (List (Rule fl.F) → List (Rule fl.F))
      → Option Checks
      → ℕ
      → EvalContext fl.F
      → RuleStore fl.F
      → List (Rule fl.F)
  unfolding list_rules rules_of passes
  evaluate_active_rules range checks clock ctx s =
      keep (passes checks clock (with_now clock ctx)) (list_rules true clock (range (rules_of s)))

  -- `EvaluateSingleRule`
  unfoldable pub evaluate_single_rule :
      String → ℕ → EvalContext fl.F → RuleStore fl.F → Option (Rule fl.F)
  unfolding get_rule is_active holds
  evaluate_single_rule id clock ctx s =
      let now_ctx = with_now clock ctx in of_found now_ctx (get_rule id s)
    where
      of_found : EvalContext fl.F → Option (Rule fl.F) → Option (Rule fl.F)
      of_found now_ctx none = none
      of_found now_ctx (some rule) =
          if not (is_active rule (EvalContext.now now_ctx))
          then none
          else if not (holds clock now_ctx rule.conditions)
          then none
          else some rule
