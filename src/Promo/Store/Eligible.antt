-- ===== src/Promo/Store/Eligible.antt =====
-- services/promo-engine/service/evaluator.go: which rules apply to a cart.
use mathlib.Core.List.{Perm}
use faisalaffan_design_syste.Base.{
  ℕ, String, ◌≡◌, refl, ◌∙◌, inl, inr, Bool, true, not, ◌&&◌, Option, some, List, [], ◌∷◌, arith,
  Bool-cases, keep, tally, All, All-map,
}
use faisalaffan_design_syste.Base.Sums.{tally-perm}
use faisalaffan_design_syste.Base.Floats.{Floats}
use faisalaffan_design_syste.Base.Redis.{Redis}
use faisalaffan_design_syste.Promo.Model.{EvalContext, Library}
use faisalaffan_design_syste.Promo.Rule.{Rule, is_active}
use faisalaffan_design_syste.Promo.Counter.{Key, counter_key, check_all_limits}
use faisalaffan_design_syste.Promo.Counter.Unset.{IsPartlyUnset, check_all_limits-unset}
use faisalaffan_design_syste.Promo.Store.{
  RuleStore, list_rules, rules_of, Checks, within_limits, holds, with_now, passes,
  evaluate_active_rules,
}

tally-keep :
    {A : Type 0} (t p : A → Bool) (xs : List A) → tally t (keep p xs) ≡ tally (λ x. t x && p x) xs
tally-keep t p [] = refl
tally-keep t p (x ∷ xs) = ground (arith, tally-keep t p xs)

All-keep : {A : Type 0} (p : A → Bool) (xs : List A) → All (λ x. p x ≡ true) (keep p xs)
All-keep p [] = tt
All-keep p (x ∷ xs) = elim (Bool-cases (p x)) [
  | inl e ↦ rw e (e, All-keep p xs)
  | inr e ↦ rw e (All-keep p xs)
]

tally-same :
    {A : Type 0} (p q : A → Bool) (xs : List A) → ((x : A) → p x ≡ q x) → tally p xs ≡ tally q xs
tally-same p q [] h = refl
tally-same p q (x ∷ xs) h = rw (h x) (rw (tally-same p q xs h) refl)

module _ (lib : Library) (fl : Floats) where
  -- A rule that is active on the clock and at the time of the cart, whose conditions hold, and whose
  -- limits are not reached.
  abbrev pub applies : Option Checks → ℕ → EvalContext fl.F → Rule fl.F → Bool
  applies checks clock ctx rule =
      is_active rule clock
      && (is_active rule (EvalContext.now (with_now lib fl clock ctx))
          && (holds lib fl clock (with_now lib fl clock ctx) rule.conditions
              && within_limits checks rule.limits rule.id ctx.user_id))

  passes-applies :
      (checks : Option Checks) (clock : ℕ) (ctx : EvalContext fl.F) (t : Rule fl.F → Bool)
      (rule : Rule fl.F)
      → ((t rule && passes lib fl checks clock (with_now lib fl clock ctx) rule)
          && not (true && not (is_active rule clock)))
        ≡ (t rule && applies checks clock ctx rule)
  unfolding passes
  passes-applies checks clock ctx t rule = ground arith

  -- Whatever order the map is read in, EvaluateActiveRules answers each stored rule that is active, whose
  -- conditions hold for the cart and whose limits are not reached, once, and no other: counted over any
  -- test on rules.
  pub evaluate_active_rules-tally :
      (range : List (Rule fl.F) → List (Rule fl.F)) (checks : Option Checks) (clock : ℕ)
      (ctx : EvalContext fl.F) (s : RuleStore fl.F) (t : Rule fl.F → Bool)
      → ((rules : List (Rule fl.F)) → Perm (range rules) rules)
      → tally t (evaluate_active_rules lib fl range checks clock ctx s)
        ≡ tally (λ rule. t rule && applies checks clock ctx rule) (rules_of s)
  unfolding evaluate_active_rules list_rules
  evaluate_active_rules-tally range checks clock ctx s t any_order =
      tally-keep t (passes lib fl checks clock (with_now lib fl clock ctx))
        (list_rules true clock (range (rules_of s)))
      ∙ tally-keep (λ r. t r && passes lib fl checks clock (with_now lib fl clock ctx) r)
          (λ r. not (true && not (is_active r clock))) (range (rules_of s))
      ∙ tally-same _ (λ rule. t rule && applies checks clock ctx rule) (range (rules_of s))
          (passes-applies checks clock ctx t)
      ∙ tally-perm _ (any_order (rules_of s))

  IsPartlyUnset-fails :
      (redis : Redis Key Unit) (today : String) (clock : ℕ) (ctx : EvalContext fl.F) (r : redis.R)
      (rule : Rule fl.F)
      → passes lib fl (some (λ l id uid. check_all_limits redis l id uid today r)) clock ctx rule
        ≡ true
      → ¬ IsPartlyUnset rule.limits
  unfolding passes within_limits
  IsPartlyUnset-fails redis today clock ctx r rule h part =
      ground (
        arith,
        h,
        part.0,
        check_all_limits-unset redis rule.limits rule.id ctx.user_id today r part,
      )

  -- A rule with a limit that is set and one that is unset is answered for no cart, whatever its
  -- conditions and counters are: an unset limit is read as a limit of 0.
  pub evaluate_active_rules-unset :
      (range : List (Rule fl.F) → List (Rule fl.F)) (redis : Redis Key Unit) (today : String)
      (clock : ℕ) (ctx : EvalContext fl.F) (r : redis.R) (s : RuleStore fl.F)
      → All
          (λ rule. ¬ IsPartlyUnset (Rule.limits rule))
          (evaluate_active_rules lib fl range
            (some (λ l id uid. check_all_limits redis l id uid today r))
            clock
            ctx
            s)
  unfolding evaluate_active_rules
  evaluate_active_rules-unset range redis today clock ctx r s =
      let checks : Option Checks = some (λ l id uid. check_all_limits redis l id uid today r) in
      All-map _ (λ rule. ¬ IsPartlyUnset (Rule.limits rule)) _
        (IsPartlyUnset-fails redis today clock (with_now lib fl clock ctx) r)
        (All-keep (passes lib fl checks clock (with_now lib fl clock ctx))
          (list_rules true clock (range (rules_of s))))
