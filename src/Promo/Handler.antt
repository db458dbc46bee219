-- ===== src/Promo/Handler.antt =====
-- services/promo-engine/handler/handler.go, on decoded requests: none of a body is a request that does
-- not bind.
pub mod Create
mod Samples
use faisalaffan_design_syste.Base.{
  ℕ, String, Bool, true, Option, none, some, List, map, if◌then◌else◌, length, ◌==◌, nat_key,
  string_key,
}
use faisalaffan_design_syste.Base.Floats.{Floats}
use faisalaffan_design_syste.Promo.Model.{
  Effect, UsageLimits, EvalContext, Library, calculate_discount, round2,
}
use faisalaffan_design_syste.Promo.Condition.{Condition, present}
use faisalaffan_design_syste.Promo.Rule.{Rule}
use faisalaffan_design_syste.Promo.Json.{Result, ok, error, Codec, UnmarshalError}
use faisalaffan_design_syste.Promo.Json.Coding.{unmarshal_condition}
use faisalaffan_design_syste.Promo.Store.{RuleStore, save}
use faisalaffan_design_syste.Promo.Resolve.{AppliedRule, ResolveResult}

pub record EvalResult (F : Type 0) : Type 0 where
  pub rule_id : String
  pub rule_name : String
  pub effect : Effect F
  pub discount_amount : F
  pub approved : Bool

pub record ValidateResponse (F : Type 0) : Type 0 where
  pub eligible_rules : List (EvalResult F)
  pub total_rules : ℕ

pub record ApplyResponse (F : Type 0) : Type 0 where
  pub applied_rules : List (EvalResult F)
  pub final_amount : F
  pub total_discount : F

-- `ValidateRequest` and `ApplyRequest`
pub record CartRequest (F : Type 0) : Type 0 where
  pub cart : EvalContext F
  pub user_id : String

-- `req.Cart.UserID = req.UserID`
abbrev pub cart_of : {F : Type 0} → CartRequest F → EvalContext F
cart_of req = record (CartRequest.cart req) { user_id = CartRequest.user_id req }

pub record CreateRuleRequest (F Raw : Type 0) : Type 0 where
  pub name : String
  pub priority : ℕ
  pub conditions_raw : Option Raw
  pub effect : Effect F
  pub limits : UsageLimits
  pub stackable : Bool
  pub exclusivity_group : String
  pub max_stackable : ℕ
  pub start_at : ℕ
  pub end_at : ℕ

pub data BadRequest : Type 0 where
  invalid_body conditions_required name_required : BadRequest
  invalid_conditions : UnmarshalError → BadRequest

module _ (fl : Floats) where
  -- `Validate`, on the rules that EvaluateActiveRules answers for the cart.
  unfoldable pub validate :
      (EvalContext fl.F → List (Rule fl.F))
      → Option (CartRequest fl.F)
      → Result BadRequest (ValidateResponse fl.F)
  validate evaluate none = error invalid_body
  validate evaluate (some req) =
      let rules = evaluate (cart_of req) in
      let result_of : Rule fl.F → EvalResult fl.F = λ r. record {
        rule_id = r.id;
        rule_name = r.name;
        effect = r.effect;
        discount_amount =
            round2 fl
              (calculate_discount fl r.effect (EvalContext.cart_total (CartRequest.cart req)));
        approved = true;
      } in
      ok (record { eligible_rules = map result_of rules; total_rules = length rules })

  -- `Apply`, with EvaluateActiveRules and Resolve, which changes the counters.
  unfoldable pub apply_cart :
      {R : Type 0}
      → (EvalContext fl.F → R → List (Rule fl.F))
      → (List (Rule fl.F) → EvalContext fl.F → R → R × ResolveResult fl.F)
      → Option (CartRequest fl.F)
      → R
      → R × Result BadRequest (ApplyResponse fl.F)
  apply_cart evaluate resolve none r = (r, error invalid_body)
  apply_cart evaluate resolve (some req) r =
      let answer = resolve (evaluate (cart_of req) r) (cart_of req) r in
      let result = answer.1 in
      let result_of : AppliedRule fl.F → EvalResult fl.F = λ a. record {
        rule_id = a.rule_id;
        rule_name = a.rule_name;
        effect = a.effect;
        discount_amount = a.discount_amount;
        approved = true;
      } in
      (
        answer.0,
        ok (record {
          applied_rules = map result_of (ResolveResult.applied_rules result);
          final_amount = ResolveResult.final_amount result;
          total_discount = ResolveResult.total_discount result;
        }),
      )

  -- The end of `CreateRule`, on the decoded conditions.
  unfoldable pub save_decoded :
      {Raw : Type 0}
      → String
      → ℕ
      → CreateRuleRequest fl.F Raw
      → RuleStore fl.F
      → Result UnmarshalError (Condition fl.F)
      → RuleStore fl.F × Result BadRequest (Rule fl.F)
  unfolding save
  save_decoded uuid now req s (error e) = (s, error (invalid_conditions e))
  save_decoded uuid now req s (ok cond) =
      let answer =
        save uuid now
          (record {
            id = "";
            name = req.name;
            priority = req.priority;
            conditions = present cond;
            effect = req.effect;
            limits = req.limits;
            stackable = req.stackable;
            exclusivity_group = req.exclusivity_group;
            max_stackable = req.max_stackable;
            start_at = req.start_at;
            end_at = req.end_at;
            status = "";
            created_at = 0;
          })
          s in
      (answer.0, ok answer.1)

  -- `CreateRule` from its first guard on, with the message of the conditions.
  unfoldable pub create_from :
      (codec : Codec fl.F)
      → String
      → ℕ
      → CreateRuleRequest fl.F codec.Raw
      → RuleStore fl.F
      → Option codec.Raw
      → RuleStore fl.F × Result BadRequest (Rule fl.F)
  unfolding unmarshal_condition save_decoded
  create_from codec uuid now req s none = (s, error conditions_required)
  create_from codec uuid now req s (some raw) =
      if req.name == ""
      then (s, error name_required)
      else save_decoded uuid now req s (unmarshal_condition codec raw)

  -- `CreateRule`, with a fresh id and the clock.
  unfoldable pub create_rule :
      (codec : Codec fl.F)
      → String
      → ℕ
      → Option (CreateRuleRequest fl.F codec.Raw)
      → RuleStore fl.F
      → RuleStore fl.F × Result BadRequest (Rule fl.F)
  unfolding create_from
  create_rule codec uuid now none s = (s, error invalid_body)
  create_rule codec uuid now (some req) s = create_from codec uuid now req s req.conditions_raw
