-- ===== src/Promo/Rule.antt =====
-- services/promo-engine/model/model.go: a rule and its time window. A priority is only compared and
-- passed on: it is counted from the least int up, so that the order is that of the natural numbers.
use faisalaffan_design_syste.Base.{
  ℕ, String, Bool, true, false, not, ◌&&◌, ltb, if◌then◌else◌, ◌==◌, nat_key, string_key,
}
use faisalaffan_design_syste.Promo.Model.{Effect, UsageLimits, rule_active}
use faisalaffan_design_syste.Promo.Condition.{MaybeCondition}

pub record Rule (F : Type 0) : Type 0 where
  pub id : String
  pub name : String
  pub priority : ℕ
  pub conditions : MaybeCondition F
  pub effect : Effect F
  pub limits : UsageLimits
  pub stackable : Bool
  pub exclusivity_group : String
  pub max_stackable : ℕ
  pub start_at : ℕ
  pub end_at : ℕ
  pub status : String
  pub created_at : ℕ

-- `IsActive`
unfoldable pub is_active : {F : Type 0} → Rule F → ℕ → Bool
is_active r now =
    if not (r.status == rule_active)
    then false
    else if not (r.start_at == 0) && ltb now r.start_at
    then false
    else if not (r.end_at == 0) && ltb r.end_at now
    then false
    else true
