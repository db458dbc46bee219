-- ===== src/Promo/Model.antt =====
-- services/promo-engine/model/model.go: effects, limits and the context of an evaluation. Times are
-- counts of nanoseconds and 0 is the zero time; quantities and limits are natural numbers, where a limit
-- that is not positive is 0, since every test on it answers the same.
use faisalaffan_design_syste.Base.{
  ℕ, String, Bool, ◌||◌, List, ltb, if◌then◌else◌, ◌==◌, nat_key, string_key,
}
use faisalaffan_design_syste.Base.Ints.{ℤ}
use faisalaffan_design_syste.Base.Floats.{Floats}

abbrev pub effect_percentage : String
effect_percentage = "percentage"

abbrev pub effect_fixed : String
effect_fixed = "fixed"

abbrev pub effect_free_shipping : String
effect_free_shipping = "free_shipping"

abbrev pub effect_cashback : String
effect_cashback = "cashback"

abbrev pub rule_active : String
rule_active = "active"

abbrev pub rule_inactive : String
rule_inactive = "inactive"

abbrev pub rule_expired : String
rule_expired = "expired"

pub record Effect (F : Type 0) : Type 0 where
  pub type : String
  pub value : F

pub record UsageLimits : Type 0 where
  pub max_total : ℕ
  pub max_daily : ℕ
  pub max_per_user : ℕ

-- `HasAny`
unfoldable pub has_any : UsageLimits → Bool
has_any u = ltb 0 u.max_total || (ltb 0 u.max_daily || ltb 0 u.max_per_user)

pub record CartItem (F : Type 0) : Type 0 where
  pub id : String
  pub name : String
  pub price : F
  pub quantity : ℕ
  pub category : String

pub record EvalContext (F : Type 0) : Type 0 where
  pub user_id : String
  pub cart_total : F
  pub cart_items : List (CartItem F)
  pub area : String
  pub categories : List String
  pub user_order_count : ℤ
  pub device_id : String
  pub phone : String
  pub address : String
  pub now : ℕ

-- What the code calls of the packages strings, fmt and time.
pub record Library : Type 0 where
  -- `strings.EqualFold` and `strings.Split`
  pub equal_fold : String → String → Bool
  pub split : String → String → List String
  -- `fmt.Sscanf` with %d into a variable that holds 0; a time of day has no sign
  pub scan_int : String → ℕ
  -- `Weekday`, `Hour` and `Minute` of a time
  pub weekday : ℕ → ℕ
  pub hour : ℕ → ℕ
  pub minute : ℕ → ℕ

module _ (fl : Floats) where
  -- `CalculateDiscount`
  unfoldable pub calculate_discount : Effect fl.F → fl.F → fl.F
  calculate_discount e amount =
      if e.type == effect_percentage
      then fl.div (fl.mul amount e.value) (fl.of_int 100)
      else if e.type == effect_fixed
      then (if fl.less amount e.value then amount else e.value)
      else if e.type == effect_free_shipping
      then fl.of_int 0
      else if e.type == effect_cashback
      then e.value
      else fl.of_int 0

  -- `Round2`
  unfoldable pub round2 : fl.F → fl.F
  round2 val = fl.div (fl.round (fl.mul val (fl.of_int 100))) (fl.of_int 100)
