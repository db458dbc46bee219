-- ===== src/Promo/Json.antt =====
-- services/promo-engine/model/model.go: the JSON form of conditions and of rules. encoding/json is the
-- interface `Codec`: what it reads of a message into the struct, and what it writes of the map whose
-- missing keys are the struct's zero values.
pub mod Coding
pub mod Regular
pub mod Ends
pub mod RoundTrip
pub mod Rules
mod Samples
use faisalaffan_design_syste.Base.{
  ℕ, ◌<◌, String, ◌≡◌, Bool, ◌||◌, Option, none, some, List, [], ◌∷◌, if◌then◌else◌, All, ◌==◌,
  nat_key, string_key,
}
use faisalaffan_design_syste.Base.Ints.{ℤ}
use faisalaffan_design_syste.Promo.Model.{Effect, UsageLimits}
use faisalaffan_design_syste.Promo.Condition.{
  Condition, composite, min_transaction, area_of, category_of, first_n_order, time_slot, Conditions,
  nil, cons, MaybeCondition, absent, present, cond_and, cond_or, cond_not, cond_min_transaction,
  cond_area, cond_category, cond_first_n_order, cond_time_slot,
}
use faisalaffan_design_syste.Promo.Rule.{Rule}

pub data Result (E A : Type 0) : Type 0 where
  ok : A → Result E A
  error : E → Result E A

abbrev pub and_ok : {E A B : Type 0} → Result E A → (A → Result E B) → Result E B
and_ok (ok a) f = f a
and_ok (error e) f = error e

abbrev pub or_error : {E A : Type 0} → E → Option A → Result E A
or_error e none = error e
or_error e (some a) = ok a

abbrev pub map_error : {E A : Type 0} → (E → E) → Result E A → Result E A
map_error f (ok a) = ok a
map_error f (error e) = error (f e)

pub record ConditionJson (F Raw : Type 0) : Type 0 where
  pub type : String
  pub conditions : List Raw
  pub condition : Option Raw
  pub min_amount : Option F
  pub areas : List String
  pub categories : List String
  pub max_orders : Option ℤ
  pub start : String
  pub finish : String
  pub days : List ℕ

pub record RuleJson (F Raw : Type 0) : Type 0 where
  pub id : String
  pub name : String
  pub priority : ℕ
  pub conditions : Raw
  pub effect : Effect F
  pub limits : UsageLimits
  pub stackable : Bool
  pub exclusivity_group : String
  pub max_stackable : ℕ
  pub start_at : ℕ
  pub end_at : ℕ
  pub status : String
  pub created_at : ℕ

abbrev pub option_list : {A : Type 0} → Option A → List A
option_list none = []
option_list (some a) = a ∷ []

-- What holds of every message inside a condition's.
abbrev pub AllInside : {F Raw : Type 0} → (Raw → Type 0) → ConditionJson F Raw → Type 0
AllInside P j = All P (option_list j.condition) × All P j.conditions

-- encoding/json: a message inside another is shorter, and what Marshal has written of a value over
-- compact messages is compact and is read back as the value.
pub record Codec (F : Type 0) : Type 1 where
  pub Raw : Type 0
  pub Data : Type 0
  pub size : Raw → ℕ
  pub IsCompact : Raw → Type 0
  pub decode_type : Raw → Option String
  pub decode : Raw → Option (ConditionJson F Raw)
  pub encode : ConditionJson F Raw → Option Raw
  pub decode_rule : Data → Option (RuleJson F Raw)
  pub encode_rule : RuleJson F Raw → Option Data
  pub decode_type-decode :
      (r : Raw) (j : ConditionJson F Raw) → decode r ≡ some j → decode_type r ≡ some j.type
  pub size-decode :
      (r : Raw) (j : ConditionJson F Raw) → decode r ≡ some j → AllInside (λ s. size s < size r) j
  pub encode-IsCompact : (j : ConditionJson F Raw) (r : Raw) → encode j ≡ some r → IsCompact r
  pub decode-encode :
      (j : ConditionJson F Raw) (r : Raw)
      → AllInside IsCompact j
      → encode j ≡ some r
      → decode r ≡ some j
  pub decode-encode_rule :
      (j : RuleJson F Raw) (d : Data)
      → IsCompact j.conditions
      → encode_rule j ≡ some d
      → decode_rule d ≡ some j

pub data UnmarshalError : Type 0 where
  discriminator payload missing_min_amount missing_max_orders exhausted : UnmarshalError
  and_or_child not_child : UnmarshalError → UnmarshalError
  unknown_type : String → UnmarshalError
  rule_payload : UnmarshalError
  rule_condition : String → UnmarshalError → UnmarshalError

pub data MarshalError : Type 0 where
  json_error unknown_condition : MarshalError

-- The map of a leaf or of a node, before its keys are set.
abbrev pub bare : {F Raw : Type 0} → String → ConditionJson F Raw
bare type = record {
  type = type;
  conditions = [];
  condition = none;
  min_amount = none;
  areas = [];
  categories = [];
  max_orders = none;
  start = "";
  finish = "";
  days = [];
}

-- The cases of the switch on the type, and the one that a type selects.
pub data Case : Type 0 where
  junction negation minimum area category first_n slot unknown : Case

unfoldable pub case_of : String → Case
case_of type =
    if type == cond_and || type == cond_or
    then junction
    else if type == cond_not
    then negation
    else if type == cond_min_transaction
    then minimum
    else if type == cond_area
    then area
    else if type == cond_category
    then category
    else if type == cond_first_n_order
    then first_n
    else if type == cond_time_slot
    then slot
    else unknown
