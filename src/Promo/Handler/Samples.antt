-- ===== src/Promo/Handler/Samples.antt =====
-- Tests of CreateRule, on a codec whose messages are minimal amounts.
use faisalaffan_design_syste.Base.{ℕ, ◌<◌, ap, subst, true, none, some, [], none-ne-some, get_or}
use faisalaffan_design_syste.Base.Floats.{nat_floats}
use faisalaffan_design_syste.Promo.Json.{Codec, ConditionJson, AllInside}
use faisalaffan_design_syste.Promo.Handler.{CreateRuleRequest, create_rule}
use faisalaffan_design_syste.Promo.Handler.Create.{IsCreated, create_rule-IsCreated}

abbrev amount_json : ℕ → ConditionJson ℕ ℕ
amount_json n = record {
  type = "min_transaction";
  conditions = [];
  condition = none;
  min_amount = some n;
  areas = [];
  categories = [];
  max_orders = none;
  start = "";
  finish = "";
  days = [];
}

-- This codec writes nothing.
abbrev amounts : Codec ℕ
amounts = record {
  Raw = ℕ;
  Data = Unit;
  size = λ n. 0;
  IsCompact = λ n. Unit;
  decode_type = λ n. some "min_transaction";
  decode = λ n. some (amount_json n);
  encode = λ j. none;
  decode_rule = λ d. none;
  encode_rule = λ j. none;
  decode_type-decode = λ r j h. ap (λ o. some (ConditionJson.type (get_or o j))) h;
  size-decode = λ r j h. subst (λ x. AllInside (λ s. 0 < 0) x) (ap (λ o. get_or o j) h) (tt, tt);
  encode-IsCompact = λ j r h. tt;
  decode-encode = λ j r c h. absurd (none-ne-some h);
  decode-encode_rule = λ j d c h. absurd (none-ne-some h);
}

abbrev request : CreateRuleRequest ℕ ℕ
request = record {
  name = "ongkir";
  priority = 1;
  conditions_raw = some 50;
  effect = record { type = "fixed"; value = 10 };
  limits = record { max_total = 0; max_daily = 0; max_per_user = 0 };
  stackable = true;
  exclusivity_group = "";
  max_stackable = 0;
  start_at = 0;
  end_at = 0;
}

create_rule-IsCreated_example :
    IsCreated nat_floats amounts "id-1" 7
      (some request)
      []
      (create_rule nat_floats amounts "id-1" 7 (some request) [])
create_rule-IsCreated_example = create_rule-IsCreated nat_floats amounts "id-1" 7 (some request) []
