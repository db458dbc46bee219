-- ===== src/Promo/Store/Samples.antt =====
-- Tests of the evaluation, on natural numbers in place of floats.
use mathlib.Core.List.Perm
use faisalaffan_design_syste.Base.{
  ℕ, ◌%◌, String, ◌≡◌, refl, true, ◌&&◌, none, some, List, [], ◌∷◌, tally, All, ◌==◌, nat_key,
  string_key,
}
use faisalaffan_design_syste.Base.Ints.{pos}
use faisalaffan_design_syste.Base.Floats.{nat_floats}
use faisalaffan_design_syste.Base.Redis.{maps_redis, no_maps}
use faisalaffan_design_syste.Promo.Model.{UsageLimits, EvalContext, Library}
use faisalaffan_design_syste.Promo.Condition.{min_transaction, present}
use faisalaffan_design_syste.Promo.Rule.{Rule}
use faisalaffan_design_syste.Promo.Counter.{counter_key, check_all_limits}
use faisalaffan_design_syste.Promo.Counter.Unset.{IsPartlyUnset}
use faisalaffan_design_syste.Promo.Store.{RuleStore, rules_of, evaluate_active_rules}
use faisalaffan_design_syste.Promo.Store.Eligible.{
  applies, evaluate_active_rules-tally, evaluate_active_rules-unset,
}

abbrev plain_library : Library
plain_library = record {
  equal_fold = λ a b. a == b;
  split = λ s sep. s ∷ [];
  scan_int = λ s. 0;
  weekday = λ t. t % 7;
  hour = λ t. t % 24;
  minute = λ t. t % 60;
}

abbrev rule_with : String → UsageLimits → Rule ℕ
rule_with id l = record {
  id = id;
  name = id;
  priority = 1;
  conditions = present (min_transaction 50);
  effect = record { type = "fixed"; value = 10 };
  limits = l;
  stackable = true;
  exclusivity_group = "";
  max_stackable = 0;
  start_at = 0;
  end_at = 0;
  status = "active";
  created_at = 1;
}

abbrev two_rules : RuleStore ℕ
two_rules =
    ("a", rule_with "a" (record { max_total = 0; max_daily = 0; max_per_user = 0 }))
    ∷ ("b", rule_with "b" (record { max_total = 100; max_daily = 0; max_per_user = 1 }))
    ∷ []

abbrev cart : EvalContext ℕ
cart = record {
  user_id = "u";
  cart_total = 80;
  cart_items = [];
  area = "";
  categories = [];
  user_order_count = pos 0;
  device_id = "";
  phone = "";
  address = "";
  now = 5;
}

abbrev in_order : List (Rule ℕ) → List (Rule ℕ)
in_order rules = rules

evaluated :
    tally
      (λ r. r.id == "a")
      (evaluate_active_rules plain_library nat_floats in_order none 5 cart two_rules)
    ≡ 1
unfolding evaluate_active_rules
evaluated = refl

evaluate_active_rules-tally_example :
    tally
      (λ r. true)
      (evaluate_active_rules plain_library nat_floats in_order none 5 cart two_rules)
    ≡ tally (λ r. true && applies plain_library nat_floats none 5 cart r) (rules_of two_rules)
evaluate_active_rules-tally_example =
    evaluate_active_rules-tally plain_library nat_floats in_order none 5 cart two_rules (λ r. true)
      (λ rules. Perm.refl rules)

evaluate_active_rules-unset_example :
    All
      (λ rule. ¬ IsPartlyUnset (Rule.limits rule))
      (evaluate_active_rules plain_library nat_floats in_order
        (some (λ l id uid. check_all_limits maps_redis l id uid "01" no_maps))
        5
        cart
        two_rules)
evaluate_active_rules-unset_example =
    evaluate_active_rules-unset plain_library nat_floats in_order maps_redis "01" 5 cart no_maps
      two_rules
