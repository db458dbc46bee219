-- ===== src/Promo/Resolve/Samples.antt =====
-- Tests of Resolve, on natural numbers in place of floats and with an insertion sort.
use mathlib.Core.List.{Perm}
use mathlib.Core.List.Perm
use faisalaffan_design_syste.Base.{
  ℕ, String, ◌≡◌, refl, inl, inr, Bool, true, false, not, List, [], ◌∷◌, map, Bool-cases, nat_key,
  string_key, lookup, insert, sort, place,
}
use faisalaffan_design_syste.Base.Ints.{pos}
use faisalaffan_design_syste.Base.Floats.{nat_floats}
use faisalaffan_design_syste.Base.Redis.{Redis, maps_redis, no_maps}
use faisalaffan_design_syste.Promo.Model.{EvalContext, calculate_discount}
use faisalaffan_design_syste.Promo.Condition.{absent}
use faisalaffan_design_syste.Promo.Rule.{Rule}
use faisalaffan_design_syste.Promo.Counter.{Key, counter_key, Reading, increment_and_check}
use faisalaffan_design_syste.Promo.Resolve.{Sorter, Groups, AppliedRule, ResolveResult, resolve}
use faisalaffan_design_syste.Promo.Resolve.Applied.{counter}
use faisalaffan_design_syste.Promo.Resolve.Once.{IsSelection, resolve-IsSelection}

place-perm : {A : Type 0} (le : A → A → Bool) (a : A) (xs : List A) → Perm (place le a xs) (a ∷ xs)
unfolding place
place-perm le a [] = Perm.refl (a ∷ [])
place-perm le a (x ∷ xs) = elim (Bool-cases (le a x)) [
  | inl e ↦ rw e (Perm.refl (a ∷ x ∷ xs))
  | inr e ↦ rw e (Perm.trans (Perm.cons x (place-perm le a xs)) (Perm.swap a x xs))
]

sort-perm : {A : Type 0} (le : A → A → Bool) (xs : List A) → Perm (sort le xs) xs
unfolding sort
sort-perm le [] = Perm.nil
sort-perm le (x ∷ xs) = Perm.trans (place-perm le x (sort le xs)) (Perm.cons x (sort-perm le xs))

abbrev insertion : Sorter
insertion = record {
  sort_slice = λ less xs. sort (λ a b. not (less b a)) xs;
  sort_slice-perm = λ less xs. sort-perm (λ a b. not (less b a)) xs;
}

abbrev redis : Redis Key Unit
redis = maps_redis

abbrev rule_of : String → ℕ → String → ℕ → Rule ℕ
rule_of id priority group value = record {
  id = id;
  name = id;
  priority = priority;
  conditions = absent;
  effect = record { type = "fixed"; value = value };
  limits = record { max_total = 5; max_daily = 5; max_per_user = 5 };
  stackable = true;
  exclusivity_group = group;
  max_stackable = 1;
  start_at = 0;
  end_at = 0;
  status = "active";
  created_at = 1;
}

abbrev validated : List (Rule ℕ)
validated =
    rule_of "a" 1 "g" 5
    ∷ rule_of "b" 2 "g" 9
    ∷ rule_of "c" 3 "" 4
    ∷ rule_of "d" 4 "" 3
    ∷ rule_of "e" 5 "h" 2
    ∷ []

abbrev cart : EvalContext ℕ
cart = record {
  user_id = "u";
  cart_total = 80;
  cart_items = [];
  area = "";
  categories = [];
  user_order_count = pos 0;
  device_id = "";
  phone = "";
  address = "";
  now = 5;
}

abbrev first_day : Reading
first_day = record { date = "01"; now = 0 }

abbrev backwards :
    Groups nat_floats insertion (counter nat_floats insertion redis first_day)
    → Groups nat_floats insertion (counter nat_floats insertion redis first_day)
backwards groups = sort (λ a b. false) groups

resolved_sample :
    map AppliedRule.rule_id (
      ResolveResult.applied_rules
        (resolve nat_floats insertion
          (counter nat_floats insertion redis first_day)
          backwards
          validated
          cart
          no_maps).1)
    ≡ "b" ∷ "e" ∷ "d" ∷ []
unfolding resolve sort increment_and_check lookup insert calculate_discount
resolved_sample = refl

resolve-IsSelection_example :
    (rules : List (Rule ℕ)) × IsSelection nat_floats insertion redis first_day validated no_maps
      (resolve nat_floats insertion
        (counter nat_floats insertion redis first_day)
        backwards
        validated
        cart
        no_maps)
      rules
resolve-IsSelection_example =
    resolve-IsSelection nat_floats insertion redis first_day backwards validated cart no_maps
      (λ groups. sort-perm (λ a b. false) groups)
