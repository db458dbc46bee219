-- ===== src/Promo/Json/Samples.antt =====
-- Tests on a codec whose messages are trees.
use faisalaffan_design_syste.Base.{
  ℕ, suc, ◌+◌, ◌<◌, ◌≡◌, refl, sym, ap, ◌∙◌, subst, true, Option, none, some, List, [], ◌∷◌, arith,
  All, get_or,
}
use faisalaffan_design_syste.Promo.Condition.{
  Condition, composite, min_transaction, area_of, nil, cons, present, absent,
}
use faisalaffan_design_syste.Promo.Rule.{Rule}
use faisalaffan_design_syste.Promo.Json.{
  Result, ok, error, bare, ConditionJson, RuleJson, Codec, AllInside,
}
use faisalaffan_design_syste.Promo.Json.Coding.{
  unmarshal_on, unmarshal_condition, marshal, unmarshal_rule, marshal_rule,
}
use faisalaffan_design_syste.Promo.Json.Ends.{IsDone, unmarshal_condition-ends}
use faisalaffan_design_syste.Promo.Json.Rules.{unmarshal_rule-marshal_rule}

-- A message: the fields of one object, the messages inside it apart.
mutual
  data Tree : Type 0 where
    tree : ConditionJson ℕ Unit → MaybeTree → Trees → Tree

  data Trees : Type 0 where
    leaf : Trees
    branch : Tree → Trees → Trees

  data MaybeTree : Type 0 where
    no_tree : MaybeTree
    one_tree : Tree → MaybeTree

unfoldable mutual
  tree_size : Tree → ℕ
  tree_size (tree j one many) = suc (maybe_size one + trees_size many)

  trees_size : Trees → ℕ
  trees_size leaf = 0
  trees_size (branch t ts) = tree_size t + trees_size ts

  maybe_size : MaybeTree → ℕ
  maybe_size no_tree = 0
  maybe_size (one_tree t) = tree_size t

abbrev list_of : Trees → List Tree
list_of leaf = []
list_of (branch t ts) = t ∷ list_of ts

abbrev trees_of : List Tree → Trees
trees_of [] = leaf
trees_of (t ∷ ts) = branch t (trees_of ts)

abbrev option_of : MaybeTree → Option Tree
option_of no_tree = none
option_of (one_tree t) = some t

abbrev maybe_of : Option Tree → MaybeTree
maybe_of none = no_tree
maybe_of (some t) = one_tree t

list_of-trees_of : (ts : List Tree) → list_of (trees_of ts) ≡ ts
list_of-trees_of [] = refl
list_of-trees_of (t ∷ ts) = ap (λ x. t ∷ x) (list_of-trees_of ts)

option_of-maybe_of : (o : Option Tree) → option_of (maybe_of o) ≡ o
option_of-maybe_of none = refl
option_of-maybe_of (some t) = refl

-- The fields of an object around other messages.
abbrev around : {A B : Type 0} → ConditionJson ℕ A → Option B → List B → ConditionJson ℕ B
around j one many = record {
  type = j.type;
  conditions = many;
  condition = one;
  min_amount = j.min_amount;
  areas = j.areas;
  categories = j.categories;
  max_orders = j.max_orders;
  start = j.start;
  finish = j.finish;
  days = j.days;
}

abbrev read_tree : Tree → ConditionJson ℕ Tree
read_tree (tree j one many) = around j (option_of one) (list_of many)

abbrev write_tree : ConditionJson ℕ Tree → Tree
write_tree j = tree (around j none []) (maybe_of j.condition) (trees_of j.conditions)

read_tree-write_tree : (j : ConditionJson ℕ Tree) → read_tree (write_tree j) ≡ j
read_tree-write_tree j =
    ap (λ o. around j o (list_of (trees_of j.conditions))) (option_of-maybe_of j.condition)
    ∙ ap (around j j.condition) (list_of-trees_of j.conditions)

trees-small :
    (ts : Trees) (bound : ℕ) → trees_size ts < bound → All (λ s. tree_size s < bound) (list_of ts)
unfolding tree_size
trees-small leaf bound le = tt
trees-small (branch t ts) bound le = (omega (arith, le), trees-small ts bound (omega (arith, le)))

tree-small : (t : Tree) → AllInside (λ s. tree_size s < tree_size t) (read_tree t)
unfolding tree_size
tree-small (tree j no_tree many) = (tt, trees-small many _ (omega arith))
tree-small (tree j (one_tree t) many) = ((omega arith, tt), trees-small many _ (omega arith))

abbrev toy_codec : Codec ℕ
toy_codec = record {
  Raw = Tree;
  Data = RuleJson ℕ Tree;
  size = tree_size;
  IsCompact = λ t. Unit;
  decode_type = λ t. some (ConditionJson.type (read_tree t));
  decode = λ t. some (read_tree t);
  encode = λ j. some (write_tree j);
  decode_rule = some;
  encode_rule = some;
  decode_type-decode = λ r j h. ap (λ o. some (ConditionJson.type (get_or o j))) h;
  size-decode = λ r j h.
      subst (λ x. AllInside (λ s. tree_size s < tree_size r) x) (ap (λ o. get_or o j) h)
        (tree-small r);
  encode-IsCompact = λ j r h. tt;
  decode-encode = λ j r c h.
      ap (λ t. some (read_tree t)) (sym (ap (λ o. get_or o r) h))
      ∙ ap some (read_tree-write_tree j);
  decode-encode_rule = λ j d c h. sym h;
}

abbrev tree_condition : Condition ℕ
tree_condition =
    composite "and"
      (cons (min_transaction 50)
        (cons (composite "not" nil (present (area_of ("Papua" ∷ [])))) nil))
      absent

abbrev sample_rule : Rule ℕ
sample_rule = record {
  id = "r1";
  name = "ongkir";
  priority = 3;
  conditions = present tree_condition;
  effect = record { type = "fixed"; value = 10 };
  limits = record { max_total = 5; max_daily = 0; max_per_user = 1 };
  stackable = true;
  exclusivity_group = "";
  max_stackable = 2;
  start_at = 0;
  end_at = 0;
  status = "active";
  created_at = 9;
}

abbrev result_or : {E A : Type 0} → Result E A → A → A
result_or (ok a) b = a
result_or (error e) b = b

abbrev empty_tree : Tree
empty_tree = tree (around (bare {F = ℕ} {Raw = Unit} "") none []) no_tree leaf

-- The message of the sample rule.
unfoldable sample_message : RuleJson ℕ Tree
unfolding marshal
sample_message = record {
  id = "r1";
  name = "ongkir";
  priority = 3;
  conditions = result_or (marshal toy_codec tree_condition) empty_tree;
  effect = record { type = "fixed"; value = 10 };
  limits = record { max_total = 5; max_daily = 0; max_per_user = 1 };
  stackable = true;
  exclusivity_group = "";
  max_stackable = 2;
  start_at = 0;
  end_at = 0;
  status = "active";
  created_at = 9;
}

sample-read : unmarshal_rule toy_codec sample_message ≡ ok sample_rule
unfolding sample_message unmarshal_rule tree_size
sample-read = refl

sample-written : marshal_rule toy_codec sample_rule ≡ ok sample_message
unfolding sample_message marshal_rule
sample-written = refl

unmarshal_rule-marshal_rule_example : unmarshal_rule toy_codec sample_message ≡ ok sample_rule
unmarshal_rule-marshal_rule_example =
    unmarshal_rule-marshal_rule toy_codec sample_message sample_message sample_rule sample-read
      sample-written

unmarshal_condition-ends_example :
    (unmarshal_on toy_codec 9 (RuleJson.conditions sample_message)
      ≡ unmarshal_condition toy_codec (RuleJson.conditions sample_message))
    × IsDone (unmarshal_condition toy_codec (RuleJson.conditions sample_message))
unfolding sample_message tree_size
unmarshal_condition-ends_example =
    unmarshal_condition-ends toy_codec 9 (RuleJson.conditions sample_message) (omega arith)
