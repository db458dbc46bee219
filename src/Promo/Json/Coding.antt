-- ===== src/Promo/Json/Coding.antt =====
-- services/promo-engine/model/model.go: what reads and writes conditions and rules.
use faisalaffan_design_syste.Base.{ℕ, zero, suc, String, Option, none, some, List, [], ◌∷◌}
use faisalaffan_design_syste.Promo.Condition.{
  Condition, composite, min_transaction, area_of, category_of, first_n_order, time_slot, Conditions,
  nil, cons, MaybeCondition, absent, present, cond_not, cond_min_transaction, cond_area,
  cond_category, cond_first_n_order, cond_time_slot,
}
use faisalaffan_design_syste.Promo.Rule.{Rule}
use faisalaffan_design_syste.Promo.Json.{
  Result, and_ok, or_error, map_error, ConditionJson, Codec, UnmarshalError, MarshalError, bare,
  Case, case_of, ok, error, discriminator, payload, missing_min_amount, missing_max_orders,
  exhausted, and_or_child, not_child, unknown_type, rule_payload, rule_condition, json_error,
  unknown_condition, junction, negation, minimum, area, category, first_n, slot, unknown,
}

module _ {F : Type 0} (codec : Codec F) where
  -- The loop over the children of AND and OR.
  unfoldable pub unmarshal_children :
      (codec.Raw → Result UnmarshalError (Condition F))
      → List codec.Raw
      → Result UnmarshalError (Conditions F)
  unmarshal_children f [] = ok nil
  unmarshal_children f (r ∷ rs) =
      and_ok (map_error and_or_child (f r))
        (λ c. and_ok (unmarshal_children f rs) (λ cs. ok (cons c cs)))

  unfoldable pub unmarshal_single :
      (codec.Raw → Result UnmarshalError (Condition F))
      → Option codec.Raw
      → Result UnmarshalError (MaybeCondition F)
  unmarshal_single f none = ok absent
  unmarshal_single f (some r) = and_ok (map_error not_child (f r)) (λ c. ok (present c))

  -- A case of the switch on the type.
  unfoldable pub unmarshal_case :
      (codec.Raw → Result UnmarshalError (Condition F))
      → Case
      → String
      → ConditionJson F codec.Raw
      → Result UnmarshalError (Condition F)
  unfolding unmarshal_children unmarshal_single
  unmarshal_case f junction type aux =
      and_ok (unmarshal_children f aux.conditions) (λ cs. ok (composite type cs absent))
  unmarshal_case f negation type aux =
      and_ok (unmarshal_single f aux.condition) (λ c. ok (composite cond_not nil c))
  unmarshal_case f minimum type aux =
      and_ok (or_error missing_min_amount aux.min_amount) (λ a. ok (min_transaction a))
  unmarshal_case f area type aux = ok (area_of aux.areas)
  unmarshal_case f category type aux = ok (category_of aux.categories)
  unmarshal_case f first_n type aux =
      and_ok (or_error missing_max_orders aux.max_orders) (λ n. ok (first_n_order n))
  unmarshal_case f slot type aux = ok (time_slot aux.start aux.finish aux.days)
  unmarshal_case f unknown type aux = error (unknown_type type)

  unfoldable pub unmarshal_on : ℕ → codec.Raw → Result UnmarshalError (Condition F)
  unfolding case_of unmarshal_case
  unmarshal_on zero raw = error exhausted
  unmarshal_on (suc n) raw = and_ok (or_error discriminator (codec.decode_type raw)) (λ type.
      and_ok (or_error payload (codec.decode raw))
        (λ aux. unmarshal_case (unmarshal_on n) (case_of type) type aux))

  -- `unmarshalCondition`, on more fuel than the message is long.
  unfoldable pub unmarshal_condition : codec.Raw → Result UnmarshalError (Condition F)
  unfolding unmarshal_on
  unmarshal_condition raw = unmarshal_on (suc (codec.size raw)) raw

  abbrev pub written : ConditionJson F codec.Raw → Result MarshalError codec.Raw
  written j = or_error json_error (codec.encode j)

  unfoldable mutual
    -- `marshalCondition`: a node writes its children when it has some, and its child when it has one.
    pub marshal : Condition F → Result MarshalError codec.Raw
    marshal (composite type children single) = and_ok (marshal_children children) (λ rs.
        and_ok (marshal_single single)
          (λ r. written (record (bare type) { conditions = rs; condition = r })))
    marshal (min_transaction a) =
        written (record (bare cond_min_transaction) { min_amount = some a })
    marshal (area_of areas) = written (record (bare cond_area) { areas = areas })
    marshal (category_of cats) = written (record (bare cond_category) { categories = cats })
    marshal (first_n_order n) = written (record (bare cond_first_n_order) { max_orders = some n })
    marshal (time_slot start finish days) =
        written (record (bare cond_time_slot) { start = start; finish = finish; days = days })

    pub marshal_children : Conditions F → Result MarshalError (List codec.Raw)
    marshal_children nil = ok []
    marshal_children (cons c cs) =
        and_ok (marshal c) (λ r. and_ok (marshal_children cs) (λ rs. ok (r ∷ rs)))

    pub marshal_single : MaybeCondition F → Result MarshalError (Option codec.Raw)
    marshal_single absent = ok none
    marshal_single (present c) = and_ok (marshal c) (λ r. ok (some r))

  -- A call of `marshalCondition` on what may be nil.
  unfoldable pub marshal_condition : MaybeCondition F → Result MarshalError codec.Raw
  unfolding marshal
  marshal_condition absent = error unknown_condition
  marshal_condition (present c) = marshal c

  -- `UnmarshalJSON` and `MarshalJSON` of a rule.
  unfoldable pub unmarshal_rule : codec.Data → Result UnmarshalError (Rule F)
  unfolding unmarshal_condition
  unmarshal_rule d = and_ok (or_error rule_payload (codec.decode_rule d)) (λ aux.
      and_ok (map_error (rule_condition aux.id) (unmarshal_condition aux.conditions)) (λ c.
        ok (record {
          id = aux.id;
          name = aux.name;
          priority = aux.priority;
          conditions = present c;
          effect = aux.effect;
          limits = aux.limits;
          stackable = aux.stackable;
          exclusivity_group = aux.exclusivity_group;
          max_stackable = aux.max_stackable;
          start_at = aux.start_at;
          end_at = aux.end_at;
          status = aux.status;
          created_at = aux.created_at;
        })))

  unfoldable pub marshal_rule : Rule F → Result MarshalError codec.Data
  unfolding marshal_condition
  marshal_rule r = and_ok (marshal_condition r.conditions) (λ raw. or_error json_error (
      codec.encode_rule (record {
        id = r.id;
        name = r.name;
        priority = r.priority;
        conditions = raw;
        effect = r.effect;
        limits = r.limits;
        stackable = r.stackable;
        exclusivity_group = r.exclusivity_group;
        max_stackable = r.max_stackable;
        start_at = r.start_at;
        end_at = r.end_at;
        status = r.status;
        created_at = r.created_at;
      })))
