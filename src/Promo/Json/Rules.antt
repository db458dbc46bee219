-- ===== src/Promo/Json/Rules.antt =====
-- services/promo-engine/model/model.go: MarshalJSON and UnmarshalJSON of a rule.
use faisalaffan_design_syste.Base.{◌≡◌, refl, ap, ◌∙◌}
use faisalaffan_design_syste.Promo.Condition.{Condition, present}
use faisalaffan_design_syste.Promo.Rule.{Rule}
use faisalaffan_design_syste.Promo.Json.{
  ok, or_error, map_error, RuleJson, Codec, json_error, rule_payload, rule_condition,
}
use faisalaffan_design_syste.Promo.Json.Coding.{
  unmarshal_condition, marshal, marshal_condition, unmarshal_rule, marshal_rule,
}
use faisalaffan_design_syste.Promo.Json.RoundTrip.{
  ok-inj, and_ok-inv, or_error-inv, map_error-inv, marshal-IsCompact, unmarshal-marshal,
}

module _ {F : Type 0} (codec : Codec F) where
  -- The rule of a decoded message and its conditions, and the message of a rule.
  abbrev rule_of : RuleJson F codec.Raw → Condition F → Rule F
  rule_of aux c = record {
    id = aux.id;
    name = aux.name;
    priority = aux.priority;
    conditions = present c;
    effect = aux.effect;
    limits = aux.limits;
    stackable = aux.stackable;
    exclusivity_group = aux.exclusivity_group;
    max_stackable = aux.max_stackable;
    start_at = aux.start_at;
    end_at = aux.end_at;
    status = aux.status;
    created_at = aux.created_at;
  }

  rule_of-read :
      (d : codec.Data) (r : Rule F)
      → unmarshal_rule codec d ≡ ok r
      → (aux : RuleJson F codec.Raw) × (c : Condition F) × (unmarshal_condition codec aux.conditions
          ≡ ok c)
        × (rule_of aux c ≡ r)
  unfolding unmarshal_rule
  rule_of-read d r h =
      let (aux, eaux, h1) = and_ok-inv (or_error rule_payload (codec.decode_rule d)) _ r h in
      let (c, ec, h2) =
        and_ok-inv (map_error (rule_condition aux.id) (unmarshal_condition codec aux.conditions)) _
          r h1 in
      (aux, c, map_error-inv (rule_condition aux.id) _ c ec, ok-inj (rule_of aux c) r h2)

  rule_of-written :
      (aux : RuleJson F codec.Raw) (c : Condition F) (d : codec.Data)
      → unmarshal_condition codec aux.conditions ≡ ok c
      → marshal_rule codec (rule_of aux c) ≡ ok d
      → unmarshal_rule codec d ≡ ok (rule_of aux c)
  unfolding unmarshal_rule marshal_rule marshal_condition
  rule_of-written aux c d read h =
      let (raw, eraw, h1) = and_ok-inv (marshal codec c) _ d h in
      rw
        (codec.decode-encode_rule _ d (marshal-IsCompact codec c raw eraw)
          (or_error-inv json_error _ d h1))
        (rw (unmarshal-marshal codec aux.conditions raw c read eraw) refl)

  -- A rule that was read from some message by UnmarshalJSON is written by MarshalJSON, when it succeeds,
  -- to a message that is read as the same rule: all its fields and its whole tree of conditions.
  pub unmarshal_rule-marshal_rule :
      (d d' : codec.Data) (r : Rule F)
      → unmarshal_rule codec d ≡ ok r
      → marshal_rule codec r ≡ ok d'
      → unmarshal_rule codec d' ≡ ok r
  unmarshal_rule-marshal_rule d d' r read wrote =
      let (aux, c, ec, same) = rule_of-read d r read in
      let wrote' : marshal_rule codec (rule_of aux c) ≡ ok d' =
        ap (marshal_rule codec) same ∙ wrote in
      rule_of-written aux c d' ec wrote' ∙ ap ok same
