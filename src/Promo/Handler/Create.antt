-- ===== src/Promo/Handler/Create.antt =====
-- services/promo-engine/handler/handler.go, CreateRule: what is stored.
use faisalaffan_design_syste.Base.{
  ℕ, String, ◌≡◌, refl, ◌≢◌, inl, inr, Option, none, some, Bool-cases, ◌==◌, nat_key, string_key,
  lookup-insert_self, lookup-insert_ne,
}
use faisalaffan_design_syste.Base.Floats.{Floats}
use faisalaffan_design_syste.Promo.Model.{rule_active}
use faisalaffan_design_syste.Promo.Condition.{Condition, present}
use faisalaffan_design_syste.Promo.Rule.{Rule}
use faisalaffan_design_syste.Promo.Json.{Result, ok, error, Codec, UnmarshalError}
use faisalaffan_design_syste.Promo.Json.Coding.{unmarshal_condition}
use faisalaffan_design_syste.Promo.Store.{RuleStore, save, get_rule}
use faisalaffan_design_syste.Promo.Handler.{
  CreateRuleRequest, BadRequest, save_decoded, create_from, create_rule,
}

module _ (fl : Floats) (codec : Codec fl.F) (uuid : String) (now : ℕ) where
  -- A request that is refused changes no rule. One that is accepted stores a rule under the fresh id,
  -- active, with the conditions that its message decodes to, and changes no other rule.
  abbrev pub IsCreated :
      Option (CreateRuleRequest fl.F codec.Raw)
      → RuleStore fl.F
      → RuleStore fl.F × Result BadRequest (Rule fl.F)
      → Type 0
  IsCreated req s (s', error e) = s' ≡ s
  IsCreated req s (s', ok rule) =
      (rule.id ≡ uuid)
      × (rule.status ≡ rule_active)
      × ((q : CreateRuleRequest fl.F codec.Raw) × (raw : codec.Raw) × (c : Condition fl.F) × (req
            ≡ some q)
          × (q.conditions_raw ≡ some raw)
          × (unmarshal_condition codec raw ≡ ok c)
          × (rule.conditions ≡ present c))
      × (get_rule uuid s' ≡ some rule)
      × ((id : String) → uuid ≢ id → get_rule id s' ≡ get_rule id s)

  save_decoded-IsCreated :
      (req : CreateRuleRequest fl.F codec.Raw) (s : RuleStore fl.F) (raw : codec.Raw)
      (decoded : Result UnmarshalError (Condition fl.F))
      → req.conditions_raw ≡ some raw
      → unmarshal_condition codec raw ≡ decoded
      → IsCreated (some req) s (save_decoded fl uuid now req s decoded)
  unfolding save_decoded save get_rule
  save_decoded-IsCreated req s raw (error e) given read = refl
  save_decoded-IsCreated req s raw (ok c) given read = (
    refl,
    refl,
    (req, raw, c, refl, given, read, refl),
    lookup-insert_self uuid _ s,
    λ id other. lookup-insert_ne uuid id _ s other,
  )

  create_from-IsCreated :
      (req : CreateRuleRequest fl.F codec.Raw) (s : RuleStore fl.F) (o : Option codec.Raw)
      → req.conditions_raw ≡ o
      → IsCreated (some req) s (create_from fl codec uuid now req s o)
  unfolding create_from
  create_from-IsCreated req s none given = refl
  create_from-IsCreated req s (some raw) given = elim (Bool-cases (req.name == "")) [
    | inl e ↦ rw e refl
    | inr e ↦ rw e (save_decoded-IsCreated req s raw (unmarshal_condition codec raw) given refl)
  ]

  -- CreateRule either refuses the request and changes no rule, or stores one new rule under the fresh id
  -- that is found there, is active, and has the conditions that the message decodes to.
  pub create_rule-IsCreated :
      (req : Option (CreateRuleRequest fl.F codec.Raw)) (s : RuleStore fl.F)
      → IsCreated req s (create_rule fl codec uuid now req s)
  unfolding create_rule
  create_rule-IsCreated none s = refl
  create_rule-IsCreated (some req) s = create_from-IsCreated req s req.conditions_raw refl
