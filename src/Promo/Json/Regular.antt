-- ===== src/Promo/Json/Regular.antt =====
-- services/promo-engine/model/model.go: the conditions that unmarshalCondition produces.
use faisalaffan_design_syste.Base.{
  ℕ, zero, suc, String, ◌≡◌, refl, ◌⊎◌, inl, inr, Option, none, some, List, [], ◌∷◌, arith,
  Bool-cases, ◌==◌, nat_key, string_key,
}
use faisalaffan_design_syste.Promo.Condition.{
  Condition, composite, min_transaction, area_of, category_of, first_n_order, time_slot, Conditions,
  nil, cons, MaybeCondition, absent, present, cond_and, cond_or, cond_not,
}
use faisalaffan_design_syste.Promo.Json.{
  Result, ok, error, and_ok, or_error, map_error, ConditionJson, Codec, UnmarshalError,
  and_or_child, not_child, missing_min_amount, missing_max_orders, discriminator, payload, Case,
  junction, negation, minimum, area, category, first_n, slot, unknown, case_of,
}
use faisalaffan_design_syste.Promo.Json.Coding.{
  unmarshal_case, unmarshal_children, unmarshal_single, unmarshal_on,
}

-- A node with children is an AND or an OR without a single child; one with a single child, or with
-- none, is a NOT.
unfoldable mutual
  pub IsRegular : {F : Type 0} → Condition F → Type 0
  IsRegular (composite type cs c) =
      (((type ≡ cond_and) ⊎ (type ≡ cond_or)) × (c ≡ absent) × AllRegular cs)
      ⊎ ((type ≡ cond_not) × (cs ≡ nil) × IsRegularChild c)
  IsRegular (min_transaction a) = Unit
  IsRegular (area_of areas) = Unit
  IsRegular (category_of cats) = Unit
  IsRegular (first_n_order n) = Unit
  IsRegular (time_slot start finish days) = Unit

  pub AllRegular : {F : Type 0} → Conditions F → Type 0
  AllRegular nil = Unit
  AllRegular (cons c cs) = IsRegular c × AllRegular cs

  pub IsRegularChild : {F : Type 0} → MaybeCondition F → Type 0
  IsRegularChild absent = Unit
  IsRegularChild (present c) = IsRegular c

-- What holds of a result that is not an error.
abbrev pub Yields : {E A : Type 0} → (A → Type 0) → Result E A → Type 0
Yields P (ok a) = P a
Yields P (error e) = Unit

and_ok-Yields :
    {E A B : Type 0} (P : A → Type 0) (Q : B → Type 0) (r : Result E A) (f : A → Result E B)
    → Yields P r
    → ((a : A) → P a → Yields Q (f a))
    → Yields Q (and_ok r f)
and_ok-Yields P Q (ok a) f h k = k a h
and_ok-Yields P Q (error e) f h k = tt

map_error-Yields :
    {E A : Type 0} (P : A → Type 0) (f : E → E) (r : Result E A)
    → Yields P r
    → Yields P (map_error f r)
map_error-Yields P f (ok a) h = h
map_error-Yields P f (error e) h = tt

any-Yields : {E A : Type 0} (r : Result E A) → Yields (λ a. Unit) r
any-Yields (ok a) = tt
any-Yields (error e) = tt

case_of-junction : (type : String) → case_of type ≡ junction → (type ≡ cond_and) ⊎ (type ≡ cond_or)
unfolding case_of
case_of-junction type h = elim (Bool-cases (type == cond_and)) [
  | inl e ↦ inl ((string_key.test_iff type cond_and).0 e)
  | inr e ↦ elim (Bool-cases (type == cond_or)) [
    | inl e' ↦ inr ((string_key.test_iff type cond_or).0 e')
    | inr e' ↦ ground (arith, h, e, e')
  ]
]

module _ {F : Type 0} (codec : Codec F) where
  abbrev Reads : Type 0
  Reads = codec.Raw → Result UnmarshalError (Condition F)

  children-AllRegular :
      (f : Reads) (rs : List codec.Raw)
      → ((r : codec.Raw) → Yields IsRegular (f r))
      → Yields AllRegular (unmarshal_children codec f rs)
  unfolding unmarshal_children AllRegular
  children-AllRegular f [] h = tt
  children-AllRegular f (r ∷ rs) h =
      and_ok-Yields IsRegular AllRegular (map_error and_or_child (f r)) _
        (map_error-Yields IsRegular and_or_child (f r) (h r))
        (λ c reg.
          and_ok-Yields AllRegular AllRegular (unmarshal_children codec f rs) _
            (children-AllRegular f rs h) (λ cs regs. (reg, regs)))

  single-IsRegular :
      (f : Reads) (o : Option codec.Raw)
      → ((r : codec.Raw) → Yields IsRegular (f r))
      → Yields IsRegularChild (unmarshal_single codec f o)
  unfolding unmarshal_single IsRegularChild
  single-IsRegular f none h = tt
  single-IsRegular f (some r) h =
      and_ok-Yields IsRegular IsRegularChild (map_error not_child (f r)) _
        (map_error-Yields IsRegular not_child (f r) (h r)) (λ c reg. reg)

  case-IsRegular :
      (f : Reads) (case : Case) (type : String) (aux : ConditionJson F codec.Raw)
      → case_of type ≡ case
      → ((r : codec.Raw) → Yields IsRegular (f r))
      → Yields IsRegular (unmarshal_case codec f case type aux)
  unfolding unmarshal_case IsRegular
  case-IsRegular f junction type aux e h =
      and_ok-Yields AllRegular IsRegular (unmarshal_children codec f aux.conditions) _
        (children-AllRegular f aux.conditions h)
        (λ cs regs. inl (case_of-junction type e, refl, regs))
  case-IsRegular f negation type aux e h =
      and_ok-Yields IsRegularChild IsRegular (unmarshal_single codec f aux.condition) _
        (single-IsRegular f aux.condition h) (λ c reg. inr (refl, refl, reg))
  case-IsRegular f minimum type aux e h =
      and_ok-Yields (λ a. Unit) IsRegular (or_error missing_min_amount aux.min_amount) _
        (any-Yields (or_error missing_min_amount aux.min_amount)) (λ a u. tt)
  case-IsRegular f area type aux e h = tt
  case-IsRegular f category type aux e h = tt
  case-IsRegular f first_n type aux e h =
      and_ok-Yields (λ a. Unit) IsRegular (or_error missing_max_orders aux.max_orders) _
        (any-Yields (or_error missing_max_orders aux.max_orders)) (λ a u. tt)
  case-IsRegular f slot type aux e h = tt
  case-IsRegular f unknown type aux e h = tt

  pub unmarshal_on-IsRegular :
      (n : ℕ) (raw : codec.Raw) → Yields IsRegular (unmarshal_on codec n raw)
  unfolding unmarshal_on
  unmarshal_on-IsRegular zero raw = tt
  unmarshal_on-IsRegular (suc n) raw =
      let types = or_error discriminator (codec.decode_type raw) in
      let auxes = or_error payload (codec.decode raw) in
      and_ok-Yields (λ a. Unit) IsRegular types _ (any-Yields types)
        (λ type u.
          and_ok-Yields (λ a. Unit) IsRegular auxes _ (any-Yields auxes)
            (λ aux v.
              case-IsRegular (unmarshal_on codec n) (case_of type) type aux refl
                (unmarshal_on-IsRegular n)))
