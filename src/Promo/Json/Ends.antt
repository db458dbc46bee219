-- ===== src/Promo/Json/Ends.antt =====
-- services/promo-engine/model/model.go, unmarshalCondition: the recursion over the messages ends.
use faisalaffan_design_syste.Base.{
  ℕ, zero, suc, ◌<◌, String, ◌≡◌, refl, ◌∙◌, inl, inr, Bool, true, false, Option, none, some, List,
  [], ◌∷◌, arith, if◌then◌else◌, Option-cases, All, All-map,
}
use faisalaffan_design_syste.Promo.Condition.{Condition}
use faisalaffan_design_syste.Promo.Json.{
  Result, ok, error, and_ok, or_error, map_error, ConditionJson, AllInside, option_list, Codec,
  UnmarshalError, discriminator, payload, missing_min_amount, missing_max_orders, exhausted,
  and_or_child, not_child, unknown_type, rule_payload, rule_condition, Case, junction, negation,
  minimum, area, category, first_n, slot, unknown, case_of,
}
use faisalaffan_design_syste.Promo.Json.Coding.{
  unmarshal_children, unmarshal_single, unmarshal_case, unmarshal_on, unmarshal_condition,
}

abbrev pub exhausts : UnmarshalError → Bool
exhausts exhausted = true
exhausts (and_or_child e) = exhausts e
exhausts (not_child e) = exhausts e
exhausts (rule_condition id e) = exhausts e
exhausts discriminator = false
exhausts payload = false
exhausts missing_min_amount = false
exhausts missing_max_orders = false
exhausts (unknown_type t) = false
exhausts rule_payload = false

-- The fuel was not what ended the computation.
abbrev pub IsDone : {A : Type 0} → Result UnmarshalError A → Type 0
IsDone (ok a) = Unit
IsDone (error e) = exhausts e ≡ false

and_ok-IsDone :
    {A B : Type 0} (r : Result UnmarshalError A) (f : A → Result UnmarshalError B)
    → IsDone r
    → ((a : A) → IsDone (f a))
    → IsDone (and_ok r f)
and_ok-IsDone (ok a) f h k = k a
and_ok-IsDone (error e) f h k = h

or_error-IsDone :
    {A : Type 0} (e : UnmarshalError) (o : Option A) → exhausts e ≡ false → IsDone (or_error e o)
or_error-IsDone e none h = h
or_error-IsDone e (some a) h = tt

if-IsDone :
    {A : Type 0} (t : Bool) (r s : Result UnmarshalError A)
    → IsDone r
    → IsDone s
    → IsDone (if t then r else s)
if-IsDone true r s h k = h
if-IsDone false r s h k = k

map_error-IsDone :
    {A : Type 0} (f : UnmarshalError → UnmarshalError) (r : Result UnmarshalError A)
    → ((e : UnmarshalError) → exhausts (f e) ≡ exhausts e)
    → IsDone r
    → IsDone (map_error f r)
map_error-IsDone f (ok a) h d = tt
map_error-IsDone f (error e) h d = h e ∙ d

module _ {F : Type 0} (codec : Codec F) where
  abbrev Reads : Type 0
  Reads = codec.Raw → Result UnmarshalError (Condition F)

  children-IsDone :
      (f : Reads) (rs : List codec.Raw)
      → All (λ r. IsDone (f r)) rs
      → IsDone (unmarshal_children codec f rs)
  unfolding unmarshal_children
  children-IsDone f [] h = tt
  children-IsDone f (r ∷ rs) h =
      and_ok-IsDone (map_error and_or_child (f r)) _
        (map_error-IsDone and_or_child (f r) (λ e. refl) h.0)
        (λ c. and_ok-IsDone (unmarshal_children codec f rs) _ (children-IsDone f rs h.1) (λ cs. tt))

  single-IsDone :
      (f : Reads) (o : Option codec.Raw)
      → All (λ r. IsDone (f r)) (option_list o)
      → IsDone (unmarshal_single codec f o)
  unfolding unmarshal_single
  single-IsDone f none h = tt
  single-IsDone f (some r) h =
      and_ok-IsDone (map_error not_child (f r)) _ (map_error-IsDone not_child (f r) (λ e. refl) h.0)
        (λ c. tt)

  case-IsDone :
      (f : Reads) (case : Case) (type : String) (aux : ConditionJson F codec.Raw)
      → AllInside (λ r. IsDone (f r)) aux
      → IsDone (unmarshal_case codec f case type aux)
  unfolding unmarshal_case
  case-IsDone f junction type aux h =
      and_ok-IsDone (unmarshal_children codec f aux.conditions) _
        (children-IsDone f aux.conditions h.1) (λ cs. tt)
  case-IsDone f negation type aux h =
      and_ok-IsDone (unmarshal_single codec f aux.condition) _ (single-IsDone f aux.condition h.0)
        (λ c. tt)
  case-IsDone f minimum type aux h =
      and_ok-IsDone _ _ (or_error-IsDone missing_min_amount aux.min_amount refl) (λ a. tt)
  case-IsDone f area type aux h = tt
  case-IsDone f category type aux h = tt
  case-IsDone f first_n type aux h =
      and_ok-IsDone _ _ (or_error-IsDone missing_max_orders aux.max_orders refl) (λ n. tt)
  case-IsDone f slot type aux h = tt
  case-IsDone f unknown type aux h = refl

  pub AllInside-map :
      (P Q : codec.Raw → Type 0) (j : ConditionJson F codec.Raw)
      → ((x : codec.Raw) → P x → Q x)
      → AllInside P j
      → AllInside Q j
  AllInside-map P Q j f h = (All-map P Q _ f h.0, All-map P Q _ f h.1)

  on-IsDone : (n : ℕ) (raw : codec.Raw) → codec.size raw < n → IsDone (unmarshal_on codec n raw)
  unfolding unmarshal_on
  on-IsDone zero raw le = ground (arith, le)
  on-IsDone (suc n) raw le =
      and_ok-IsDone _ _ (or_error-IsDone discriminator (codec.decode_type raw) refl) (λ type.
        elim (Option-cases (codec.decode raw)) [
          | inl e ↦ rw e refl
          | inr (aux, e) ↦ rw e (
              case-IsDone (unmarshal_on codec n) (case_of type) type aux (
                AllInside-map _ _ aux (λ r lt. on-IsDone n r (omega (arith, lt, le)))
                  (codec.size-decode raw aux e)))
        ])

  children-agree :
      (f g : Reads) (rs : List codec.Raw)
      → All (λ r. f r ≡ g r) rs
      → unmarshal_children codec f rs ≡ unmarshal_children codec g rs
  unfolding unmarshal_children
  children-agree f g [] h = refl
  children-agree f g (r ∷ rs) h = rw h.0 (rw (children-agree f g rs h.1) refl)

  single-agree :
      (f g : Reads) (o : Option codec.Raw)
      → All (λ r. f r ≡ g r) (option_list o)
      → unmarshal_single codec f o ≡ unmarshal_single codec g o
  unfolding unmarshal_single
  single-agree f g none h = refl
  single-agree f g (some r) h = rw h.0 refl

  case-agree :
      (f g : Reads) (case : Case) (type : String) (aux : ConditionJson F codec.Raw)
      → AllInside (λ r. f r ≡ g r) aux
      → unmarshal_case codec f case type aux ≡ unmarshal_case codec g case type aux
  unfolding unmarshal_case
  case-agree f g junction type aux h = rw (children-agree f g aux.conditions h.1) refl
  case-agree f g negation type aux h = rw (single-agree f g aux.condition h.0) refl
  case-agree f g minimum type aux h = refl
  case-agree f g area type aux h = refl
  case-agree f g category type aux h = refl
  case-agree f g first_n type aux h = refl
  case-agree f g slot type aux h = refl
  case-agree f g unknown type aux h = refl

  on-agree :
      (n m : ℕ) (raw : codec.Raw)
      → codec.size raw < n
      → codec.size raw < m
      → unmarshal_on codec n raw ≡ unmarshal_on codec m raw
  unfolding unmarshal_on
  on-agree zero m raw le le' = ground (arith, le)
  on-agree (suc n) zero raw le le' = ground (arith, le')
  on-agree (suc n) (suc m) raw le le' = elim (Option-cases (codec.decode raw)) [
    | inl e ↦ rw e refl
    | inr (aux, e) ↦ rw e (
        rw (codec.decode_type-decode raw aux e) (
          case-agree (unmarshal_on codec n) (unmarshal_on codec m) (case_of aux.type) aux.type aux (
            AllInside-map _ _ aux
              (λ r lt. on-agree n m r (omega (arith, lt, le)) (omega (arith, lt, le')))
              (codec.size-decode raw aux e))))
  ]

  -- The recursion of unmarshalCondition over the messages inside a message ends, with a condition or an
  -- error of its own, on any fuel above the length of the message, and always with the same answer.
  pub unmarshal_condition-ends :
      (n : ℕ) (raw : codec.Raw)
      → codec.size raw < n
      → (unmarshal_on codec n raw ≡ unmarshal_condition codec raw)
        × IsDone (unmarshal_condition codec raw)
  unfolding unmarshal_condition
  unmarshal_condition-ends n raw le = (
    on-agree n (suc (codec.size raw)) raw le (omega arith),
    on-IsDone (suc (codec.size raw)) raw (omega arith),
  )
