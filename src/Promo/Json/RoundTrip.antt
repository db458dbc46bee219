-- ===== src/Promo/Json/RoundTrip.antt =====
-- services/promo-engine/model/model.go: what marshalCondition and MarshalJSON write is read back.
use faisalaffan_design_syste.Base.{
  ℕ, zero, suc, ◌<◌, String, ◌≡◌, refl, sym, ap, ◌∙◌, subst, ◌⊎◌, inl, inr, Option, none, some,
  List, [], ◌∷◌, arith, All,
}
use faisalaffan_design_syste.Promo.Condition.{
  Condition, composite, min_transaction, area_of, category_of, first_n_order, time_slot, Conditions,
  nil, cons, MaybeCondition, absent, present, cond_and, cond_or, cond_not,
}
use faisalaffan_design_syste.Promo.Json.{
  Result, ok, error, and_ok, or_error, map_error, ConditionJson, Codec, AllInside, option_list,
  json_error, junction, case_of,
}
use faisalaffan_design_syste.Promo.Json.Coding.{
  unmarshal_case, unmarshal_children, unmarshal_single, unmarshal_on, unmarshal_condition, written,
  marshal, marshal_children, marshal_single,
}
use faisalaffan_design_syste.Promo.Json.Regular.{
  IsRegular, AllRegular, IsRegularChild, Yields, unmarshal_on-IsRegular,
}

pub ok-inj : {E A : Type 0} (a b : A) → ◌≡◌ {A = Result E A} (ok a) (ok b) → a ≡ b
ok-inj a b h = ground (arith, h)

pub and_ok-inv :
    {E A B : Type 0} (r : Result E A) (f : A → Result E B) (b : B)
    → and_ok r f ≡ ok b
    → (a : A) × (r ≡ ok a) × (f a ≡ ok b)
and_ok-inv (ok a) f b h = (a, refl, h)
and_ok-inv (error e) f b h = ground (arith, h)

pub or_error-inv : {E A : Type 0} (e : E) (o : Option A) (a : A) → or_error e o ≡ ok a → o ≡ some a
or_error-inv e none a h = ground (arith, h)
or_error-inv e (some b) a h = ap some (ok-inj b a h)

pub map_error-inv :
    {E A : Type 0} (f : E → E) (r : Result E A) (a : A) → map_error f r ≡ ok a → r ≡ ok a
map_error-inv f (ok b) a h = h
map_error-inv f (error e) a h = ground (arith, h)

Yields-ok : {E A : Type 0} (P : A → Type 0) (r : Result E A) (a : A) → r ≡ ok a → Yields P r → P a
Yields-ok P r a e h = subst (Yields P) e h

junction-case_of : (type : String) → (type ≡ cond_and) ⊎ (type ≡ cond_or) → case_of type ≡ junction
unfolding case_of
junction-case_of type (inl e) = rw e refl
junction-case_of type (inr e) = rw e refl

module _ {F : Type 0} (codec : Codec F) where
  pub marshal-IsCompact :
      (c : Condition F) (r : codec.Raw) → marshal codec c ≡ ok r → codec.IsCompact r
  unfolding marshal
  marshal-IsCompact (composite type cs c) r h =
      let rs = and_ok-inv (marshal_children codec cs) _ r h in
      let one = and_ok-inv (marshal_single codec c) _ r rs.2 in
      codec.encode-IsCompact _ r (or_error-inv json_error _ r one.2)
  marshal-IsCompact (min_transaction a) r h =
      codec.encode-IsCompact _ r (or_error-inv json_error _ r h)
  marshal-IsCompact (area_of areas) r h = codec.encode-IsCompact _ r (or_error-inv json_error _ r h)
  marshal-IsCompact (category_of cats) r h =
      codec.encode-IsCompact _ r (or_error-inv json_error _ r h)
  marshal-IsCompact (first_n_order n) r h =
      codec.encode-IsCompact _ r (or_error-inv json_error _ r h)
  marshal-IsCompact (time_slot start finish days) r h =
      codec.encode-IsCompact _ r (or_error-inv json_error _ r h)

  children-AllCompact :
      (cs : Conditions F) (rs : List codec.Raw)
      → marshal_children codec cs ≡ ok rs
      → All codec.IsCompact rs
  unfolding marshal
  children-AllCompact nil rs h = subst (All codec.IsCompact) (ok-inj [] rs h) tt
  children-AllCompact (cons c cs) rs h =
      let (r, er, h1) = and_ok-inv (marshal codec c) _ rs h in
      let (rest, erest, h2) = and_ok-inv (marshal_children codec cs) _ rs h1 in
      subst (All codec.IsCompact) (ok-inj (r ∷ rest) rs h2)
        (marshal-IsCompact c r er, children-AllCompact cs rest erest)

  -- A written message is read into the switch on its type.
  reads-written :
      (n : ℕ) (j : ConditionJson F codec.Raw) (r : codec.Raw)
      → AllInside codec.IsCompact j
      → written codec j ≡ ok r
      → (unmarshal_on codec (suc n) r
          ≡ unmarshal_case codec (unmarshal_on codec n) (case_of j.type) j.type j)
        × AllInside (λ s. codec.size s < codec.size r) j
  unfolding unmarshal_on
  reads-written n j r compact h =
      let read = codec.decode-encode j r compact (or_error-inv json_error (codec.encode j) r h) in
      (rw (codec.decode_type-decode r j read) (rw read refl), codec.size-decode r j read)

  -- What the recursion has to show of the messages of at most a size.
  abbrev ReadsBack : ℕ → ℕ → Type 0
  ReadsBack n m =
      (c : Condition F) (r : codec.Raw)
      → codec.size r < m
      → IsRegular c
      → marshal codec c ≡ ok r
      → unmarshal_on codec n r ≡ ok c

  children-unmarshal :
      (n m : ℕ) (cs : Conditions F) (rs : List codec.Raw)
      → ReadsBack n m
      → All (λ r. codec.size r < m) rs
      → AllRegular cs
      → marshal_children codec cs ≡ ok rs
      → unmarshal_children codec (unmarshal_on codec n) rs ≡ ok cs
  unfolding marshal AllRegular unmarshal_children
  children-unmarshal n m nil rs back small reg h = rw (sym (ok-inj [] rs h)) refl
  children-unmarshal n m (cons c cs) rs back small reg h =
      let (r, er, h1) = and_ok-inv (marshal codec c) _ rs h in
      let (rest, erest, h2) = and_ok-inv (marshal_children codec cs) _ rs h1 in
      let same : r ∷ rest ≡ rs = ok-inj (r ∷ rest) rs h2 in
      let small' : All (λ s. codec.size s < m) (r ∷ rest) =
        subst (All (λ s. codec.size s < m)) (sym same) small in
      rw (sym same) (
        rw (back c r small'.0 reg.0 er)
          (rw (children-unmarshal n m cs rest back small'.1 reg.1 erest) refl))

  junction-unmarshal :
      (n : ℕ) (type : String) (cs : Conditions F) (r : codec.Raw)
      → ReadsBack n (codec.size r)
      → (type ≡ cond_and) ⊎ (type ≡ cond_or)
      → AllRegular cs
      → marshal codec (composite type cs absent) ≡ ok r
      → unmarshal_on codec (suc n) r ≡ ok (composite type cs absent)
  unfolding marshal unmarshal_case
  junction-unmarshal n type cs r back kind reg h =
      let (rs, ers, h1) = and_ok-inv (marshal_children codec cs) _ r h in
      let read = reads-written n _ r (tt, children-AllCompact cs rs ers) h1 in
      read.0
      ∙ rw (junction-case_of type kind)
          (rw (children-unmarshal n (codec.size r) cs rs back read.1.1 reg ers) refl)

  negation-unmarshal :
      (n : ℕ) (c : MaybeCondition F) (r : codec.Raw)
      → ReadsBack n (codec.size r)
      → IsRegularChild c
      → marshal codec (composite cond_not nil c) ≡ ok r
      → unmarshal_on codec (suc n) r ≡ ok (composite cond_not nil c)
  unfolding marshal unmarshal_case unmarshal_single case_of IsRegularChild
  negation-unmarshal n absent r back reg h = (reads-written n _ r (tt, tt) h).0
  negation-unmarshal n (present c) r back reg h =
      let (one, eone, h1) = and_ok-inv (marshal_single codec (present c)) _ r h in
      let (s, es, h2) = and_ok-inv (marshal codec c) _ one eone in
      let same : some s ≡ one = ok-inj (some s) one h2 in
      let compact : All codec.IsCompact (option_list one) =
        subst (λ o. All codec.IsCompact (option_list o)) same (marshal-IsCompact c s es, tt) in
      let read = reads-written n _ r (compact, tt) h1 in
      let small : All (λ x. codec.size x < codec.size r) (option_list (some s)) =
        subst (λ o. All (λ x. codec.size x < codec.size r) (option_list o)) (sym same) read.1.0 in
      read.0 ∙ rw (sym same) (rw (back c s small.0 reg es) refl)

  marshal-unmarshal_on : (n : ℕ) → ReadsBack n n
  unfolding marshal unmarshal_case case_of IsRegular
  marshal-unmarshal_on zero c r lt reg h = ground (arith, lt)
  marshal-unmarshal_on (suc n) (composite type cs c) r lt reg h =
      let back : ReadsBack n (codec.size r) =
        λ c' s lt'. marshal-unmarshal_on n c' s (omega (arith, lt, lt')) in
      elim reg [
        | inl (kind, none_single, regs) ↦
            let same : composite type cs c ≡ composite type cs absent = rw none_single refl in
            subst (λ x. marshal codec x ≡ ok r → unmarshal_on codec (suc n) r ≡ ok x) (sym same)
              (junction-unmarshal n type cs r back kind regs) h
        | inr (kind, no_children, reg') ↦
            let same : composite type cs c ≡ composite cond_not nil c =
              rw kind (rw no_children refl) in
            subst (λ x. marshal codec x ≡ ok r → unmarshal_on codec (suc n) r ≡ ok x) (sym same)
              (negation-unmarshal n c r back reg') h
      ]
  marshal-unmarshal_on (suc n) (min_transaction a) r lt reg h = (reads-written n _ r (tt, tt) h).0
  marshal-unmarshal_on (suc n) (area_of areas) r lt reg h = (reads-written n _ r (tt, tt) h).0
  marshal-unmarshal_on (suc n) (category_of cats) r lt reg h = (reads-written n _ r (tt, tt) h).0
  marshal-unmarshal_on (suc n) (first_n_order m) r lt reg h = (reads-written n _ r (tt, tt) h).0
  marshal-unmarshal_on (suc n) (time_slot start finish days) r lt reg h =
      (reads-written n _ r (tt, tt) h).0

  -- A condition that was read from some message is written to a message that is read as the same
  -- condition, however deep its nodes are.
  pub unmarshal-marshal :
      (raw r : codec.Raw) (c : Condition F)
      → unmarshal_condition codec raw ≡ ok c
      → marshal codec c ≡ ok r
      → unmarshal_condition codec r ≡ ok c
  unfolding unmarshal_condition
  unmarshal-marshal raw r c read wrote =
      marshal-unmarshal_on (suc (codec.size r)) c r (omega arith)
        (Yields-ok IsRegular _ c read (unmarshal_on-IsRegular codec (suc (codec.size raw)) raw))
        wrote
