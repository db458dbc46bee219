-- ===== src/Promo/Resolve/Select.antt =====
-- services/promo-engine/service/resolver.go: how the rules are split into groups.
use faisalaffan_design_syste.Base.{
  ℕ, ◌+◌, ◌≤◌, String, ◌≡◌, refl, sym, ap, ◌∙◌, subst, inl, inr, Bool, true, false, not, Option,
  List, [], ◌∷◌, ◌++◌, arith, if◌then◌else◌, Bool-cases, tally, tally-append, ◌==◌, nat_key,
  string_key, ==-refl, lookup, insert, get_or,
}
use faisalaffan_design_syste.Base.Sums.{sum_by}
use faisalaffan_design_syste.Base.Floats.{Floats}
use faisalaffan_design_syste.Promo.Model.{calculate_discount}
use faisalaffan_design_syste.Promo.Rule.{Rule}
use faisalaffan_design_syste.Promo.Resolve.{GroupRule, Sorter, Increments, split}

module _ (fl : Floats) (sorter : Sorter) {R : Type 0} (counter : Option (Increments R)) where
  abbrev pub Rules : Type 0
  Rules = List (Rule fl.F)

  abbrev pub GroupOf : Type 0
  GroupOf = String × List (GroupRule fl.F)

  -- The rules of a group that pass a test, and those that are of another group.
  abbrev pub members : (Rule fl.F → Bool) → GroupOf → ℕ
  members q (group, grp) = tally (λ e. q (GroupRule.rule e)) grp

  abbrev pub strangers : GroupOf → ℕ
  strangers (group, grp) = tally (λ e. not (Rule.exclusivity_group (GroupRule.rule e) == group)) grp

  abbrev pub is_named : String → GroupOf → ℕ
  is_named g (group, grp) = if group == g then 1 else 0

  -- What the code does to the map for a rule of a group.
  abbrev append_entry : String → GroupRule fl.F → List GroupOf → List GroupOf
  append_entry group entry groups =
      insert group (get_or (lookup group groups) [] ++ (entry ∷ [])) groups

  append_entry-head :
      (name group : String) (entry : GroupRule fl.F) (grp : List (GroupRule fl.F))
      (groups : List GroupOf)
      → (name == group) ≡ true
      → append_entry group entry ((name, grp) ∷ groups) ≡ (group, grp ++ (entry ∷ [])) ∷ groups
  unfolding insert lookup
  append_entry-head name group entry grp groups e = rw e refl

  lookup-tail :
      (name group : String) (grp : List (GroupRule fl.F)) (groups : List GroupOf)
      → (name == group) ≡ false
      → lookup group ((name, grp) ∷ groups) ≡ lookup group groups
  unfolding lookup
  lookup-tail name group grp groups e = rw e refl

  insert-tail :
      (name group : String) (new grp : List (GroupRule fl.F)) (groups : List GroupOf)
      → (name == group) ≡ false
      → insert group new ((name, grp) ∷ groups) ≡ (name, grp) ∷ insert group new groups
  unfolding insert
  insert-tail name group new grp groups e = rw e refl

  append_entry-tail :
      (name group : String) (entry : GroupRule fl.F) (grp : List (GroupRule fl.F))
      (groups : List GroupOf)
      → (name == group) ≡ false
      → append_entry group entry ((name, grp) ∷ groups)
        ≡ (name, grp) ∷ append_entry group entry groups
  append_entry-tail name group entry grp groups e =
      insert-tail name group _ grp groups e
      ∙ ap (λ o. (name, grp) ∷ insert group (get_or o [] ++ (entry ∷ [])) groups)
          (lookup-tail name group grp groups e)

  members-append_entry :
      (q : Rule fl.F → Bool) (group : String) (entry : GroupRule fl.F) (groups : List GroupOf)
      → sum_by (members q) (append_entry group entry groups)
        ≡ sum_by (members q) groups + (if q entry.rule then 1 else 0)
  unfolding insert lookup
  members-append_entry q group entry [] = ground arith
  members-append_entry q group entry ((name, grp) ∷ groups) = elim (Bool-cases (name == group)) [
    | inl e ↦
        rw (append_entry-head name group entry grp groups e)
          (ground (arith, tally-append (λ x. q (GroupRule.rule x)) grp (entry ∷ [])))
    | inr e ↦
        rw (append_entry-tail name group entry grp groups e)
          (omega (arith, members-append_entry q group entry groups))
  ]

  strangers-append_entry :
      (entry : GroupRule fl.F) (groups : List GroupOf)
      → sum_by strangers groups ≡ 0
      → sum_by strangers (append_entry (Rule.exclusivity_group entry.rule) entry groups) ≡ 0
  unfolding insert lookup
  strangers-append_entry entry [] none_yet =
      rw (==-refl (Rule.exclusivity_group entry.rule)) (omega arith)
  strangers-append_entry entry ((name, grp) ∷ groups) none_yet =
      let group = Rule.exclusivity_group entry.rule in
      elim (Bool-cases (name == group)) [
        | inl e ↦ rw (append_entry-head name group entry grp groups e) (
            ground (
              arith,
              none_yet,
              (string_key.test_iff name group).0 e,
              ==-refl group,
              tally-append (λ x. not (Rule.exclusivity_group (GroupRule.rule x) == group)) grp
                  (entry ∷ []),
            ))
        | inr e ↦
            rw (append_entry-tail name group entry grp groups e) (
              omega
                (arith, none_yet, strangers-append_entry entry groups (omega (arith, none_yet))))
      ]

  named-append_entry_ne :
      (g group : String) (entry : GroupRule fl.F) (groups : List GroupOf)
      → (group == g) ≡ false
      → sum_by (is_named g) (append_entry group entry groups) ≡ sum_by (is_named g) groups
  unfolding insert
  named-append_entry_ne g group entry [] ne = rw ne (omega arith)
  named-append_entry_ne g group entry ((name, grp) ∷ groups) ne =
      elim (Bool-cases (name == group)) [
        | inl e ↦ rw (append_entry-head name group entry grp groups e) (
            ap (λ x. (if x == g then 1 else 0) + sum_by (is_named g) groups)
              (sym ((string_key.test_iff name group).0 e)))
        | inr e ↦
            rw (append_entry-tail name group entry grp groups e)
              (ap (λ n. is_named g (name, grp) + n) (named-append_entry_ne g group entry groups ne))
      ]

  named-append_entry :
      (group : String) (entry : GroupRule fl.F) (groups : List GroupOf)
      → sum_by (is_named group) groups ≤ 1
      → sum_by (is_named group) (append_entry group entry groups) ≤ 1
  unfolding insert
  named-append_entry group entry [] once = rw (==-refl group) (omega arith)
  named-append_entry group entry ((name, grp) ∷ groups) once = elim (Bool-cases (name == group)) [
    | inl e ↦
        rw (append_entry-head name group entry grp groups e)
          (ground (arith, once, e, ==-refl group))
    | inr e ↦
        rw (append_entry-tail name group entry grp groups e)
          (ground (arith, once, e, named-append_entry group entry groups))
  ]

  -- What holds of the map of groups: a group has one entry, and its rules alone.
  abbrev pub IsGrouping : List GroupOf → Type 0
  IsGrouping groups =
      (sum_by strangers groups ≡ 0) × ((g : String) → sum_by (is_named g) groups ≤ 1)

  append_entry-IsGrouping :
      (entry : GroupRule fl.F) (groups : List GroupOf)
      → IsGrouping groups
      → IsGrouping (append_entry (Rule.exclusivity_group entry.rule) entry groups)
  append_entry-IsGrouping entry groups (own, once) = (
    strangers-append_entry entry groups own,
    λ g. elim (Bool-cases (Rule.exclusivity_group entry.rule == g)) [
      | inl e ↦
          subst
            (λ x.
              sum_by (is_named x) (append_entry (Rule.exclusivity_group entry.rule) entry groups)
              ≤ 1)
            ((string_key.test_iff (Rule.exclusivity_group entry.rule) g).0 e)
            (named-append_entry (Rule.exclusivity_group entry.rule) entry groups
              (once (Rule.exclusivity_group entry.rule)))
      | inr e ↦
          subst (λ n. n ≤ 1)
            (sym (named-append_entry_ne g (Rule.exclusivity_group entry.rule) entry groups e))
            (once g)
    ],
  )

  -- The split loses and adds no rule, and puts into the second part the rules without a group.
  pub split-cases :
      (cart_total : fl.F) (rules : Rules) (groups : List GroupOf) (stackable : Rules)
      → IsGrouping groups
      → tally (λ r. not (Rule.exclusivity_group r == "")) stackable ≡ 0
      → let parts = split fl sorter counter cart_total rules groups stackable in
        IsGrouping parts.0
        × (tally (λ r. not (Rule.exclusivity_group r == "")) parts.1 ≡ 0)
        × ((q : Rule fl.F → Bool)
            → sum_by (members q) parts.0 + tally q parts.1
              ≡ sum_by (members q) groups + tally q stackable + tally q rules)
  unfolding split
  split-cases cart_total [] groups stackable grouped free = (grouped, free, λ q. omega arith)
  split-cases cart_total (rule ∷ rules) groups stackable grouped free =
      let entry : GroupRule fl.F = record {
        rule = rule;
        discount = calculate_discount fl rule.effect cart_total;
      } in
      elim (Bool-cases (rule.exclusivity_group == "")) [
        | inl e ↦
            let more = split-cases cart_total rules groups (stackable ++ (rule ∷ [])) grouped (
              ground (
                arith,
                free,
                e,
                tally-append (λ r. not (Rule.exclusivity_group r == "")) stackable (rule ∷ []),
              )) in
            rw e
              (more.0, more.1, λ q. ground (arith, more.2 q, tally-append q stackable (rule ∷ [])))
        | inr e ↦
            let more =
              split-cases cart_total rules (append_entry rule.exclusivity_group entry groups)
                stackable (append_entry-IsGrouping entry groups grouped) free in
            rw e (
              more.0,
              more.1,
              λ q.
                  ground
                    (arith, more.2 q, members-append_entry q rule.exclusivity_group entry groups),
            )
      ]
