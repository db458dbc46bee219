-- ===== src/KeyValue/Ready.antt =====
-- services/key-value-store/shard/shard.go: every key of a manager that has a node finds its shard.
use faisalaffan_design_syste.Base.{
  ℕ, String, ◌≡◌, refl, sym, ap, ◌∙◌, inl, inr, true, some, List, [], ◌∷◌, arith, Bool-cases,
  List-cases, none-ne-some, ◌==◌, nat_key, string_key, lookup, insert, lookup-insert, get_or,
  contains,
}
use faisalaffan_design_syste.Kit.Ring.{new, add, point, get, is_some}
use faisalaffan_design_syste.Kit.Ring.Entries.{
  add-lookup, add-is_some, add-first_point, replicas-new, lookup-new,
}
use faisalaffan_design_syste.Kit.Ring.Valid.{IsValid, new-IsValid, add-IsValid}
use faisalaffan_design_syste.Kit.Ring.Owners.{get-Serves}
use faisalaffan_design_syste.KeyValue.{Store, Manager, add_nodes, new_manager}

none_present : (k : ℕ) → contains k [] ≡ true → ⊥
unfolding contains
none_present k h = cc

pub some-inj : {A : Type 0} {a b : A} → some a ≡ some b → a ≡ b
some-inj {a = a} e = ap (λ o. get_or o a) e

module _ (crc32 : String → ℕ) (itoa : ℕ → String) where
  -- What holds while `NewManager` adds its nodes.
  pub record IsBuilt (m : Manager) : Type 0 where
    pub valid : IsValid crc32 itoa m.ring
    pub sharded :
        (k : ℕ) (v : String)
        → lookup k m.ring.hash_map ≡ some v
        → (s : Store) × (lookup v m.shards ≡ some s)

  add_node-IsBuilt :
      (n : String) (m : Manager)
      → IsBuilt m
      → IsBuilt (record { ring = add crc32 itoa n m.ring; shards = insert n [] m.shards })
  add_node-IsBuilt n m b = record {
    valid = add-IsValid crc32 itoa n m.ring b.valid;
    sharded = λ k v e. elim (Bool-cases (n == v)) [
      | inl t ↦ ([], lookup-insert n v [] m.shards ∙ rw t refl)
      | inr t ↦ elim (add-lookup crc32 itoa n m.ring k v e) [
        | inl same ↦ absurd (cc ((string_key.test_iff n v).1 same, t))
        | inr old ↦
            let was = b.sharded k v old in (was.0, lookup-insert n v [] m.shards ∙ rw t was.1)
      ]
    ];
  }

  add_nodes-IsBuilt :
      (nodes : List String) (m : Manager) → IsBuilt m → IsBuilt (add_nodes crc32 itoa nodes m)
  unfolding add_nodes
  add_nodes-IsBuilt [] m b = b
  add_nodes-IsBuilt (n ∷ nodes) m b = add_nodes-IsBuilt nodes _ (add_node-IsBuilt n m b)

  -- The ring has a point.
  abbrev IsInhabited : Manager → Type 0
  IsInhabited m = (k : ℕ) × (is_some (lookup k m.ring.hash_map) ≡ true)

  add_nodes-IsInhabited :
      (nodes : List String) (m : Manager)
      → IsInhabited m
      → IsInhabited (add_nodes crc32 itoa nodes m)
  unfolding add_nodes
  add_nodes-IsInhabited [] m h = h
  add_nodes-IsInhabited (n ∷ nodes) m (k, h) =
      add_nodes-IsInhabited nodes _ (k, add-is_some crc32 itoa n m.ring k h)

  -- Every key finds a node with a shard.
  abbrev pub IsReady : Manager → Type 0
  IsReady m =
      (key : String)
      → (node : String) × (s : Store) × (get crc32 itoa key m.ring ≡ some node)
        × (lookup node m.shards ≡ some s)

  built-IsReady : (m : Manager) → IsBuilt m → IsInhabited m → IsReady m
  built-IsReady m b (k, h) key = elim (List-cases m.ring.keys) [
    | inl e ↦ absurd (none_present k (ap (contains k) (sym e) ∙ b.valid.domain k ∙ h))
    | inr (k0, ks, e) ↦
        let found = get-Serves crc32 itoa key m.ring k0 ks b.valid e in
        let shard = b.sharded found.0 found.1 found.3 in (found.1, shard.0, found.4, shard.1)
  ]

  pub new_manager-IsReady :
      (n : String) (nodes : List String) → IsReady (new_manager crc32 itoa (n ∷ nodes))
  unfolding new_manager add_nodes
  new_manager-IsReady n nodes =
      let empty : Manager = record { ring = new 150; shards = [] } in
      let first : Manager = record { ring = add crc32 itoa n (new 150); shards = insert n [] [] } in
      let start : IsBuilt empty = record {
        valid = new-IsValid crc32 itoa 150;
        sharded = λ k v e. absurd (none-ne-some (sym (lookup-new crc32 itoa 150 k) ∙ e));
      } in
      built-IsReady (add_nodes crc32 itoa nodes first)
        (add_nodes-IsBuilt nodes first (add_node-IsBuilt n empty start))
        (add_nodes-IsInhabited nodes first (
          point crc32 itoa 0 n,
          add-first_point crc32 itoa n (new 150) (omega (arith, replicas-new crc32 itoa)),
        ))

  -- Each shard of a new manager is empty.
  abbrev pub AllEmpty : Manager → Type 0
  AllEmpty m = (v : String) (s : Store) → lookup v m.shards ≡ some s → s ≡ []

  add_nodes-AllEmpty :
      (nodes : List String) (m : Manager) → AllEmpty m → AllEmpty (add_nodes crc32 itoa nodes m)
  unfolding add_nodes
  add_nodes-AllEmpty [] m h = h
  add_nodes-AllEmpty (n ∷ nodes) m h =
      add_nodes-AllEmpty nodes
        (record { ring = add crc32 itoa n m.ring; shards = insert n [] m.shards })
        (λ v s e. elim (Bool-cases (n == v)) [
          | inl t ↦ some-inj (sym e ∙ lookup-insert n v [] m.shards ∙ rw t refl)
          | inr t ↦ h v s (sym (lookup-insert n v [] m.shards ∙ rw t refl) ∙ e)
        ])

  pub new_manager-AllEmpty : (nodes : List String) → AllEmpty (new_manager crc32 itoa nodes)
  unfolding new_manager lookup
  new_manager-AllEmpty nodes = add_nodes-AllEmpty nodes _ (λ v s e. absurd (none-ne-some e))
