-- ===== src/KeyValue/Refine.antt =====
-- services/key-value-store/shard/shard.go: the shards together are one map.
use faisalaffan_design_syste.Base.{
  ℕ, String, ◌≡◌, refl, sym, ap, ◌∙◌, ◌≢◌, inl, inr, Option, none, some, List, [], ◌∷◌,
  if◌then◌else◌, Bool-cases, ◌==◌, nat_key, string_key, ==_of_ne, lookup, insert, remove,
  lookup-insert, lookup-remove,
}
use faisalaffan_design_syste.Kit.Ring.{get}
use faisalaffan_design_syste.KeyValue.{
  Store, Manager, new_manager, get_shard, and_then, get_value, change, put, delete, write,
  store_get, store_put, store_delete,
}
use faisalaffan_design_syste.KeyValue.Ready.{
  IsReady, new_manager-IsReady, new_manager-AllEmpty, some-inj,
}

-- A request, and one map that answers it: what is read, if it reads, and the map.
pub data Request : Type 0 where
  read : String → Request
  store : String → String → Request
  drop_key : String → Request

abbrev pub serve_map : List Request → Store → List (Option String)
serve_map [] s = []
serve_map (read key ∷ rs) s = lookup key s ∷ serve_map rs s
serve_map (store key value ∷ rs) s = serve_map rs (insert key value s)
serve_map (drop_key key ∷ rs) s = serve_map rs (remove key s)

module _ (crc32 : String → ℕ) (itoa : ℕ → String) where
  -- The same requests to a manager; none is a panic.
  unfoldable pub serve : List Request → Manager → Option (List (Option String))
  serve [] m = some []
  serve (read key ∷ rs) m =
      and_then (get_value crc32 itoa key m) (λ v. and_then (serve rs m) (λ vs. some (v ∷ vs)))
  serve (store key value ∷ rs) m = and_then (put crc32 itoa key value m) (serve rs)
  serve (drop_key key ∷ rs) m = and_then (delete crc32 itoa key m) (serve rs)

  -- A manager holds what a map holds.
  abbrev pub Refines : Manager → Store → Type 0
  Refines m s =
      IsReady crc32 itoa m × ((key : String) → get_value crc32 itoa key m ≡ some (lookup key s))

  -- A manager's value for a key is its shard's.
  value_at :
      (key node : String) (t : Store) (m : Manager)
      → get crc32 itoa key m.ring ≡ some node
      → lookup node m.shards ≡ some t
      → get_value crc32 itoa key m ≡ some (lookup key t)
  unfolding get_value get_shard store_get
  value_at key node t m at shard = rw at (rw shard refl)

  lookup-write :
      (key j : String) (value : Option String) (t : Store)
      → lookup j (write key value t) ≡ (if key == j then value else lookup j t)
  unfolding write store_put store_delete
  lookup-write key j (some value) t = lookup-insert key j value t
  lookup-write key j none t = lookup-remove key j t

  -- What a key reads after its own or another shard is replaced by a write to it.
  value-write :
      (key j node nj : String) (value : Option String) (t tj s : Store) (m : Manager)
      → get crc32 itoa key m.ring ≡ some node
      → lookup node m.shards ≡ some t
      → get crc32 itoa j m.ring ≡ some nj
      → lookup nj m.shards ≡ some tj
      → get_value crc32 itoa j m ≡ some (lookup j s)
      → (u : Store) × (lookup nj (insert node (write key value t) m.shards) ≡ some u)
        × (lookup j u ≡ lookup j (write key value s))
  value-write key j node nj value t tj s m at shard at_j shard_j h =
      let read_j : lookup j tj ≡ lookup j s =
        some-inj (sym (value_at j nj tj m at_j shard_j) ∙ h) in
      elim (Bool-cases (node == nj)) [
        | inl e ↦
            let same : t ≡ tj = some-inj (
              sym shard
              ∙ ap (λ x. lookup x m.shards) ((string_key.test_iff node nj).0 e)
              ∙ shard_j) in
            (
              write key value t,
              lookup-insert node nj (write key value t) m.shards ∙ rw e refl,
              lookup-write key j value t
                  ∙ rw (ap (lookup j) same ∙ read_j) (sym (lookup-write key j value s)),
            )
        | inr e ↦
            let apart : key ≢ j = λ k. cc (
              e,
              (string_key.test_iff node nj).1
                  (some-inj (sym at ∙ ap (λ x. get crc32 itoa x m.ring) k ∙ at_j)),
            ) in
            (
              tj,
              lookup-insert node nj (write key value t) m.shards ∙ rw e shard_j,
              read_j ∙ sym (lookup-write key j value s ∙ rw (==_of_ne key j apart) refl),
            )
      ]

  -- A write never panics, and changes the map at its key alone.
  change-Refines :
      (key : String) (value : Option String) (m : Manager) (s : Store)
      → Refines m s
      → (m' : Manager) × (change crc32 itoa key value m ≡ some m') × Refines m' (write key value s)
  unfolding change get_shard
  change-Refines key value m s h =
      let found = h.0 key in
      let m' = record m { shards = insert found.0 (write key value found.1) m.shards } in
      let at = λ (j : String).
        let fj = h.0 j in
        value-write key j found.0 fj.0 value found.1 fj.1 s m found.2 found.3 fj.2 fj.3 (h.1 j) in
      (
        m',
        rw found.2 (rw found.3 refl),
        (
          λ j. ((h.0 j).0, (at j).0, (h.0 j).2, (at j).1),
          λ j. value_at j (h.0 j).0 (at j).0 m' (h.0 j).2 (at j).1 ∙ ap some (at j).2,
        ),
      )

  serve-Refines :
      (rs : List Request) (m : Manager) (s : Store)
      → Refines m s
      → serve rs m ≡ some (serve_map rs s)
  unfolding serve put delete write store_put store_delete
  serve-Refines [] m s h = refl
  serve-Refines (read key ∷ rs) m s h = rw (h.1 key) (rw (serve-Refines rs m s h) refl)
  serve-Refines (store key value ∷ rs) m s h =
      let next = change-Refines key (some value) m s h in
      rw next.1 (serve-Refines rs next.0 (insert key value s) next.2)
  serve-Refines (drop_key key ∷ rs) m s h =
      let next = change-Refines key none m s h in
      rw next.1 (serve-Refines rs next.0 (remove key s) next.2)

  new-Refines : (n : String) (nodes : List String) → Refines (new_manager crc32 itoa (n ∷ nodes)) []
  new-Refines n nodes =
      let ready = new_manager-IsReady crc32 itoa n nodes in
      let m = new_manager crc32 itoa (n ∷ nodes) in
      (
        ready,
        λ key.
            let found = ready key in
            value_at key found.0 found.1 m found.2 found.3
            ∙ ap (λ s. some (lookup key s))
                (new_manager-AllEmpty crc32 itoa (n ∷ nodes) found.0 found.1 found.3),
      )

  -- A manager over at least one node answers every sequence of reads, writes and deletions as one map
  -- does that starts empty, and never panics, whatever the hash: which shard holds a key cannot be
  -- observed.
  pub serve_refines :
      (n : String) (nodes : List String) (rs : List Request)
      → serve rs (new_manager crc32 itoa (n ∷ nodes)) ≡ some (serve_map rs [])
  serve_refines n nodes rs =
      serve-Refines rs (new_manager crc32 itoa (n ∷ nodes)) [] (new-Refines n nodes)
