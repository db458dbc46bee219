-- ===== src/KeyValue.antt =====
-- services/key-value-store: storage/memory.go, one shard, and shard/shard.go, which finds the shard of
-- a key on the ring of pkg/consistenthash. none in place of a manager or an answer is the panic of an
-- empty ring or of a node without a shard.
pub mod Ready
pub mod Refine
mod Samples
use faisalaffan_design_syste.Base.{
  ℕ, String, Option, none, some, List, [], ◌∷◌, nat_key, string_key, lookup, insert, remove,
}
use faisalaffan_design_syste.Kit.Ring.{HashRing, new, add, get}

-- `storage.MemoryStore`
abbrev pub Store : Type 0
Store = List (String × String)

-- `Get`; none is ErrNotFound.
unfoldable pub store_get : String → Store → Option String
store_get key s = lookup key s

unfoldable pub store_put : String → String → Store → Store
store_put key value s = insert key value s

unfoldable pub store_delete : String → Store → Store
store_delete key s = remove key s

pub record Manager : Type 0 where
  pub ring : HashRing
  pub shards : List (String × Store)

abbrev pub and_then {ℓ κ} : {A : Type ℓ} {B : Type κ} → Option A → (A → Option B) → Option B
and_then none f = none
and_then (some a) f = f a

-- A call of a shard's method: a value to write under the key, or none for a deletion.
unfoldable pub write : String → Option String → Store → Store
unfolding store_put store_delete
write key (some value) s = store_put key value s
write key none s = store_delete key s

module _ (crc32 : String → ℕ) (itoa : ℕ → String) where
  -- The loop of `NewManager`.
  unfoldable pub add_nodes : List String → Manager → Manager
  add_nodes [] m = m
  add_nodes (n ∷ nodes) m =
      add_nodes nodes (record { ring = add crc32 itoa n m.ring; shards = insert n [] m.shards })

  unfoldable pub new_manager : List String → Manager
  unfolding add_nodes
  new_manager nodes = add_nodes nodes (record { ring = new 150; shards = [] })

  -- `getShard`, with the node that it found.
  unfoldable pub get_shard : String → Manager → Option (String × Store)
  get_shard key m =
      and_then (get crc32 itoa key m.ring)
        (λ node. and_then (lookup node m.shards) (λ s. some (node, s)))

  -- `Manager.Get`
  unfoldable pub get_value : String → Manager → Option (Option String)
  unfolding get_shard store_get
  get_value key m = and_then (get_shard key m) (λ p. some (store_get key p.1))

  -- `Manager.Put` and `Manager.Delete`: the shard writes in place.
  unfoldable pub change : String → Option String → Manager → Option Manager
  unfolding get_shard write
  change key value m =
      and_then (get_shard key m)
        (λ p. some (record m { shards = insert p.0 (write key value p.1) m.shards }))

  unfoldable pub put : String → String → Manager → Option Manager
  unfolding change
  put key value m = change key (some value) m

  unfoldable pub delete : String → Manager → Option Manager
  unfolding change
  delete key m = change key none m
