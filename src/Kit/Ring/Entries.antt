-- ===== src/Kit/Ring/Entries.antt =====
-- pkg/consistenthash/consistenthash.go: which entries a node's `Add` leaves in the map of a ring.
use faisalaffan_design_syste.Base.{
  ℕ, zero, suc, ◌+◌, ◌<◌, String, ◌≡◌, refl, ap, ◌⊎◌, inr, true, none, some, [], ◌∷◌, ◌++◌, arith,
  nat_key, string_key, lookup, insert, lookup-insert, lookup-insert_self,
}
use faisalaffan_design_syste.Kit.Ring.{HashRing, new, add, add_points, point, is_some}

module _ (crc32 : String → ℕ) (itoa : ℕ → String) where
  add_points-lookup :
      (n i : ℕ) (node : String) (h : HashRing) (k : ℕ) (v : String)
      → lookup k (add_points crc32 itoa n i node h).hash_map ≡ some v
      → (node ≡ v) ⊎ (lookup k h.hash_map ≡ some v)
  unfolding add_points
  add_points-lookup zero i node h k v e = inr e
  add_points-lookup (suc n) i node h k v e = ground (
    arith,
    add_points-lookup n (i + 1) node _ k v e,
    lookup-insert (point crc32 itoa i node) k node h.hash_map,
  )

  add_points-is_some :
      (n i : ℕ) (node : String) (h : HashRing) (k : ℕ)
      → is_some (lookup k h.hash_map) ≡ true
      → is_some (lookup k (add_points crc32 itoa n i node h).hash_map) ≡ true
  unfolding add_points
  add_points-is_some zero i node h k e = e
  add_points-is_some (suc n) i node h k e =
      let hash = point crc32 itoa i node in
      add_points-is_some n (i + 1) node
        (record h { keys = h.keys ++ hash ∷ []; hash_map = insert hash node h.hash_map }) k
        (ground (arith, e, lookup-insert hash k node h.hash_map))

  add_points-first :
      (n : ℕ) (node : String) (h : HashRing)
      → 0 < n
      → is_some (lookup (point crc32 itoa 0 node) (add_points crc32 itoa n 0 node h).hash_map)
        ≡ true
  unfolding add_points
  add_points-first zero node h pos = absurd (omega (arith, pos))
  add_points-first (suc n) node h pos =
      let hash = point crc32 itoa 0 node in
      add_points-is_some n (0 + 1) node
        (record h { keys = h.keys ++ hash ∷ []; hash_map = insert hash node h.hash_map }) hash
        (ap is_some (lookup-insert_self hash node h.hash_map))

  -- Every entry after `Add` is the node's or was there before, and no entry is lost.
  pub add-lookup :
      (node : String) (h : HashRing) (k : ℕ) (v : String)
      → lookup k (add crc32 itoa node h).hash_map ≡ some v
      → (node ≡ v) ⊎ (lookup k h.hash_map ≡ some v)
  unfolding add
  add-lookup node h k v e = add_points-lookup h.replicas 0 node h k v e

  pub add-is_some :
      (node : String) (h : HashRing) (k : ℕ)
      → is_some (lookup k h.hash_map) ≡ true
      → is_some (lookup k (add crc32 itoa node h).hash_map) ≡ true
  unfolding add
  add-is_some node h k e = add_points-is_some h.replicas 0 node h k e

  -- With at least one replica the first point of the node is there.
  pub add-first_point :
      (node : String) (h : HashRing)
      → 0 < h.replicas
      → is_some (lookup (point crc32 itoa 0 node) (add crc32 itoa node h).hash_map) ≡ true
  unfolding add
  add-first_point node h pos = add_points-first h.replicas node h pos

  pub replicas-new : (new 150).replicas ≡ 150
  unfolding new
  replicas-new = refl

  pub lookup-new : (n k : ℕ) → lookup k (new n).hash_map ≡ none
  unfolding new lookup
  lookup-new n k = refl
