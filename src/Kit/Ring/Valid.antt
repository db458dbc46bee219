-- ===== src/Kit/Ring/Valid.antt =====
-- pkg/consistenthash/consistenthash.go: what holds of a ring between two calls.
use faisalaffan_design_syste.Base.{
  ℕ, zero, suc, ◌+◌, ◌≤◌, ◌<◌, String, ◌≡◌, refl, ◌∙◌, ◌≢◌, ◌⊎◌, inl, inr, none, some, List, [],
  ◌∷◌, ◌++◌, arith, leb, Bool-cases, keep, ◌==◌, nat_key, string_key, lookup, insert, remove,
  lookup-insert, lookup-remove, IsSorted, sort-IsSorted, contains, contains-append, contains-keep,
  contains-sort, leb_total, leb_trans,
}
use faisalaffan_design_syste.Kit.Ring.{
  HashRing, new, point, add_points, add, remove_points, remove_node, is_some,
}

module _ (crc32 : String → ℕ) (itoa : ℕ → String) where
  -- A hash is one of the first `n` points of a node.
  abbrev pub IsPoint : ℕ → String → ℕ → Type 0
  IsPoint n node k = (i : ℕ) × (i < n) × (point crc32 itoa i node ≡ k)

  -- The keys and the map agree, and each entry stands at a point of its node.
  abbrev pub IsOwned : ℕ → List (ℕ × String) → Type 0
  IsOwned n m = (k : ℕ) (v : String) → lookup k m ≡ some v → IsPoint n v k

  abbrev pub HasDomain : List ℕ → List (ℕ × String) → Type 0
  HasDomain keys m = (k : ℕ) → contains k keys ≡ is_some (lookup k m)

  pub record IsValid (h : HashRing) : Type 0 where
    pub sorted : IsSorted leb h.keys
    pub domain : HasDomain h.keys h.hash_map
    pub owned : IsOwned h.replicas h.hash_map

  pub new-IsValid : (n : ℕ) → IsValid (new n)
  unfolding new contains lookup
  new-IsValid n = record { sorted = tt; domain = λ k. refl; owned = λ k v e. cc }

  add_one-HasDomain :
      (keys : List ℕ) (m : List (ℕ × String)) (hash : ℕ) (node : String)
      → HasDomain keys m
      → HasDomain (keys ++ hash ∷ []) (insert hash node m)
  unfolding contains
  add_one-HasDomain keys m hash node d k =
      ground (arith, d k, contains-append k keys (hash ∷ []), lookup-insert hash k node m)

  add_one-IsOwned :
      (n i : ℕ) (node : String) (m : List (ℕ × String))
      → i < n
      → IsOwned n m
      → IsOwned n (insert (point crc32 itoa i node) node m)
  add_one-IsOwned n i node m lt o k v e =
      let at_key = lookup-insert (point crc32 itoa i node) k node m in
      elim (Bool-cases (point crc32 itoa i node == k)) [
        | inl same ↦ (i, lt, subst_node (ground arith) (ground (arith, at_key)))
        | inr other ↦ o k v (ground (arith, at_key))
      ]
    where
      subst_node : point crc32 itoa i node ≡ k → node ≡ v → point crc32 itoa i v ≡ k
      subst_node p q = rw (← q) p

  -- The loop of `Add` keeps the keys and the map in step, while its index is below the replicas.
  pub add_points_lem :
      (n i : ℕ) (node : String) (h : HashRing)
      → i + n ≤ h.replicas
      → HasDomain h.keys h.hash_map
      → IsOwned h.replicas h.hash_map
      → let h' = add_points crc32 itoa n i node h in
        (h'.replicas ≡ h.replicas) × HasDomain h'.keys h'.hash_map × IsOwned h.replicas h'.hash_map
  unfolding add_points
  add_points_lem zero i node h le d o = (refl, d, o)
  add_points_lem (suc n) i node h le d o =
      add_points_lem n (i + 1) node _ (omega arith)
        (add_one-HasDomain h.keys h.hash_map (point crc32 itoa i node) node d)
        (add_one-IsOwned h.replicas i node h.hash_map (omega arith) o)

  -- `Add` keeps a ring valid: its keys sorted, the same as those of the map, and each one a point of
  -- its node.
  pub add-IsValid : (node : String) (h : HashRing) → IsValid h → IsValid (add crc32 itoa node h)
  unfolding add
  add-IsValid node h v =
      let (same, d, o) = add_points_lem h.replicas 0 node h (omega arith) v.domain v.owned in
      record {
        sorted = sort-IsSorted leb leb_total leb_trans _;
        domain = λ k. contains-sort leb k _ ∙ d k;
        owned = rw same o;
      }

  -- What the first loop of `Remove` leaves of the map: entries away from the node's points.
  pub lookup-remove_points :
      (n i : ℕ) (node : String) (m : List (ℕ × String)) (k : ℕ)
      → (lookup k (remove_points crc32 itoa n i node m) ≡ lookup k m)
        ⊎ (lookup k (remove_points crc32 itoa n i node m) ≡ none)
  unfolding remove_points
  lookup-remove_points zero i node m k = inl refl
  lookup-remove_points (suc n) i node m k = ground (
    arith,
    lookup-remove_points n (i + 1) node (remove (point crc32 itoa i node) m) k,
    lookup-remove (point crc32 itoa i node) k m,
  )

  pub lookup-remove_points_gone :
      (n i : ℕ) (node : String) (m : List (ℕ × String)) (j k : ℕ)
      → i ≤ j
      → j < i + n
      → point crc32 itoa j node ≡ k
      → lookup k (remove_points crc32 itoa n i node m) ≡ none
  unfolding remove_points
  lookup-remove_points_gone zero i node m j k le lt e = absurd (omega arith)
  lookup-remove_points_gone (suc n) i node m j k le lt e = ground (
    arith,
    lookup-remove_points n (i + 1) node (remove (point crc32 itoa i node) m) k,
    lookup-remove (point crc32 itoa i node) k m,
    lookup-remove_points_gone n (i + 1) node (remove (point crc32 itoa i node) m) j k,
  )

  pub lookup-remove_points_kept :
      (n i : ℕ) (node : String) (m : List (ℕ × String)) (k : ℕ)
      → ((j : ℕ) → i ≤ j → j < i + n → point crc32 itoa j node ≢ k)
      → lookup k (remove_points crc32 itoa n i node m) ≡ lookup k m
  unfolding remove_points
  lookup-remove_points_kept zero i node m k away = refl
  lookup-remove_points_kept (suc n) i node m k away =
      lookup-remove_points_kept n (i + 1) node (remove (point crc32 itoa i node) m) k
        (λ j le lt. away j (omega arith) (omega arith))
      ∙ ground
          (arith, lookup-remove (point crc32 itoa i node) k m, away i (omega arith) (omega arith))

  -- `Remove` keeps a ring valid: its keys sorted, the same as those of the map, and each one a point of
  -- its node.
  pub remove_node-IsValid :
      (node : String) (h : HashRing) → IsValid h → IsValid (remove_node crc32 itoa node h)
  unfolding remove_node
  remove_node-IsValid node h v =
      let m = remove_points crc32 itoa h.replicas 0 node h.hash_map in
      record {
        sorted = sort-IsSorted leb leb_total leb_trans _;
        domain = λ k. ground (
          arith,
          contains-sort leb k (keep (λ x. is_some (lookup x m)) h.keys),
          contains-keep k (λ x. is_some (lookup x m)) h.keys,
          lookup-remove_points h.replicas 0 node h.hash_map k,
          v.domain k,
        );
        owned = λ k w e.
            v.owned k w (ground (arith, lookup-remove_points h.replicas 0 node h.hash_map k));
      }
