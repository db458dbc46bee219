-- ===== src/Kit/Ring/Owners.antt =====
-- pkg/consistenthash/consistenthash.go: which node `Get` returns, and what `Remove` changes.
use faisalaffan_design_syste.Base.{
  ℕ, zero, suc, ◌≤◌, ◌<◌, String, ◌≡◌, refl, sym, ap, ◌∙◌, subst, ◌≢◌, inl, inr, Bool, true, Option,
  none, some, List, [], ◌∷◌, arith, leb, leb→le, Bool-cases, List-cases, length, All, ◌==◌, nat_key,
  string_key, lookup, IsSorted, contains,
}
use faisalaffan_design_syste.Kit.Ring.Search.{IsMonotone, IsFirst, sort_search, sort_search-IsFirst}
use faisalaffan_design_syste.Kit.Ring.Valid.{
  IsValid, IsPoint, remove_node-IsValid, lookup-remove_points, lookup-remove_points_gone,
  lookup-remove_points_kept,
}
use faisalaffan_design_syste.Kit.Ring.{
  get_keys, remove_node, remove_points, HashRing, point, is_some, key_at, index_of, get,
}

All-key_at : (P : ℕ → Type 0) (ks : List ℕ) (i : ℕ) → All P ks → i < length ks → P (key_at ks i)
All-key_at P [] i h lt = absurd (omega arith)
All-key_at P (k ∷ ks) zero h lt = h.0
All-key_at P (k ∷ ks) (suc i) h lt = All-key_at P ks i h.1 (omega arith)

key_at_mono :
    (ks : List ℕ) (i j : ℕ) → IsSorted leb ks → i ≤ j → j < length ks → key_at ks i ≤ key_at ks j
key_at_mono [] i j s le lt = absurd (omega arith)
key_at_mono (k ∷ ks) zero zero s le lt = omega arith
key_at_mono (k ∷ ks) zero (suc j) s le lt =
    leb→le k (key_at ks j) (All-key_at (λ x. leb k x ≡ true) ks j s.0 (omega arith))
key_at_mono (k ∷ ks) (suc i) zero s le lt = absurd (omega arith)
key_at_mono (k ∷ ks) (suc i) (suc j) s le lt = key_at_mono ks i j s.1 (omega arith) (omega arith)

contains-key_at : (ks : List ℕ) (i : ℕ) → i < length ks → contains (key_at ks i) ks ≡ true
unfolding contains
contains-key_at [] i lt = absurd (omega arith)
contains-key_at (k ∷ ks) zero lt = ground arith
contains-key_at (k ∷ ks) (suc i) lt = ground (arith, contains-key_at ks i)

index_of_contains :
    (ks : List ℕ) (k : ℕ) → contains k ks ≡ true → (i : ℕ) × (i < length ks) × (key_at ks i ≡ k)
unfolding contains
index_of_contains [] k h = cc
index_of_contains (x ∷ ks) k h = elim (Bool-cases (x == k)) [
  | inl e ↦ (0, omega arith, ground arith)
  | inr e ↦ let (i, lt, at) = index_of_contains ks k (ground arith) in (suc i, omega arith, at)
]

-- The key that serves a hash: the first one at or above it, and the least one if none is.
pub record Serves (hash : ℕ) (keys : List ℕ) (k : ℕ) : Type 0 where
  pub present : contains k keys ≡ true
  pub first_above : (j : ℕ) → contains j keys ≡ true → hash ≤ j → (hash ≤ k) × (k ≤ j)
  pub least_if_below : (j : ℕ) → contains j keys ≡ true → k < hash → k ≤ j

above-IsMonotone :
    (hash : ℕ) (ks : List ℕ)
    → IsSorted leb ks
    → IsMonotone (length ks) (λ i. leb hash (key_at ks i))
above-IsMonotone hash ks s a b le lt h = ground (arith, key_at_mono ks a b)

first-Serves :
    (hash : ℕ) (ks : List ℕ) (r : ℕ)
    → IsSorted leb ks
    → IsFirst (length ks) (λ i. leb hash (key_at ks i)) r
    → r < length ks
    → Serves hash ks (key_at ks r)
first-Serves hash ks r s (rn, before, at) lt = record {
  present = contains-key_at ks r lt;
  first_above = λ j has le.
      let (i, il, e) = index_of_contains ks j has in
      ground (arith, before i, at lt, key_at_mono ks r i s);
  least_if_below = λ j has low. absurd (ground (arith, at lt));
}

none-Serves :
    (hash k0 : ℕ) (ks : List ℕ)
    → IsSorted leb (k0 ∷ ks)
    → IsFirst (length (k0 ∷ ks)) (λ i. leb hash (key_at (k0 ∷ ks) i)) (length (k0 ∷ ks))
    → Serves hash (k0 ∷ ks) k0
none-Serves hash k0 ks s (rn, before, at) = record {
  present = contains-key_at (k0 ∷ ks) 0 (omega arith);
  first_above = λ j has le.
      let (i, il, e) = index_of_contains (k0 ∷ ks) j has in absurd (ground (arith, before i));
  least_if_below = λ j has low.
      let (i, il, e) = index_of_contains (k0 ∷ ks) j has in
      ground (arith, key_at_mono (k0 ∷ ks) 0 i s);
}

index_of-Serves :
    (hash k0 : ℕ) (ks : List ℕ)
    → IsSorted leb (k0 ∷ ks)
    → Serves hash (k0 ∷ ks) (key_at (k0 ∷ ks) (index_of hash (k0 ∷ ks)))
unfolding index_of
index_of-Serves hash k0 ks s =
    let n : ℕ = length (k0 ∷ ks) in
    let f : ℕ → Bool = λ i. leb hash (key_at (k0 ∷ ks) i) in
    let first = sort_search-IsFirst n f (above-IsMonotone hash (k0 ∷ ks) s) in
    elim (Bool-cases (sort_search n f == n)) [
      | inl over ↦ rw over (
          none-Serves hash k0 ks s
            (subst (IsFirst n f) (let e : sort_search n f ≡ n = ground arith in e) first))
      | inr hit ↦ rw hit (first-Serves hash (k0 ∷ ks) (sort_search n f) s first (ground arith))
    ]

Serves-unique : (hash a b : ℕ) (ks : List ℕ) → Serves hash ks a → Serves hash ks b → a ≡ b
Serves-unique hash a b ks sa sb = ground (
  arith,
  sa.present,
  sb.present,
  sa.first_above b,
  sb.first_above a,
  sa.least_if_below b,
  sb.least_if_below a,
)

some_of_is_some : (o : Option String) → is_some o ≡ true → (a : String) × (o ≡ some a)
some_of_is_some none h = cc
some_of_is_some (some a) h = (a, refl)

get_keys-Serves :
    (hash k0 : ℕ) (ks : List ℕ) (m : List (ℕ × String))
    → IsSorted leb (k0 ∷ ks)
    → ((j : ℕ) → contains j (k0 ∷ ks) ≡ is_some (lookup j m))
    → (k : ℕ) × (node : String) × Serves hash (k0 ∷ ks) k
      × (lookup k m ≡ some node)
      × (get_keys (k0 ∷ ks) m hash ≡ some node)
unfolding get_keys
get_keys-Serves hash k0 ks m s d =
    let k = key_at (k0 ∷ ks) (index_of hash (k0 ∷ ks)) in
    let serves = index_of-Serves hash k0 ks s in
    let (node, here) = some_of_is_some (lookup k m) (sym (d k) ∙ serves.present) in
    (k, node, serves, here, rw here)

none_present : (k : ℕ) → contains k [] ≡ true → ⊥
unfolding contains
none_present k h = cc

module _ (crc32 : String → ℕ) (itoa : ℕ → String) where
  -- On a valid ring with a key, `Get` returns the node that owns the key serving the hash of its
  -- argument, and that key is a point of the node.
  pub get-Serves :
      (key : String) (h : HashRing) (k0 : ℕ) (ks : List ℕ)
      → IsValid crc32 itoa h
      → h.keys ≡ k0 ∷ ks
      → (k : ℕ) × (node : String) × Serves (crc32 key) h.keys k
        × (lookup k h.hash_map ≡ some node)
        × (get crc32 itoa key h ≡ some node)
        × IsPoint crc32 itoa h.replicas node k
  unfolding get
  get-Serves key h k0 ks v e =
      let (k, node, serves, here, got) =
        get_keys-Serves (crc32 key) k0 ks h.hash_map (subst (IsSorted leb) e v.sorted)
          (λ j. ap (contains j) (sym e) ∙ v.domain j) in
      (
        k,
        node,
        rw e serves,
        here,
        ap (λ ks. get_keys ks h.hash_map (crc32 key)) e ∙ got,
        v.owned k node here,
      )

  get_empty : (key : String) (h : HashRing) → h.keys ≡ [] → get crc32 itoa key h ≡ none
  unfolding get
  get_empty key h e = ap (λ ks. get_keys ks h.hash_map (crc32 key)) e

  -- A ring that answers owns a key that serves the hash.
  get_inv :
      (key other : String) (h : HashRing)
      → IsValid crc32 itoa h
      → get crc32 itoa key h ≡ some other
      → (k : ℕ) × Serves (crc32 key) h.keys k
        × (lookup k h.hash_map ≡ some other)
        × IsPoint crc32 itoa h.replicas other k
  get_inv key other h v got = elim (List-cases h.keys) [
    | inl e ↦ absurd (cc (get_empty key h e))
    | inr (k0, ks, e) ↦
        let (k, node, serves, here, found, at) = get-Serves key h k0 ks v e in
        let same : node ≡ other = cc in (k, serves, rw (← same) here, rw (← same) at)
  ]

  replicas-remove_node :
      (node : String) (h : HashRing) → (remove_node crc32 itoa node h).replicas ≡ h.replicas
  unfolding remove_node
  replicas-remove_node node h = refl

  map-remove_node :
      (node : String) (h : HashRing)
      → (remove_node crc32 itoa node h).hash_map
        ≡ remove_points crc32 itoa h.replicas 0 node h.hash_map
  unfolding remove_node
  map-remove_node node h = refl

  -- A removed node serves no key any more.
  pub remove_node-get_ne :
      (key node other : String) (h : HashRing)
      → IsValid crc32 itoa h
      → get crc32 itoa key (remove_node crc32 itoa node h) ≡ some other
      → other ≢ node
  remove_node-get_ne key node other h v got same =
      let (k, serves, here, (i, lt, at)) =
        get_inv key other (remove_node crc32 itoa node h) (remove_node-IsValid crc32 itoa node h v)
          got in
      let gone =
        lookup-remove_points_gone crc32 itoa h.replicas 0 node h.hash_map i k (omega arith)
          (omega (arith, replicas-remove_node node h)) (ap (point crc32 itoa i) (sym same) ∙ at) in
      cc (gone, ap (lookup k) (map-remove_node node h))

  Serves-remove_node :
      (hash k : ℕ) (node : String) (h : HashRing)
      → IsValid crc32 itoa h
      → lookup k (remove_node crc32 itoa node h).hash_map ≡ lookup k h.hash_map
      → Serves hash h.keys k
      → Serves hash (remove_node crc32 itoa node h).keys k
  Serves-remove_node hash k node h v kept s = record {
    present = v'.domain k ∙ ap is_some kept ∙ sym (v.domain k) ∙ s.present;
    first_above = λ j has. s.first_above j (still j has);
    least_if_below = λ j has. s.least_if_below j (still j has);
  }
    where
      v' : IsValid crc32 itoa (remove_node crc32 itoa node h)
      v' = remove_node-IsValid crc32 itoa node h v

      still :
          (j : ℕ)
          → contains j (remove_node crc32 itoa node h).keys ≡ true
          → contains j h.keys ≡ true
      still j has = ground (
        arith,
        v'.domain j,
        v.domain j,
        ap (lookup j) (map-remove_node node h),
        lookup-remove_points crc32 itoa h.replicas 0 node h.hash_map j,
      )

  -- If none of the node's points is owned by another node, a key served by another node stays with
  -- it when the node is removed.
  pub remove_node-get_kept :
      (key node other : String) (h : HashRing)
      → IsValid crc32 itoa h
      → ((i : ℕ) → i < h.replicas → lookup (point crc32 itoa i node) h.hash_map ≡ some node)
      → other ≢ node
      → get crc32 itoa key h ≡ some other
      → get crc32 itoa key (remove_node crc32 itoa node h) ≡ some other
  remove_node-get_kept key node other h v own ne got =
      let (k, serves, here, at) = get_inv key other h v got in
      let kept : lookup k (remove_node crc32 itoa node h).hash_map ≡ lookup k h.hash_map =
        ap (lookup k) (map-remove_node node h)
        ∙ lookup-remove_points_kept crc32 itoa h.replicas 0 node h.hash_map k
            (λ j le lt e. ne (cc (own j (omega arith), ap (λ x. lookup x h.hash_map) e))) in
      let serves' = Serves-remove_node (crc32 key) k node h v kept serves in
      let v' = remove_node-IsValid crc32 itoa node h v in
      elim (List-cases (remove_node crc32 itoa node h).keys) [
        | inl e ↦ absurd (none_present k (ap (contains k) (sym e) ∙ serves'.present))
        | inr (k0, ks, e) ↦
            let (k', node', s', here', found, at') =
              get-Serves key (remove_node crc32 itoa node h) k0 ks v' e in
            let same = Serves-unique (crc32 key) k k' _ serves' s' in
            cc (ap (λ x. lookup x (remove_node crc32 itoa node h).hash_map) same, kept)
      ]
