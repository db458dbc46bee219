-- ===== src/Kit/Ring.antt =====
-- pkg/consistenthash/consistenthash.go. `crc32.ChecksumIEEE` and `strconv.Itoa` are parameters: the
-- code relies on no law of theirs.
pub mod Search
pub mod Valid
pub mod Owners
pub mod Entries
mod Samples
use faisalaffan_design_syste.Base.{
  ℕ, zero, suc, ◌+◌, String, Bool, true, false, Option, none, some, List, [], ◌∷◌, ◌++◌, leb,
  if◌then◌else◌, length, keep, ◌==◌, nat_key, string_key, lookup, insert, remove, get_or,
  str_append, sort,
}
use Search.{sort_search}

pub record HashRing : Type 0 where
  pub replicas : ℕ
  pub keys : List ℕ
  pub hash_map : List (ℕ × String)

-- `replicas <= 0` is replaced by 150.
pub new : ℕ → HashRing
new replicas = record {
  replicas = if leb replicas 0 then 150 else replicas;
  keys = [];
  hash_map = [];
}

abbrev pub is_some : Option String → Bool
is_some none = false
is_some (some v) = true

-- `h.keys[i]`, for an index in range.
abbrev pub key_at : List ℕ → ℕ → ℕ
key_at [] i = 0
key_at (k ∷ ks) zero = k
key_at (k ∷ ks) (suc i) = key_at ks i

-- The index of the key that serves a hash.
pub index_of : ℕ → List ℕ → ℕ
index_of hash keys =
    let idx = sort_search (length keys) (λ i. leb hash (key_at keys i)) in
    if idx == length keys then 0 else idx

-- `none` is the panic of an empty ring; a missing map entry reads as the empty string.
get_keys : List ℕ → List (ℕ × String) → ℕ → Option String
get_keys [] m hash = none
get_keys (k ∷ ks) m hash = some (get_or (lookup (key_at (k ∷ ks) (index_of hash (k ∷ ks))) m) "")

module _ (crc32 : String → ℕ) (itoa : ℕ → String) where
  -- The hash of the i-th replica of a node.
  pub point : ℕ → String → ℕ
  point i node = crc32 (str_append (itoa i) node)

  -- The loop of `Add`, with `n` rounds left from replica `i`.
  pub add_points : ℕ → ℕ → String → HashRing → HashRing
  add_points zero i node h = h
  add_points (suc n) i node h =
      let hash = point i node in
      add_points n (i + 1) node
        (record h { keys = h.keys ++ hash ∷ []; hash_map = insert hash node h.hash_map })

  pub add : String → HashRing → HashRing
  unfolding add_points
  add node h = let h' = add_points h.replicas 0 node h in record h' { keys = sort leb h'.keys }

  -- The first loop of `Remove`.
  pub remove_points : ℕ → ℕ → String → List (ℕ × String) → List (ℕ × String)
  remove_points zero i node m = m
  remove_points (suc n) i node m = remove_points n (i + 1) node (remove (point i node) m)

  -- `Remove`: the keys that are still in the map are kept.
  pub remove_node : String → HashRing → HashRing
  unfolding remove_points
  remove_node node h =
      let m = remove_points h.replicas 0 node h.hash_map in
      record h { keys = sort leb (keep (λ k. is_some (lookup k m)) h.keys); hash_map = m }

  pub get : String → HashRing → Option String
  unfolding get_keys
  get key h = get_keys h.keys h.hash_map (crc32 key)
