-- ===== src/Kit/Ring/Samples.antt =====
-- The hash ring at concrete inputs.
use faisalaffan_design_syste.Base.{
  ℕ, zero, suc, ◌*◌, ◌<◌, String, ◌≡◌, refl, subst, some, [], ◌∷◌, arith, leb, nat_key, string_key,
  lookup, insert, remove, str_append, sort,
}
use Prim.Native.String.{len}
use faisalaffan_design_syste.Kit.Ring.{HashRing, index_of, new, add, remove_node, get, point}
use faisalaffan_design_syste.Kit.Ring.Search.{IsFirst, sort_search, sort_search-IsFirst}
use faisalaffan_design_syste.Kit.Ring.Valid.{IsValid, IsPoint, new-IsValid, add-IsValid}
use faisalaffan_design_syste.Kit.Ring.Owners.{Serves, get-Serves, remove_node-get_kept}

-- A hash that tells the labels of this file apart, and short labels.
abbrev toy_hash : String → ℕ
toy_hash s = 10 * len s

abbrev toy_label : ℕ → String
toy_label zero = ""
toy_label (suc n) = str_append "xxx" (toy_label n)

-- Two nodes with two points each: "a" at 10 and 40, "bb" at 20 and 50.
abbrev ring : HashRing
ring = record {
  replicas = 2;
  keys = 10 ∷ 20 ∷ 40 ∷ 50 ∷ [];
  hash_map = (10, "a") ∷ (40, "a") ∷ (20, "bb") ∷ (50, "bb") ∷ [];
}

built : add toy_hash toy_label "bb" (add toy_hash toy_label "a" (new 2)) ≡ ring
unfolding new add insert sort point
built = refl

ring-IsValid : IsValid toy_hash toy_label ring
ring-IsValid = subst (IsValid toy_hash toy_label) built (
    add-IsValid toy_hash toy_label "bb" _
      (add-IsValid toy_hash toy_label "a" _ (new-IsValid toy_hash toy_label 2)))

-- `Get` of a key that hashes to 30 goes on to 40, and of one beyond 50 round to 10.
get_runs :
    (get toy_hash toy_label "key" ring ≡ some "a")
    × (get toy_hash toy_label "longer" ring ≡ some "a")
unfolding get lookup sort_search index_of
get_runs = (refl, refl)

sort_search-IsFirst_example : IsFirst 9 (λ i. leb 5 i) (sort_search 9 (λ i. leb 5 i))
sort_search-IsFirst_example = sort_search-IsFirst 9 (λ i. leb 5 i) (λ a b le lt h. ground arith)

get-Serves_example :
    (k : ℕ) × (node : String) × Serves 30 ring.keys k
    × (lookup k ring.hash_map ≡ some node)
    × (get toy_hash toy_label "key" ring ≡ some node)
    × IsPoint toy_hash toy_label 2 node k
get-Serves_example =
    get-Serves toy_hash toy_label "key" ring 10 (20 ∷ 40 ∷ 50 ∷ []) ring-IsValid refl

without_a : get toy_hash toy_label "key" (remove_node toy_hash toy_label "a" ring) ≡ some "bb"
unfolding get remove_node lookup remove sort sort_search index_of point
without_a = refl

a_points : (i : ℕ) → i < 2 → lookup (point toy_hash toy_label i "a") ring.hash_map ≡ some "a"
unfolding lookup point
a_points zero h = refl
a_points (suc zero) h = refl
a_points (suc (suc i)) h = absurd (omega arith)

remove_node-get_kept_example :
    get toy_hash toy_label "kk" (remove_node toy_hash toy_label "a" ring) ≡ some "bb"
unfolding get lookup sort_search index_of
remove_node-get_kept_example =
    remove_node-get_kept toy_hash toy_label "kk" "a" "bb" ring ring-IsValid a_points
      (λ e. cc ((string_key.test_iff "bb" "a").1 e)) refl
