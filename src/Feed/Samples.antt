-- ===== src/Feed/Samples.antt =====
-- Runs of the news feed.
use faisalaffan_design_syste.Base.{
  String, ◌≡◌, refl, subst, inl, inr, true, List, [], ◌∷◌, ◌++◌, arith, if◌then◌else◌, Bool-cases,
  length, tally, ◌==◌, nat_key, string_key, lookup, insert, contains,
}
use faisalaffan_design_syste.Feed.{
  Post, MemoryStore, list_at, create_user, is_following, push, fan_out, create_post, follow,
  new_store,
}
use faisalaffan_design_syste.Feed.Fanout.{create_post-timeline}

abbrev post : Post
post = record { id = "ana_1"; user_id = "ana"; content = "hi"; created_at = 1 }

abbrev friends : MemoryStore
unfolding follow create_user
friends =
    (follow "bob" "ana"
      (follow "ana" "ana" (create_user "cy" (create_user "bob" (create_user "ana" new_store)))).0).0

abbrev readers : List String
readers = "bob" ∷ "ana" ∷ []

walks_once : (v : String) → is_following v "ana" friends ≡ true → tally (λ k. k == v) readers ≡ 1
unfolding friends follow create_user is_following insert lookup contains
walks_once v h = elim (Bool-cases (string_key.test "bob" v)) [
  | inl t ↦ subst (λ x. tally (λ k. k == x) readers ≡ 1) ((string_key.test_iff "bob" v).0 t) refl
  | inr t ↦ elim (Bool-cases (string_key.test "ana" v)) [
    | inl u ↦ subst (λ x. tally (λ k. k == x) readers ≡ 1) ((string_key.test_iff "ana" v).0 u) refl
    | inr u ↦ absurd (ground (arith, h, t, u))
  ]
]

create_post-timeline_example :
    list_at "ana" (create_post post readers friends).timeline
    ≡ (if string_key.test "ana" "ana" then post ∷ [] else [])
      ++ (if is_following "ana" "ana" friends then post ∷ [] else [])
      ++ list_at "ana" friends.timeline
create_post-timeline_example = create_post-timeline post readers friends walks_once "ana"

twice_on_own : length (list_at "ana" (create_post post readers friends).timeline) ≡ 2
unfolding create_post fan_out push list_at friends follow create_user is_following insert lookup
    contains
twice_on_own = refl
