-- ===== src/Feed/Fanout.antt =====
-- services/news-feed/store: what a post puts on the timelines, and reading them by pages.
use faisalaffan_design_syste.Base.{
  ℕ, zero, suc, ◌+◌, ◌-◌, ◌≤◌, String, ◌≡◌, refl, sym, ap, ◌∙◌, inl, inr, true, false, List, [],
  ◌∷◌, ◌++◌, arith, ltb, leb, if◌then◌else◌, leb→le, Bool-cases, length, take, drop, length-drop,
  tally, ◌==◌, nat_key, string_key, lookup-insert, get_or,
}
use faisalaffan_design_syste.Feed.{
  Post, MemoryStore, list_at, is_following, push, fan_out, create_post, get_timeline,
}

-- The post, `n` times.
abbrev pub copies : ℕ → Post → List Post
copies zero p = []
copies (suc n) p = p ∷ copies n p

copies-cons : (n : ℕ) (p : Post) (ps : List Post) → copies n p ++ p ∷ ps ≡ p ∷ copies n p ++ ps
copies-cons zero p ps = refl
copies-cons (suc n) p ps = ap (◌∷◌ p) (copies-cons n p ps)

push-list_at :
    (p : Post) (id v : String) (m : List (String × List Post))
    → list_at v (push p id m) ≡ (if id == v then p ∷ list_at id m else list_at v m)
unfolding push list_at
push-list_at p id v m =
    ap (λ o. get_or o []) (lookup-insert id v (p ∷ list_at id m) m)
    ∙ elim (Bool-cases (id == v)) [ inl t ↦ rw t refl | inr t ↦ rw t refl ]

fan_out-list_at :
    (p : Post) (s : MemoryStore) (order : List String) (m : List (String × List Post)) (v : String)
    → list_at v (fan_out p s order m)
      ≡ copies (if is_following v p.user_id s then tally (λ k. k == v) order else 0) p
        ++ list_at v m
unfolding fan_out
fan_out-list_at p s [] m v = elim (Bool-cases (is_following v p.user_id s)) [
  | inl t ↦ rw t refl
  | inr t ↦ rw t refl
]
fan_out-list_at p s (k ∷ order) m v =
    let m' = if is_following k p.user_id s then push p k m else m in
    fan_out-list_at p s order m' v ∙ elim (Bool-cases (k == v)) [
      | inl t ↦
          let e : k ≡ v = (string_key.test_iff k v).0 t in
          let n = tally (λ x. x == v) order in
          elim (Bool-cases (is_following v p.user_id s)) [
            | inl f ↦
                let fk : is_following k p.user_id s ≡ true =
                  ap (λ x. is_following x p.user_id s) e ∙ f in
                rw f (
                  rw t (
                    rw fk (
                      rw (push-list_at p k v m) (
                        rw t (
                          copies-cons n p (list_at k m)
                          ∙ ap (λ x. p ∷ copies n p ++ list_at x m) e)))))
            | inr f ↦
                let fk : is_following k p.user_id s ≡ false =
                  ap (λ x. is_following x p.user_id s) e ∙ f in
                rw f (rw fk refl)
          ]
      | inr t ↦ elim (Bool-cases (is_following k p.user_id s)) [
        | inl f ↦ rw f (rw (push-list_at p k v m) (rw t refl))
        | inr f ↦ rw f (rw t refl)
      ]
    ]

-- A post by a user goes to the front of the user's own timeline and of the timeline of each follower,
-- once each, so twice on the author's own if the author follows the author; every other timeline
-- stays as it was. It asks that the walk over the map of follows meets each follower exactly once.
pub create_post-timeline :
    (p : Post) (order : List String) (s : MemoryStore)
    → ((v : String) → is_following v p.user_id s ≡ true → tally (λ k. k == v) order ≡ 1)
    → (v : String)
    → list_at v (create_post p order s).timeline
      ≡ (if p.user_id == v then p ∷ [] else [])
        ++ (if is_following v p.user_id s then p ∷ [] else [])
        ++ list_at v s.timeline
unfolding create_post
create_post-timeline p order s once v =
    let others = fan_out p s order s.timeline in
    let fanned : list_at v others
        ≡ (if is_following v p.user_id s then p ∷ [] else []) ++ list_at v s.timeline =
      fan_out-list_at p s order s.timeline v ∙ elim (Bool-cases (is_following v p.user_id s)) [
        | inl f ↦ rw f (rw (once v f) refl)
        | inr f ↦ rw f refl
      ] in
    push-list_at p p.user_id v others ∙ elim (Bool-cases (p.user_id == v)) [
      | inl t ↦ rw t (
          ap (λ x. p ∷ list_at x others) ((string_key.test_iff p.user_id v).0 t)
          ∙ ap (◌∷◌ p) fanned)
      | inr t ↦ rw t fanned
    ]

take-nil : (n : ℕ) → take {A = Post} n [] ≡ []
take-nil zero = refl
take-nil (suc n) = refl

take-all : (n : ℕ) (xs : List Post) → length xs ≤ n → take n xs ≡ xs
take-all zero [] h = refl
take-all zero (x ∷ xs) h = absurd (omega (arith, h))
take-all (suc n) [] h = refl
take-all (suc n) (x ∷ xs) h = ap (◌∷◌ x) (take-all n xs (omega (arith, h)))

drop-all : (n : ℕ) (xs : List Post) → length xs ≤ n → drop n xs ≡ []
drop-all zero [] h = refl
drop-all zero (x ∷ xs) h = absurd (omega (arith, h))
drop-all (suc n) [] h = refl
drop-all (suc n) (x ∷ xs) h = drop-all n xs (omega (arith, h))

drop-nil : (n : ℕ) → drop {A = Post} n [] ≡ []
drop-nil zero = refl
drop-nil (suc n) = refl

drop-drop : (a b : ℕ) (xs : List Post) → drop (a + b) xs ≡ drop b (drop a xs)
drop-drop zero b xs = ap (λ n. drop n xs) (omega arith)
drop-drop (suc a) b [] = drop-nil (suc a + b) ∙ sym (drop-nil b)
drop-drop (suc a) b (x ∷ xs) =
    let e : suc a + b ≡ suc (a + b) = omega arith in ap (λ n. drop n (x ∷ xs)) e ∙ drop-drop a b xs

take-append : (a b : ℕ) (xs : List Post) → take a xs ++ take b (drop a xs) ≡ take (a + b) xs
take-append zero b xs = ap (λ n. take n xs) (omega arith)
take-append (suc a) b [] = take-nil b ∙ sym (take-nil (suc a + b))
take-append (suc a) b (x ∷ xs) =
    let e : suc (a + b) ≡ suc a + b = omega arith in
    ap (◌∷◌ x) (take-append a b xs) ∙ ap (λ n. take n (x ∷ xs)) e

-- The page from an offset of a given length, whatever the guards on the end of the list.
page :
    (user : String) (offset limit : ℕ) (s : MemoryStore)
    → get_timeline user offset limit s ≡ take limit (drop offset (list_at user s.timeline))
unfolding get_timeline
page user offset limit s =
    let tl = list_at user s.timeline in
    elim (Bool-cases (leb (length tl) offset)) [
      | inl t ↦ rw t (
          sym (ap (take limit) (drop-all offset tl (leb→le (length tl) offset t)) ∙ take-nil limit))
      | inr t ↦ rw t (elim (Bool-cases (ltb (length tl) (offset + limit))) [
        | inl u ↦ rw u (
            take-all (length tl - offset) (drop offset tl) (omega (arith, length-drop offset tl))
            ∙ sym (take-all limit (drop offset tl) (ground (arith, u, length-drop offset tl))))
        | inr u ↦ rw u (ap (λ n. take n (drop offset tl)) (omega arith))
      ])
    ]

-- Reading a timeline by pages reads it without a gap and without an overlap: a page and the page that
-- starts at its end are the page of both lengths.
pub get_timeline-pages :
    (user : String) (offset a b : ℕ) (s : MemoryStore)
    → get_timeline user offset a s ++ get_timeline user (offset + a) b s
      ≡ get_timeline user offset (a + b) s
get_timeline-pages user offset a b s =
    let tl = list_at user s.timeline in
    rw (page user offset a s) (
      rw (page user (offset + a) b s) (
        rw (page user offset (a + b) s)
          (rw (drop-drop offset a tl) (take-append a b (drop offset tl)))))
