-- ===== src/Dispatch/Matcher/Greedy.antt =====
-- services/dispatch-service/service/matcher.go: what `Match` as a whole assigns.
use faisalaffan_design_syste.Base.{
  ℕ, zero, suc, ◌+◌, ◌≤◌, String, ◌≡◌, refl, sym, ap, ◌∙◌, subst, Option, none, some, List, [], ◌∷◌,
  ◌++◌, map, arith, length, length-append, get_elem?, remove_at, remove_at-perm, remove_at-sublist,
  length-remove_at, remove_at-map, All, nat_key, string_key,
}
use mathlib.Core.List.{append_assoc, map-append, Perm, Sublist}
use mathlib.Core.List.Perm
use mathlib.Core.List.Sublist
use faisalaffan_design_syste.Base.Floats.{Floats}
use faisalaffan_design_syste.Dispatch.Model.{Order, Driver, MatchScore}
use faisalaffan_design_syste.Dispatch.Matcher.{
  Matching, skip, assignment_of, best_pair, assign, match_from, matching, continue_with,
  scan_orders,
}
use faisalaffan_design_syste.Dispatch.Matcher.Scan.{IsFound, IsLeast, best_pair_lem}

module _ {F : Type 0} where
  abbrev pub skip_by : ℕ → Driver F → Driver F
  skip_by n d = record d { skipped_count = d.skipped_count + n }

  skip-skip_by :
      (n : ℕ) (xs : List (Driver F)) → map skip (map (skip_by n) xs) ≡ map (skip_by (n + 1)) xs
  skip-skip_by n [] = refl
  skip-skip_by n (d ∷ ds) =
      let e : d.skipped_count + n + 1 ≡ d.skipped_count + (n + 1) = omega arith in
      λ i. record d { skipped_count = e i } ∷ skip-skip_by n ds i

  skip_by-zero : (xs : List (Driver F)) → map (skip_by 0) xs ≡ xs
  skip_by-zero [] = refl
  skip_by-zero (d ∷ ds) =
      let e : d.skipped_count + 0 ≡ d.skipped_count = omega arith in
      λ i. record d { skipped_count = e i } ∷ skip_by-zero ds i

  ids-skip : (xs : List (Driver F)) → map (λ d. d.id) (map skip xs) ≡ map (λ d. d.id) xs
  ids-skip [] = refl
  ids-skip (d ∷ ds) = ap (◌∷◌ d.id) (ids-skip ds)

  -- Between two rounds: orders and drivers are assigned or left, each once, and each driver that is
  -- left has been skipped once for each assignment.
  pub record IsConserved (os : List (Order F)) (ds : List (Driver F)) (m : Matching F)
      : Type 0 where
    pub orders_perm :
        Perm
          (map (λ a. a.order_id) m.assignments ++ map (λ o. o.id) m.remaining)
          (map (λ o. o.id) os)
    pub drivers_perm :
        Perm (map (λ a. a.driver_id) m.assignments ++ map (λ d. d.id) m.avail) (map (λ d. d.id) ds)
    pub kept : List (Driver F)
    pub kept_sublist : Sublist kept ds
    pub skipped : m.avail ≡ map (skip_by (length m.assignments)) kept

module _ {ℓ} {A : Type ℓ} where
  move_perm :
      (xs rest removed : List A) (x : A)
      → Perm (x ∷ removed) rest
      → Perm ((xs ++ x ∷ []) ++ removed) (xs ++ rest)
  move_perm xs rest removed x p = rw (append_assoc xs (x ∷ []) removed) (Perm.append_left xs p)

module _ (fl : Floats) where
  open fl use {F, less, max_float64}

  module _ (config : MatchScore F) where
    assign-IsConserved :
        (os : List (Order F)) (ds : List (Driver F)) (uuid : ℕ → String) (now : ℕ) (s : F) (i j : ℕ)
        (m : Matching F) (o : Order F) (d : Driver F)
        → get_elem? m.remaining i ≡ some o
        → get_elem? m.avail j ≡ some d
        → IsConserved os ds m
        → IsConserved os ds (assign fl config uuid now s i j m (some o) (some d))
    unfolding assign
    assign-IsConserved os ds uuid now s i j m o d ho hd h =
        let a = assignment_of (uuid (length m.assignments)) now s o d in
        record {
          orders_perm = rw (map-append (λ a. a.order_id) m.assignments (a ∷ [])) (
              Perm.trans
                (move_perm (map (λ a. a.order_id) m.assignments) _ _ o.id
                  (Perm.map (λ o. o.id) (remove_at-perm i m.remaining o ho)))
                h.orders_perm);
          drivers_perm =
              rw
                (
                  map-append (λ a. a.driver_id) m.assignments (a ∷ []),
                  ids-skip (remove_at j m.avail),
                )
                (Perm.trans
                  (move_perm (map (λ a. a.driver_id) m.assignments) _ _ d.id
                    (Perm.map (λ d. d.id) (remove_at-perm j m.avail d hd)))
                  h.drivers_perm);
          kept = remove_at j h.kept;
          kept_sublist = Sublist.trans (remove_at-sublist j h.kept) h.kept_sublist;
          skipped =
              ap (λ xs. map skip (remove_at j xs)) h.skipped
              ∙ ap (map skip) (remove_at-map (skip_by (length m.assignments)) j h.kept)
              ∙ skip-skip_by (length m.assignments) (remove_at j h.kept)
              ∙ ap (λ n. map (skip_by n) (remove_at j h.kept))
                  (sym (length-append m.assignments (a ∷ [])));
        }

    -- A property of the next matching, from the pair that was found.
    continue-cases :
        (P : Matching F → Type 0) (m : Matching F) (round : ℕ → ℕ → Matching F) (p : Option (ℕ × ℕ))
        (s : F)
        → IsFound fl config m.remaining m.avail p s
        → (p ≡ none → P m)
        → ((i j : ℕ) (o : Order F) (d : Driver F)
            → get_elem? m.remaining i ≡ some o
            → get_elem? m.avail j ≡ some d
            → P (round i j))
        → P (continue_with m round p)
    continue-cases P m round none s found stop go = stop refl
    continue-cases P m round (some (i, j)) s (o, d, ho, hd, e) stop go = go i j o d ho hd

    match_from-IsConserved :
        (os : List (Order F)) (ds : List (Driver F)) (uuid : ℕ → String) (now fuel : ℕ)
        (m : Matching F)
        → IsConserved os ds m
        → IsConserved os ds (match_from fl config uuid now fuel m)
    unfolding match_from
    match_from-IsConserved os ds uuid now zero m h = h
    match_from-IsConserved os ds uuid now (suc fuel) m h =
        continue-cases (IsConserved os ds) m _ (best_pair fl config m.remaining m.avail).pair _
          (best_pair_lem fl config m.remaining m.avail).0 (λ e. h)
          (λ i j o d ho hd. match_from-IsConserved os ds uuid now fuel _ (
            rw (ho, hd)
              (assign-IsConserved os ds uuid now (best_pair fl config m.remaining m.avail).score i j
                m o d ho hd h)))

    -- `Match` neither loses nor doubles an order or a driver: the ids of the assignments and of what is left
    -- are those given, in some order. The drivers left are a sublist of those given, and each was skipped
    -- once for every assignment.
    pub matching-IsConserved :
        (uuid : ℕ → String) (now : ℕ) (os : List (Order F)) (ds : List (Driver F))
        → IsConserved os ds (matching fl config uuid now os ds)
    unfolding matching
    matching-IsConserved uuid now os ds =
        match_from-IsConserved os ds uuid now (length os) _ (record {
          orders_perm = Perm.rfl;
          drivers_perm = Perm.rfl;
          kept = ds;
          kept_sublist = Sublist.refl ds;
          skipped = sym (skip_by-zero ds);
        })

    length-assign :
        (uuid : ℕ → String) (now : ℕ) (s : F) (i j : ℕ) (m : Matching F) (o : Order F)
        (d : Driver F)
        → get_elem? m.remaining i ≡ some o
        → suc (length (assign fl config uuid now s i j m (some o) (some d)).remaining)
          ≡ length m.remaining
    unfolding assign
    length-assign uuid now s i j m o d ho = length-remove_at i m.remaining o ho

    none_left :
        (os : List (Order F)) (ds : List (Driver F))
        → length os ≡ 0
        → (best_pair fl config os ds).pair ≡ none
    unfolding best_pair scan_orders
    none_left [] ds h = refl
    none_left (o ∷ os) ds h = absurd (omega arith)

    match_from_ends :
        (uuid : ℕ → String) (now fuel : ℕ) (m : Matching F)
        → length m.remaining ≤ fuel
        → let m' = match_from fl config uuid now fuel m in
          (best_pair fl config m'.remaining m'.avail).pair ≡ none
    unfolding match_from
    match_from_ends uuid now zero m h = none_left m.remaining m.avail (omega arith)
    match_from_ends uuid now (suc fuel) m h =
        continue-cases (λ m'. (best_pair fl config m'.remaining m'.avail).pair ≡ none) m _
          (best_pair fl config m.remaining m.avail).pair _
          (best_pair_lem fl config m.remaining m.avail).0 (λ e. e)
          (λ i j o d ho hd. match_from_ends uuid now fuel _ (
            rw (ho, hd)
              (omega (
                arith,
                length-assign uuid now (best_pair fl config m.remaining m.avail).score i j m o d ho,
              ))))

    All-IsLeast :
        (os : List (Order F)) (ds : List (Driver F))
        → (best_pair fl config os ds).pair ≡ none
        → All (λ o. IsLeast fl config o max_float64 ds) os
    All-IsLeast os ds e =
        let (found, least) = best_pair_lem fl config os ds in
        let s : (best_pair fl config os ds).score ≡ max_float64 =
          subst (λ p. IsFound fl config os ds p (best_pair fl config os ds).score) e found in
        subst (λ x. All (λ o. IsLeast fl config o x ds) os) s least

    -- `Match` ends when no pair of an order and a driver that are left scores below the largest float:
    -- with such scores for all pairs, when the orders or the drivers have run out.
    pub matching_complete :
        (uuid : ℕ → String) (now : ℕ) (os : List (Order F)) (ds : List (Driver F))
        → let m = matching fl config uuid now os ds in
          All (λ o. IsLeast fl config o max_float64 m.avail) m.remaining
    unfolding matching
    matching_complete uuid now os ds =
        All-IsLeast _ _ (match_from_ends uuid now (length os) _ (omega arith))
