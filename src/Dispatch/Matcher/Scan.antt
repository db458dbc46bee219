-- ===== src/Dispatch/Matcher/Scan.antt =====
-- services/dispatch-service/service/matcher.go: the searches for the lowest score.
use faisalaffan_design_syste.Base.{
  ℕ, suc, ◌+◌, ◌≡◌, refl, ap, ◌∙◌, subst, inl, inr, true, false, Option, none, some, List, [], ◌∷◌,
  arith, if◌then◌else◌, Bool-cases, get_elem?, All,
}
use faisalaffan_design_syste.Base.Floats.{Floats}
use faisalaffan_design_syste.Dispatch.Model.{Order, Driver, MatchScore}
use faisalaffan_design_syste.Dispatch.Matcher.{
  Best, score, scan_drivers, scan_orders, best_pair, best_from, find_best_driver, or_zero,
}

module _ (fl : Floats) where
  open fl use {F, less, less_trans, less_irrefl, max_float64}

  -- What is below `a` is below `b`.
  abbrev pub Falls : F → F → Type 0
  Falls a b = (x : F) → less x a ≡ true → less x b ≡ true

  not_below : (x a b : F) → Falls a b → less x b ≡ false → less x a ≡ false
  not_below x a b f h = elim (Bool-cases (less x a)) [ inl lt ↦ cc (f x lt) | inr ge ↦ ge ]

  or_zero_inv :
      (r : Option (Driver F) × F) (d : Driver F) (s : F)
      → or_zero fl r ≡ (some d, s)
      → r ≡ (some d, s)
  or_zero_inv (none, t) d s h = cc
  or_zero_inv (some d', t) d s h = h

  module _ (config : MatchScore F) where
    -- The best after one driver more.
    abbrev better : Order F → ℕ → ℕ → Driver F → Best F → Best F
    better o oi di d best =
        let s = score fl config o d in
        if less s best.score then record { pair = some (oi, di); score = s } else best

    better-Falls :
        (o : Order F) (oi di : ℕ) (d : Driver F) (best : Best F)
        → Falls (better o oi di d best).score best.score
    better-Falls o oi di d best x h = elim (Bool-cases (less (score fl config o d) best.score)) [
      | inl lt ↦ less_trans x (score fl config o d) best.score (rw lt at h) lt
      | inr ge ↦ rw ge at h
    ]

    better-IsLeast :
        (o : Order F) (oi di : ℕ) (d : Driver F) (best : Best F)
        → less (score fl config o d) (better o oi di d best).score ≡ false
    better-IsLeast o oi di d best = elim (Bool-cases (less (score fl config o d) best.score)) [
      | inl lt ↦ rw lt (less_irrefl (score fl config o d))
      | inr ge ↦ rw ge ge
    ]

    scan_drivers-Falls :
        (o : Order F) (oi di : ℕ) (ds : List (Driver F)) (best : Best F)
        → Falls (scan_drivers fl config o oi di ds best).score best.score
    unfolding scan_drivers
    scan_drivers-Falls o oi di [] best x h = h
    scan_drivers-Falls o oi di (d ∷ ds) best x h =
        better-Falls o oi di d best x
          (scan_drivers-Falls o oi (di + 1) ds (better o oi di d best) x h)

    -- No scanned driver scores below the result.
    abbrev pub IsLeast : Order F → F → List (Driver F) → Type 0
    IsLeast o s = All (λ d. less (score fl config o d) s ≡ false)

    IsLeast-Falls :
        (o : Order F) (a b : F) (ds : List (Driver F)) → Falls a b → IsLeast o b ds → IsLeast o a ds
    IsLeast-Falls o a b [] f h = tt
    IsLeast-Falls o a b (d ∷ ds) f h =
        (not_below (score fl config o d) a b f h.0, IsLeast-Falls o a b ds f h.1)

    scan_drivers-IsLeast :
        (o : Order F) (oi di : ℕ) (ds : List (Driver F)) (best : Best F)
        → IsLeast o (scan_drivers fl config o oi di ds best).score ds
    unfolding scan_drivers
    scan_drivers-IsLeast o oi di [] best = tt
    scan_drivers-IsLeast o oi di (d ∷ ds) best = (
      not_below (score fl config o d) _ _
          (scan_drivers-Falls o oi (di + 1) ds (better o oi di d best))
          (better-IsLeast o oi di d best),
      scan_drivers-IsLeast o oi (di + 1) ds (better o oi di d best),
    )

    scan_orders-Falls :
        (oi : ℕ) (os : List (Order F)) (ds : List (Driver F)) (best : Best F)
        → Falls (scan_orders fl config oi os ds best).score best.score
    unfolding scan_orders
    scan_orders-Falls oi [] ds best x h = h
    scan_orders-Falls oi (o ∷ os) ds best x h =
        scan_drivers-Falls o oi 0 ds best x
          (scan_orders-Falls (oi + 1) os ds (scan_drivers fl config o oi 0 ds best) x h)

    scan_orders-IsLeast :
        (oi : ℕ) (os : List (Order F)) (ds : List (Driver F)) (best : Best F)
        → All (λ o. IsLeast o (scan_orders fl config oi os ds best).score ds) os
    unfolding scan_orders
    scan_orders-IsLeast oi [] ds best = tt
    scan_orders-IsLeast oi (o ∷ os) ds best =
        let best' = scan_drivers fl config o oi 0 ds best in
        (
          IsLeast-Falls o _ best'.score ds (scan_orders-Falls (oi + 1) os ds best')
              (scan_drivers-IsLeast o oi 0 ds best),
          scan_orders-IsLeast (oi + 1) os ds best',
        )

    -- The pair that is recorded stands in the lists and has the recorded score.
    abbrev pub IsFound : List (Order F) → List (Driver F) → Option (ℕ × ℕ) → F → Type 0
    IsFound os ds none s = s ≡ max_float64
    IsFound os ds (some (i, j)) s =
        (o : Order F) × (d : Driver F) × (get_elem? os i ≡ some o)
        × (get_elem? ds j ≡ some d)
        × (s ≡ score fl config o d)

    scan_drivers-IsFound :
        (os0 : List (Order F)) (ds0 : List (Driver F)) (o : Order F) (oi di : ℕ)
        (ds : List (Driver F)) (best : Best F)
        → get_elem? os0 oi ≡ some o
        → ((k : ℕ) → get_elem? ds0 (di + k) ≡ get_elem? ds k)
        → IsFound os0 ds0 best.pair best.score
        → let b = scan_drivers fl config o oi di ds best in IsFound os0 ds0 b.pair b.score
    unfolding scan_drivers
    scan_drivers-IsFound os0 ds0 o oi di [] best ho hd h = h
    scan_drivers-IsFound os0 ds0 o oi di (d ∷ ds) best ho hd h =
        scan_drivers-IsFound os0 ds0 o oi (di + 1) ds (better o oi di d best) ho
          (λ k.
            ap (get_elem? ds0) (let e : di + 1 + k ≡ di + suc k = omega arith in e) ∙ hd (suc k))
          (elim (Bool-cases (less (score fl config o d) best.score)) [
            | inl lt ↦
                rw lt (
                  o,
                  d,
                  ho,
                  ap (get_elem? ds0) (let e : di ≡ di + 0 = omega arith in e) ∙ hd 0,
                  refl,
                )
            | inr ge ↦ rw ge h
          ])

    scan_orders-IsFound :
        (os0 : List (Order F)) (oi : ℕ) (os : List (Order F)) (ds : List (Driver F)) (best : Best F)
        → ((k : ℕ) → get_elem? os0 (oi + k) ≡ get_elem? os k)
        → IsFound os0 ds best.pair best.score
        → let b = scan_orders fl config oi os ds best in IsFound os0 ds b.pair b.score
    unfolding scan_orders
    scan_orders-IsFound os0 oi [] ds best ho h = h
    scan_orders-IsFound os0 oi (o ∷ os) ds best ho h =
        scan_orders-IsFound os0 (oi + 1) os ds (scan_drivers fl config o oi 0 ds best)
          (λ k.
            ap (get_elem? os0) (let e : oi + 1 + k ≡ oi + suc k = omega arith in e) ∙ ho (suc k))
          (scan_drivers-IsFound os0 ds o oi 0 ds best
            (ap (get_elem? os0) (let e : oi ≡ oi + 0 = omega arith in e) ∙ ho 0)
            (λ k. ap (get_elem? ds) (let e : 0 + k ≡ k = omega arith in e)) h)

    -- The pair that a round of `Match` chooses stands in the lists, has the score that is recorded, and
    -- no pair of an order and a driver has a lower one. No pair is chosen only if none scores below
    -- the largest float.
    pub best_pair_lem :
        (os : List (Order F)) (ds : List (Driver F))
        → let b = best_pair fl config os ds in
          IsFound os ds b.pair b.score × All (λ o. IsLeast o b.score ds) os
    unfolding best_pair
    best_pair_lem os ds =
        let start : Best F = record { pair = none; score = max_float64 } in
        (
          scan_orders-IsFound os 0 os ds start
              (λ k. ap (get_elem? os) (let e : 0 + k ≡ k = omega arith in e)) refl,
          scan_orders-IsLeast 0 os ds start,
        )

    -- One comparison of `FindBestDriver`.
    abbrev nearer : Order F → Driver F → F → F
    nearer o d s = if less (score fl config o d) s then score fl config o d else s

    nearer-Falls : (o : Order F) (d : Driver F) (s : F) → Falls (nearer o d s) s
    nearer-Falls o d s x h = elim (Bool-cases (less (score fl config o d) s)) [
      | inl lt ↦ less_trans x (score fl config o d) s (rw lt at h) lt
      | inr ge ↦ rw ge at h
    ]

    nearer-IsLeast :
        (o : Order F) (d : Driver F) (s : F) → less (score fl config o d) (nearer o d s) ≡ false
    nearer-IsLeast o d s = elim (Bool-cases (less (score fl config o d) s)) [
      | inl lt ↦ rw lt (less_irrefl (score fl config o d))
      | inr ge ↦ rw ge ge
    ]

    best_from-Falls :
        (o : Order F) (ds : List (Driver F)) (b : Option (Driver F)) (s : F)
        → Falls (best_from fl config o ds b s).1 s
    unfolding best_from
    best_from-Falls o [] b s x h = h
    best_from-Falls o (d ∷ ds) b s x h = nearer-Falls o d s x (
        best_from-Falls o ds (if less (score fl config o d) s then some d else b) (nearer o d s) x
          h)

    best_from-IsLeast :
        (o : Order F) (ds : List (Driver F)) (b : Option (Driver F)) (s : F)
        → IsLeast o (best_from fl config o ds b s).1 ds
    unfolding best_from
    best_from-IsLeast o [] b s = tt
    best_from-IsLeast o (d ∷ ds) b s =
        let b' = if less (score fl config o d) s then some d else b in
        (
          not_below (score fl config o d) _ _ (best_from-Falls o ds b' (nearer o d s))
              (nearer-IsLeast o d s),
          best_from-IsLeast o ds b' (nearer o d s),
        )

    abbrev pub IsChosen : Order F → List (Driver F) → Option (Driver F) → F → Type 0
    IsChosen o ds none s = s ≡ max_float64
    IsChosen o ds (some d) s = ((j : ℕ) × (get_elem? ds j ≡ some d)) × (s ≡ score fl config o d)

    best_from-IsChosen :
        (o : Order F) (ds0 : List (Driver F)) (k : ℕ) (ds : List (Driver F)) (b : Option (Driver F))
        (s : F)
        → ((i : ℕ) → get_elem? ds0 (k + i) ≡ get_elem? ds i)
        → IsChosen o ds0 b s
        → let r = best_from fl config o ds b s in IsChosen o ds0 r.0 r.1
    unfolding best_from
    best_from-IsChosen o ds0 k [] b s at h = h
    best_from-IsChosen o ds0 k (d ∷ ds) b s at h =
        best_from-IsChosen o ds0 (k + 1) ds _ _
          (λ i. ap (get_elem? ds0) (let e : k + 1 + i ≡ k + suc i = omega arith in e) ∙ at (suc i))
          (elim (Bool-cases (less (score fl config o d) s)) [
            | inl lt ↦
                rw lt ((k, ap (get_elem? ds0) (let e : k ≡ k + 0 = omega arith in e) ∙ at 0), refl)
            | inr ge ↦ rw ge h
          ])

    -- `FindBestDriver` returns one of the given drivers with its score, below which no driver of the
    -- list scores.
    pub find_best_driver-IsLeast :
        (o : Order F) (ds : List (Driver F)) (d : Driver F) (s : F)
        → find_best_driver fl config o ds ≡ (some d, s)
        → ((j : ℕ) × (get_elem? ds j ≡ some d)) × (s ≡ score fl config o d) × IsLeast o s ds
    unfolding find_best_driver
    find_best_driver-IsLeast o ds d s e =
        let start =
          best_from-IsChosen o ds 0 ds none max_float64
            (λ i. ap (get_elem? ds) (let z : 0 + i ≡ i = omega arith in z)) refl in
        let inv = or_zero_inv (best_from fl config o ds none max_float64) d s e in
        let chosen = subst (λ r. IsChosen o ds r.0 r.1) inv start in
        (
          chosen.0,
          chosen.1,
          subst (λ r. IsLeast o r.1 ds) inv (best_from-IsLeast o ds none max_float64),
        )
