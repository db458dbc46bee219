-- ===== src/Dispatch/Matcher.antt =====
-- services/dispatch-service/service/matcher.go. Orders and drivers are matched through pointers: a
-- round moves the changed order and driver to `matched_orders` and `matched_drivers`.
pub mod Scan
pub mod Greedy
use faisalaffan_design_syste.Base.{
  ℕ, zero, suc, ◌+◌, ◌-◌, max, String, not, Option, none, some, List, [], ◌∷◌, ◌++◌, map,
  if◌then◌else◌, length, get_elem?, remove_at, nat_key, string_key, sort,
}
use faisalaffan_design_syste.Base.Floats.{Floats}
use faisalaffan_design_syste.Dispatch.Model.{
  assigned, order_assigned, waiting, Order, Driver, Assignment, MatchScore, Location,
}

-- The best pair so far: indices into the orders and the drivers.
pub record Best (F : Type 0) : Type 0 where
  pub pair : Option (ℕ × ℕ)
  pub score : F

pub record Matching (F : Type 0) : Type 0 where
  pub remaining : List (Order F)
  pub avail : List (Driver F)
  pub matched_orders : List (Order F)
  pub matched_drivers : List (Driver F)
  pub assignments : List (Assignment F)

module _ {F : Type 0} where
  abbrev pub skip : Driver F → Driver F
  skip d = record d { skipped_count = d.skipped_count + 1 }

  -- What a match writes through the pointers of the pair.
  abbrev pub take_order : String → Order F → Order F
  take_order driver_id o = record o { status = order_assigned; assigned_driver_id = driver_id }

  abbrev pub take_driver : ℕ → Driver F → Driver F
  take_driver now d = record d {
    status = assigned;
    load = d.load + 1;
    last_assigned_at = now;
    skipped_count = 0;
  }

  abbrev pub assignment_of : String → ℕ → F → Order F → Driver F → Assignment F
  assignment_of id now score o d = record {
    id = id;
    order_id = o.id;
    driver_id = d.id;
    status = waiting;
    score = score;
    attempt = 1;
    created_at = now;
    accepted_at = none;
    rejected_at = none;
  }

  -- `break` if no pair was found.
  abbrev pub continue_with : Matching F → (ℕ → ℕ → Matching F) → Option (ℕ × ℕ) → Matching F
  continue_with m round none = m
  continue_with m round (some (oi, di)) = round oi di

module _ (fl : Floats) where
  open fl use {
    F, less, add, sub, mul, div, neg, sin, cos, sqrt, atan2, least, of_int, decimal, pi,
    max_float64,
  }

  abbrev radians : F → F
  radians x = div (mul x pi) (of_int 180)

  unfoldable pub haversine : F → F → F → F → F
  haversine lat1 lng1 lat2 lng2 =
      let d_lat = radians (sub lat2 lat1) in
      let d_lng = radians (sub lng2 lng1) in
      let r1 = radians lat1 in
      let r2 = radians lat2 in
      let s_lat = sin (div d_lat (of_int 2)) in
      let s_lng = sin (div d_lng (of_int 2)) in
      let a = add (mul s_lat s_lat) (mul (mul (mul (cos r1) (cos r2)) s_lng) s_lng) in
      mul (mul (of_int 6371) (of_int 2)) (atan2 (sqrt a) (sqrt (sub (of_int 1) a)))

  unfoldable pub eta : F → F
  eta dist_km = mul (div dist_km (decimal 833 2)) (of_int 1000)

  unfoldable pub score : MatchScore F → Order F → Driver F → F
  unfolding haversine eta
  score config order driver =
      let dist =
        haversine order.delivery_location.lat order.delivery_location.lng driver.location.lat
          driver.location.lng in
      let eta' = eta dist in
      let norm_dist = least (div dist (of_int 10)) (of_int 1) in
      let norm_eta = least (div eta' (of_int 1200)) (of_int 1) in
      let load_factor = div (of_int driver.load) (of_int (max driver.max_load 1)) in
      let priority_bonus = mul (neg (of_int (max order.priority 1 - 1))) (decimal 125 3) in
      let starvation_penalty =
        least (mul (of_int driver.skipped_count) (decimal 1 1)) (decimal 5 1) in
      add
        (add
          (add (add (mul config.w1 norm_dist) (mul config.w2 norm_eta)) (mul config.w3 load_factor))
          (mul config.w4 priority_bonus))
        (mul config.w5 (neg starvation_penalty))

  -- No driver: the source returns `nil, 0`.
  abbrev or_zero : Option (Driver F) × F → Option (Driver F) × F
  or_zero (none, s) = (none, of_int 0)
  or_zero (some d, s) = (some d, s)

  module _ (config : MatchScore F) where
    -- The inner loop, over the drivers from index `di`.
    pub scan_drivers : Order F → ℕ → ℕ → List (Driver F) → Best F → Best F
    scan_drivers o oi di [] best = best
    scan_drivers o oi di (d ∷ ds) best =
        let s = score config o d in
        scan_drivers o oi (di + 1) ds
          (if less s best.score then record { pair = some (oi, di); score = s } else best)

    pub scan_orders : ℕ → List (Order F) → List (Driver F) → Best F → Best F
    unfolding scan_drivers
    scan_orders oi [] ds best = best
    scan_orders oi (o ∷ os) ds best = scan_orders (oi + 1) os ds (scan_drivers o oi 0 ds best)

    pub best_pair : List (Order F) → List (Driver F) → Best F
    unfolding scan_orders
    best_pair os ds = scan_orders 0 os ds (record { pair = none; score = max_float64 })

    -- The rest of a round, once a pair is chosen: the indices are in range.
    pub assign :
        (ℕ → String)
        → ℕ
        → F
        → ℕ
        → ℕ
        → Matching F
        → Option (Order F)
        → Option (Driver F)
        → Matching F
    assign uuid now s oi di m none d = m
    assign uuid now s oi di m (some o) none = m
    assign uuid now s oi di m (some o) (some d) = record {
      remaining = remove_at oi m.remaining;
      avail = map skip (remove_at di m.avail);
      matched_orders = m.matched_orders ++ take_order d.id o ∷ [];
      matched_drivers = m.matched_drivers ++ take_driver now d ∷ [];
      assignments = m.assignments ++ assignment_of (uuid (length m.assignments)) now s o d ∷ [];
    }

    -- The loop of `Match`: each round removes an order, so as many rounds as orders are enough; with
    -- no order or no driver left no pair is found. The n-th assignment is given the n-th id.
    pub match_from : (ℕ → String) → ℕ → ℕ → Matching F → Matching F
    unfolding best_pair assign
    match_from uuid now zero m = m
    match_from uuid now (suc fuel) m =
        let best = best_pair m.remaining m.avail in
        continue_with m
          (λ oi di.
            match_from uuid now fuel (
              assign uuid now best.score oi di m (get_elem? m.remaining oi) (get_elem? m.avail di)))
          best.pair

    pub matching : (ℕ → String) → ℕ → List (Order F) → List (Driver F) → Matching F
    unfolding match_from
    matching uuid now orders drivers = match_from uuid now (length orders) (record {
      remaining = orders;
      avail = drivers;
      matched_orders = [];
      matched_drivers = [];
      assignments = [];
    })

    -- The loop of `FindBestDriver`; the best index stands for its driver.
    unfoldable pub best_from :
        Order F → List (Driver F) → Option (Driver F) → F → Option (Driver F) × F
    best_from o [] best best_score = (best, best_score)
    best_from o (d ∷ ds) best best_score =
        let s = score config o d in
        let closer = less s best_score in
        best_from o ds (if closer then some d else best) (if closer then s else best_score)

    unfoldable pub find_best_driver : Order F → List (Driver F) → Option (Driver F) × F
    unfolding best_from
    find_best_driver o ds = or_zero (best_from o ds none max_float64)

    -- `SortByScore`
    pub sort_by_score : Order F → List (Driver F) → List (Driver F)
    sort_by_score o ds = sort (λ a b. not (less (score config o b) (score config o a))) ds
