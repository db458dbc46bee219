-- ===== src/Dispatch/Samples.antt =====
-- Matching and batching at concrete inputs.
use faisalaffan_design_syste.Base.{ℕ, String, ◌≡◌, refl, some, List, [], ◌∷◌, All}
use faisalaffan_design_syste.Base.Floats.{nat_floats}
use faisalaffan_design_syste.Dispatch.Model.{
  idle, pending, Location, Order, Driver, MatchScore, default_batch_config,
}
use faisalaffan_design_syste.Dispatch.Matcher.{score, best_pair, matching, find_best_driver}
use faisalaffan_design_syste.Dispatch.Matcher.Scan.{IsFound, IsLeast, best_pair_lem}
use faisalaffan_design_syste.Dispatch.Matcher.Greedy.{
  IsConserved, matching-IsConserved, matching_complete,
}
use faisalaffan_design_syste.Dispatch.Batcher.{Signal, enqueue, expire, stop, new, start, run}
use faisalaffan_design_syste.Dispatch.Batcher.Conserve.{stopped_sends_all}
use faisalaffan_design_syste.Dispatch.Batcher.Running.{concat}

abbrev weights : MatchScore ℕ
weights = record { w1 = 0; w2 = 0; w3 = 1; w4 = 0; w5 = 0 }

abbrev origin : Location ℕ
origin = record { lat = 0; lng = 0 }

abbrev rider : String → ℕ → Driver ℕ
rider id load = record {
  id = id;
  name = id;
  location = origin;
  status = idle;
  load = load;
  max_load = 1;
  total_deliveries = 0;
  last_assigned_at = 0;
  skipped_count = 0;
}

abbrev parcel : String → Order ℕ
parcel id = record {
  id = id;
  customer_id = "c";
  items = [];
  total = 9;
  status = pending;
  priority = 1;
  created_at = 0;
  delivery_location = origin;
  hub_id = "h";
  assigned_driver_id = "";
  batch_id = "";
}

abbrev parcels : List (Order ℕ)
parcels = parcel "o1" ∷ parcel "o2" ∷ []

abbrev riders : List (Driver ℕ)
riders = rider "d1" 5 ∷ rider "d2" 2 ∷ rider "d3" 4 ∷ []

abbrev ids : ℕ → String
ids n = "a"

best_pair_lem_example :
    let b = best_pair nat_floats weights parcels riders in
    IsFound nat_floats weights parcels riders b.pair b.score
    × All (λ o. IsLeast nat_floats weights o b.score riders) parcels
best_pair_lem_example = best_pair_lem nat_floats weights parcels riders

matching-IsConserved_example :
    IsConserved parcels riders (matching nat_floats weights ids 7 parcels riders)
matching-IsConserved_example = matching-IsConserved nat_floats weights ids 7 parcels riders

matching_complete_example :
    let m = matching nat_floats weights ids 7 parcels riders in
    All (λ o. IsLeast nat_floats weights o 1000 m.avail) m.remaining
matching_complete_example = matching_complete nat_floats weights ids 7 parcels riders

lightest : find_best_driver nat_floats weights (parcel "o1") riders ≡ (some (rider "d2" 2), 2)
unfolding find_best_driver score
lightest = refl

abbrev signals : List (Signal ℕ)
signals =
    enqueue 1
    ∷ enqueue 2
    ∷ expire
    ∷ enqueue 3
    ∷ enqueue 4
    ∷ enqueue 5
    ∷ enqueue 6
    ∷ enqueue 7
    ∷ enqueue 8
    ∷ stop
    ∷ enqueue 9
    ∷ []

stopped_sends_all_example :
    concat (run signals (start (new default_batch_config))).batches
    ≡ 1 ∷ 2 ∷ 3 ∷ 4 ∷ 5 ∷ 6 ∷ 7 ∷ 8 ∷ []
stopped_sends_all_example = stopped_sends_all default_batch_config signals refl
