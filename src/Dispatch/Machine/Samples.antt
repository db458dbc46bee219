-- ===== src/Dispatch/Machine/Samples.antt =====
-- The driver state machine at concrete inputs.
use faisalaffan_design_syste.Base.{ℕ, String, List, [], ◌∷◌, arith, nat_key, string_key, lookup}
use faisalaffan_design_syste.Dispatch.Model.{
  DriverState, offline, idle, assigned, to_hub, picking, delivering, Driver,
}
use faisalaffan_design_syste.Dispatch.Machine.{DriverStateMachine}
use faisalaffan_design_syste.Dispatch.Machine.Sourcing.{
  Op, transits, moves, perform_all, IsSourced, replay, perform_all-IsSourced,
}

abbrev rider : Driver ℕ
rider = record {
  id = "d1";
  name = "Rio";
  location = record { lat = 0; lng = 0 };
  status = offline;
  load = 0;
  max_load = 3;
  total_deliveries = 0;
  last_assigned_at = 0;
  skipped_count = 0;
}

abbrev depot : DriverStateMachine ℕ
depot = record { drivers = ("d1", rider) ∷ []; events = [] }

abbrev all_offline : String → DriverState
all_offline id = offline

depot-IsSourced : IsSourced all_offline depot
unfolding lookup replay
depot-IsSourced id d e = ground (arith, string_key.test_iff "d1" id)

-- A shift, with one move that is refused.
abbrev shift : List (Op ℕ)
shift =
    transits "d1" idle "on" 1
    ∷ transits "d1" delivering "skip" 2
    ∷ transits "d1" assigned "job" 3
    ∷ moves "d1" 4 5
    ∷ transits "d1" to_hub "go" 4
    ∷ transits "d1" picking "pick" 5
    ∷ transits "d1" delivering "out" 6
    ∷ []

perform_all-IsSourced_example : IsSourced all_offline (perform_all shift depot)
perform_all-IsSourced_example = perform_all-IsSourced all_offline shift depot depot-IsSourced

abbrev on_the_way : Driver ℕ
on_the_way = record rider { status = delivering; location = record { lat = 4; lng = 5 } }
