-- ===== src/Dispatch/Service/Samples.antt =====
-- Tests of the service: one order, one driver.
use faisalaffan_design_syste.Base.{
  ℕ, ◌≤◌, ◌≡◌, refl, sym, ap, true, false, none, some, [], ◌∷◌, arith, nat_key, string_key, lookup,
  get_or, contains,
}
use faisalaffan_design_syste.Base.Floats.{nat_floats}
use faisalaffan_design_syste.Dispatch.Model.{
  DriverState, idle, offline, assigned, to_hub, pending, waiting, accepted, Location, Order, Driver,
  Assignment, MatchScore,
}
use faisalaffan_design_syste.Dispatch.Machine.{invalid, transition, available_drivers, get_driver}
use faisalaffan_design_syste.Dispatch.Matcher.{find_best_driver, score}
use faisalaffan_design_syste.Dispatch.Service.{
  default_reassignment_config, Service, assignment_not_found, not_pending, transition_failed,
  handle_release, get_assignment,
}
use faisalaffan_design_syste.Dispatch.Service.Rounds.{elapse}
use faisalaffan_design_syste.Dispatch.Service.Handlers.{accept_assignment}
use faisalaffan_design_syste.Dispatch.Service.Retry.{AllWaited, handle_release-ends}
use faisalaffan_design_syste.Dispatch.Service.Accept.{
  elapse-accept_assignment, accept_assignment_spends,
}

abbrev weights : MatchScore ℕ
weights = record { w1 = 0; w2 = 0; w3 = 1; w4 = 0; w5 = 0 }

abbrev origin : Location ℕ
origin = record { lat = 0; lng = 0 }

abbrev order_1 : Order ℕ
order_1 = record {
  id = "o";
  customer_id = "c";
  items = [];
  total = 10;
  status = pending;
  priority = 1;
  created_at = 0;
  delivery_location = origin;
  hub_id = "h";
  assigned_driver_id = "";
  batch_id = "";
}

abbrev driver_in : DriverState → Driver ℕ
driver_in state = record {
  id = "d";
  name = "dina";
  location = origin;
  status = state;
  load = 0;
  max_load = 2;
  total_deliveries = 0;
  last_assigned_at = 0;
  skipped_count = 0;
}

abbrev assignment_1 : Assignment ℕ
assignment_1 = record {
  id = "a";
  order_id = "o";
  driver_id = "d";
  status = waiting;
  score = 0;
  attempt = 1;
  created_at = 0;
  accepted_at = none;
  rejected_at = none;
}

abbrev service_with : DriverState → Service ℕ
service_with state = record {
  machine = record { drivers = ("d", driver_in state) ∷ []; events = [] };
  orders = ("o", order_1) ∷ [];
  assignments = ("a", assignment_1) ∷ [];
  handled = "a" ∷ [];
  cancels = [];
  waiting_retries = [];
  sent = "o" ∷ [];
}

abbrev rejected_once : Service ℕ
rejected_once = record (service_with idle) { waiting_retries = ("o", 1) ∷ []; cancels = "o" ∷ [] }

rejected_runs :
    (handle_release default_reassignment_config "rejected assignment" 5 "d" "o"
      (service_with assigned)).1
    ≡ none
unfolding handle_release lookup transition
rejected_runs = refl

one_waits :
    AllWaited nat_floats weights default_reassignment_config
      (("u", 6, 0, service_with offline) ∷ ("v", 7, 0, service_with idle) ∷ [])
      (handle_release default_reassignment_config "rejected assignment" 5 "d" "o"
        (service_with assigned)).0
unfolding AllWaited handle_release lookup transition elapse find_best_driver available_drivers
one_waits = (omega arith, (omega arith, tt))

handle_release-ends_example : 2 ≤ 3
handle_release-ends_example =
    handle_release-ends nat_floats weights default_reassignment_config "rejected assignment" 5 "d"
      "o" (service_with assigned)
      (("u", 6, 0, service_with offline) ∷ ("v", 7, 0, service_with idle) ∷ []) refl one_waits

unknown_id : contains "u" (Service.handled rejected_once) ≡ false
unfolding contains
unknown_id = refl

order_known : lookup "o" (Service.orders rejected_once) ≡ some order_1
unfolding lookup
order_known = refl

driver_found :
    find_best_driver nat_floats weights order_1 (available_drivers (Service.machine rejected_once))
    ≡ (some (driver_in idle), 0)
unfolding find_best_driver available_drivers score
driver_found = refl

driver_moves : (transition "d" assigned "reassignment" 6 (Service.machine rejected_once)).1 ≡ none
unfolding transition lookup
driver_moves = refl

abbrev reassigned : Service ℕ
reassigned = elapse nat_floats weights default_reassignment_config "u" 6 0 rejected_once

elapse-accept_assignment_example :
    ((a : Assignment ℕ) × (get_assignment "u" reassigned ≡ some a)
      × (a.order_id ≡ "o")
      × (a.driver_id ≡ "d")
      × (a.status ≡ waiting))
    × (accept_assignment 7 "u" "d" reassigned ≡ (reassigned, some assignment_not_found))
elapse-accept_assignment_example =
    elapse-accept_assignment nat_floats weights default_reassignment_config "u" "o" 6 7 0 1
      rejected_once order_1 (driver_in idle) 0 unknown_id refl order_known driver_found driver_moves

keyed :
    (a : Assignment ℕ)
    → lookup "a" (Service.assignments (service_with offline)) ≡ some a
    → a.id ≡ "a"
unfolding lookup
keyed a h = ap (λ o. Assignment.id (get_or o a)) (sym h)

abbrev failed_offline : Service ℕ
failed_offline = (accept_assignment 5 "a" "d" (service_with offline)).0

fails_offline :
    (accept_assignment 5 "a" "d" (service_with offline)).1
    ≡ some (transition_failed (invalid offline to_hub))
unfolding accept_assignment get_driver lookup contains transition
fails_offline = refl

-- The driver goes idle afterwards.
abbrev idle_later : Service ℕ
idle_later = record failed_offline { machine = Service.machine (service_with idle) }

handled_later : contains "a" (Service.handled idle_later) ≡ true
unfolding accept_assignment get_driver lookup contains transition
handled_later = refl

driver_later : get_driver "d" (Service.machine idle_later) ≡ some (driver_in idle)
unfolding get_driver lookup
driver_later = refl

accept_assignment_spends_example :
    ((a : Assignment ℕ) × (get_assignment "a" failed_offline ≡ some a) × (a.status ≡ accepted))
    × (Service.orders failed_offline ≡ (service_with offline).orders)
    × (accept_assignment 9 "a" "d" idle_later ≡ (idle_later, some not_pending))
accept_assignment_spends_example =
    accept_assignment_spends 5 9 "a" "d" (invalid offline to_hub) (service_with offline) idle_later
      (driver_in idle) keyed fails_offline refl handled_later driver_later
