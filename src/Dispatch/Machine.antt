-- ===== src/Dispatch/Machine.antt =====
-- services/dispatch-service/service/statemachine.go. A method returns the new machine; a driver that
-- callers reach by its pointer is the one stored under its id. The map's order of iteration is that
-- of the association list.
pub mod Sourcing
mod Samples
use faisalaffan_design_syste.Base.{
  ℕ, String, Bool, true, false, Option, none, some, List, [], ◌∷◌, ◌++◌, if◌then◌else◌, ◌==◌,
  nat_key, string_key, lookup, insert,
}
use faisalaffan_design_syste.Dispatch.Model.{
  DriverState, offline, idle, assigned, to_hub, picking, delivering, completed, driver_state_key,
  Location, Driver, StateTransitionEvent,
}

-- The table of legal transitions.
abbrev pub valid_transition : DriverState → DriverState → Bool
valid_transition offline idle = true
valid_transition idle assigned = true
valid_transition idle offline = true
valid_transition assigned to_hub = true
valid_transition assigned idle = true
valid_transition assigned offline = true
valid_transition to_hub picking = true
valid_transition to_hub idle = true
valid_transition picking delivering = true
valid_transition picking idle = true
valid_transition delivering completed = true
valid_transition delivering idle = true
valid_transition completed idle = true
valid_transition completed offline = true
valid_transition _ _ = false

pub data Error : Type 0 where
  not_found : String → Error
  invalid : DriverState → DriverState → Error

pub record DriverStateMachine (F : Type 0) : Type 0 where
  pub drivers : List (String × Driver F)
  pub events : List StateTransitionEvent

module _ {F : Type 0} where
  pub new : DriverStateMachine F
  new = record { drivers = []; events = [] }

  unfoldable pub add_driver : Driver F → DriverStateMachine F → DriverStateMachine F
  add_driver d sm = record sm { drivers = insert d.id d sm.drivers }

  unfoldable pub get_driver : String → DriverStateMachine F → Option (Driver F)
  get_driver id sm = lookup id sm.drivers

  pub in_state : DriverState → List (String × Driver F) → List (Driver F)
  in_state state [] = []
  in_state state ((k, d) ∷ m) = if d.status == state then d ∷ in_state state m else in_state state m

  unfoldable pub get_drivers_by_state : DriverState → DriverStateMachine F → List (Driver F)
  unfolding in_state
  get_drivers_by_state state sm = in_state state sm.drivers

  unfoldable pub available_drivers : DriverStateMachine F → List (Driver F)
  unfolding get_drivers_by_state
  available_drivers sm = get_drivers_by_state idle sm

  -- `Transition` once the driver has been looked up.
  transition_found :
      String
      → DriverState
      → String
      → ℕ
      → DriverStateMachine F
      → Option (Driver F)
      → DriverStateMachine F × Option Error
  transition_found id to reason now sm none = (sm, some (not_found id))
  transition_found id to reason now sm (some driver) =
      let event : StateTransitionEvent = record {
        driver_id = id;
        from_state = driver.status;
        to_state = to;
        timestamp = now;
        reason = reason;
      } in
      if valid_transition driver.status to
      then (
        record {
          drivers = insert id (record driver { status = to }) sm.drivers;
          events = sm.events ++ event ∷ [];
        },
        none,
      )
      else (sm, some (invalid driver.status to))

  unfoldable pub transition :
      String → DriverState → String → ℕ → DriverStateMachine F → DriverStateMachine F × Option Error
  unfolding transition_found
  transition id to reason now sm = transition_found id to reason now sm (lookup id sm.drivers)

  move_found :
      String
      → F
      → F
      → DriverStateMachine F
      → Option (Driver F)
      → DriverStateMachine F × Option Error
  move_found id lat lng sm none = (sm, some (not_found id))
  move_found id lat lng sm (some driver) = (
    record sm {
      drivers = insert id (record driver { location = record { lat = lat; lng = lng } }) sm.drivers;
    },
    none,
  )

  unfoldable pub update_location :
      String → F → F → DriverStateMachine F → DriverStateMachine F × Option Error
  unfolding move_found
  update_location id lat lng sm = move_found id lat lng sm (lookup id sm.drivers)
