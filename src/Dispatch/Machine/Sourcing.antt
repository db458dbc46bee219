-- ===== src/Dispatch/Machine/Sourcing.antt =====
-- services/dispatch-service/service/statemachine.go: the event log against the drivers' states.
use faisalaffan_design_syste.Base.{
  ℕ, String, ◌≡◌, refl, ap, ◌∙◌, ◌⊎◌, inl, inr, Bool, true, false, ◌&&◌, ◌||◌, Option, none, some,
  List, [], ◌∷◌, ◌++◌, arith, if◌then◌else◌, Bool-cases, Option-cases, ◌==◌, nat_key, string_key,
  ==-refl, lookup, insert, lookup-insert,
}
use faisalaffan_design_syste.Dispatch.Model.{
  DriverState, offline, picking, delivering, completed, driver_state_key, Driver,
  StateTransitionEvent,
}
use faisalaffan_design_syste.Dispatch.Machine.{
  valid_transition, not_found, invalid, DriverStateMachine, transition, update_location,
  transition_found,
}

-- One event of a log, read by a driver in a state: `none` if the log is no history of the driver.
abbrev pub apply_event : String → StateTransitionEvent → Option DriverState → Option DriverState
apply_event id e none = none
apply_event id e (some s) =
    if e.driver_id == id
    then (if s == e.from_state && valid_transition s e.to_state then some e.to_state else none)
    else some s

unfoldable pub replay : String → List StateTransitionEvent → Option DriverState → Option DriverState
replay id [] s = s
replay id (e ∷ es) s = replay id es (apply_event id e s)

replay-append :
    (id : String) (es : List StateTransitionEvent) (e : StateTransitionEvent)
    (s : Option DriverState)
    → replay id (es ++ e ∷ []) s ≡ apply_event id e (replay id es s)
unfolding replay
replay-append id [] e s = refl
replay-append id (f ∷ es) e s = replay-append id es e (apply_event id f s)

-- An operation on a registered driver.
pub data Op (F : Type 0) : Type 0 where
  transits : String → DriverState → String → ℕ → Op F
  moves : String → F → F → Op F

module _ {F : Type 0} where
  unfoldable pub perform : Op F → DriverStateMachine F → DriverStateMachine F
  perform (transits id to reason now) sm = (transition id to reason now sm).0
  perform (moves id lat lng) sm = (update_location id lat lng sm).0

  unfoldable pub perform_all : List (Op F) → DriverStateMachine F → DriverStateMachine F
  perform_all [] sm = sm
  perform_all (op ∷ ops) sm = perform_all ops (perform op sm)

  -- Replaying the log from each driver's first state gives its present state.
  abbrev pub IsSourced : (String → DriverState) → DriverStateMachine F → Type 0
  IsSourced first sm =
      (id : String) (d : Driver F)
      → lookup id sm.drivers ≡ some d
      → replay id sm.events (some (first id)) ≡ some d.status

  -- The cases of `Transition`: an unknown driver and an illegal move leave the machine as it was and
  -- return an error; any other call sets the status and appends the event.
  pub transition_cases :
      (id : String) (to : DriverState) (reason : String) (now : ℕ) (sm : DriverStateMachine F)
      → ((lookup id sm.drivers ≡ none)
          × (transition id to reason now sm ≡ (sm, some (not_found id))))
        ⊎ ((d : Driver F) × (lookup id sm.drivers ≡ some d)
            × (valid_transition d.status to ≡ false)
            × (transition id to reason now sm ≡ (sm, some (invalid d.status to))))
        ⊎ ((d : Driver F) × (lookup id sm.drivers ≡ some d)
            × (valid_transition d.status to ≡ true)
            × (transition id to reason now sm ≡ (
              record {
                drivers = insert id (record d { status = to }) sm.drivers;
                events =
                    sm.events
                    ++ record {
                      driver_id = id;
                      from_state = d.status;
                      to_state = to;
                      timestamp = now;
                      reason = reason;
                    }
                      ∷ [];
              },
              none,
            )))
  unfolding transition
  transition_cases id to reason now sm = elim (Option-cases (lookup id sm.drivers)) [
    | inl e ↦ inl (e, ap (transition_found id to reason now sm) e)
    | inr (d, e) ↦ elim (Bool-cases (valid_transition d.status to)) [
      | inl v ↦ inr (inr (d, e, v, ap (transition_found id to reason now sm) e ∙ rw v))
      | inr v ↦ inr (inl (d, e, v, ap (transition_found id to reason now sm) e ∙ rw v))
    ]
  ]

  transition-IsSourced :
      (first : String → DriverState) (id : String) (to : DriverState) (reason : String) (now : ℕ)
      (sm : DriverStateMachine F)
      → IsSourced first sm
      → IsSourced first (transition id to reason now sm).0
  transition-IsSourced first id to reason now sm h = elim (transition_cases id to reason now sm) [
    | inl (e, r) ↦ rw r h
    | inr (inl (d, e, v, r)) ↦ rw r h
    | inr (inr (d, e, v, r)) ↦ rw r (λ j d' e'. rw (replay-append j sm.events _ (some (first j))) (
        ground (
          arith,
          h j d',
          h id d e,
          string_key.test_iff id j,
          ==-refl d.status,
          lookup-insert id j (record d { status = to }) sm.drivers,
        )))
  ]

  update_location-IsSourced :
      (first : String → DriverState) (id : String) (lat lng : F) (sm : DriverStateMachine F)
      → IsSourced first sm
      → IsSourced first (update_location id lat lng sm).0
  unfolding update_location
  update_location-IsSourced first id lat lng sm h = elim (Option-cases (lookup id sm.drivers)) [
    | inl e ↦ rw e h
    | inr (d, e) ↦ rw e (λ j d' e'. ground (
      arith,
      h j d',
      h id d e,
      string_key.test_iff id j,
      lookup-insert id j (record d { location = record { lat = lat; lng = lng } }) sm.drivers,
    ))
  ]

  perform-IsSourced :
      (first : String → DriverState) (op : Op F) (sm : DriverStateMachine F)
      → IsSourced first sm
      → IsSourced first (perform op sm)
  unfolding perform
  perform-IsSourced first (transits id to reason now) sm h =
      transition-IsSourced first id to reason now sm h
  perform-IsSourced first (moves id lat lng) sm h = update_location-IsSourced first id lat lng sm h

  -- After any transitions and location updates, refused ones included, replaying the log from each
  -- driver's first state gives its present state.
  pub perform_all-IsSourced :
      (first : String → DriverState) (ops : List (Op F)) (sm : DriverStateMachine F)
      → IsSourced first sm
      → IsSourced first (perform_all ops sm)
  unfolding perform_all
  perform_all-IsSourced first [] sm h = h
  perform_all-IsSourced first (op ∷ ops) sm h =
      perform_all-IsSourced first ops (perform op sm) (perform-IsSourced first op sm h)

-- The log has an event that took the driver to the state.
abbrev pub visited : String → DriverState → List StateTransitionEvent → Bool
visited id s [] = false
visited id s (e ∷ es) = (e.driver_id == id && e.to_state == s) || visited id s es

-- The driver has collected, or is collecting, an order.
abbrev at_order : DriverState → Bool
at_order picking = true
at_order delivering = true
at_order completed = true
at_order _ = false

replay-none : (id : String) (es : List StateTransitionEvent) → replay id es none ≡ none
unfolding replay
replay-none id [] = refl
replay-none id (e ∷ es) = replay-none id es

picked_up_or_at :
    (id : String) (es : List StateTransitionEvent) (s t : DriverState)
    → replay id es (some s) ≡ some t
    → at_order t ≡ true
    → (at_order s ≡ true) ⊎ (visited id picking es ≡ true)
unfolding replay
picked_up_or_at id [] s t h o = ground arith
picked_up_or_at id (e ∷ es) s t h o =
    ground (arith, replay-none id es, picked_up_or_at id es s t, picked_up_or_at id es e.to_state t)

module _ {F : Type 0} where
  -- A driver that was first offline and now delivers, or has delivered, has an event of the log that
  -- took it to the state PICKING, whatever calls were made.
  pub delivery_needs_picking :
      (first : String → DriverState) (ops : List (Op F)) (sm : DriverStateMachine F) (id : String)
      (d : Driver F)
      → IsSourced first sm
      → first id ≡ offline
      → lookup id (perform_all ops sm).drivers ≡ some d
      → (d.status ≡ delivering) ⊎ (d.status ≡ completed)
      → visited id picking (perform_all ops sm).events ≡ true
  delivery_needs_picking first ops sm id d h off here st = ground (
    arith,
    perform_all-IsSourced first ops sm h id d here,
    picked_up_or_at id (perform_all ops sm).events (first id) d.status,
  )
