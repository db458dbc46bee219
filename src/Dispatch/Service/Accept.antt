-- ===== src/Dispatch/Service/Accept.antt =====
-- services/dispatch-service/handler/handler.go, AcceptAssignment: assignments that cannot be accepted.
use faisalaffan_design_syste.Base.{
  ℕ, String, ◌≡◌, refl, sym, ap, ◌∙◌, inl, inr, Bool, true, false, Option, none, some, Bool-cases,
  Option-cases, none-ne-some, get_elem?, remove_at, ◌==◌, nat_key, string_key, lookup,
  lookup-insert_self, contains,
}
use faisalaffan_design_syste.Base.Floats.{Floats}
use faisalaffan_design_syste.Dispatch.Model.{
  DriverState, assigned, waiting, accepted, Order, Driver, Assignment, MatchScore,
}
use faisalaffan_design_syste.Dispatch.Machine.{
  DriverStateMachine, Error, valid_transition, get_driver, available_drivers, transition,
}
use faisalaffan_design_syste.Dispatch.Matcher.{find_best_driver}
use faisalaffan_design_syste.Dispatch.Service.{
  ReassignmentConfig, Service, ServiceError, assignment_not_found, not_pending, transition_failed,
  is_waiting, write_at, get_assignment,
}
use faisalaffan_design_syste.Dispatch.Service.Rounds.{
  reassign_to, try_driver, elapse_found, elapse_at, elapse,
}
use faisalaffan_design_syste.Dispatch.Service.Handlers.{
  go_to_hub, accept_pending, accept_found, handled_assignment, accept_assignment,
}

false-ne-true : ¬ (false ≡ true)
false-ne-true h = cc h

module _ (fl : Floats) (weights : MatchScore fl.F) (config : ReassignmentConfig) where
  try_driver-moved :
      (uuid order_id : String) (now attempt : ℕ) (sv : Service fl.F) (best : Driver fl.F)
      (score : fl.F)
      → (transition best.id assigned "reassignment" now sv.machine).1 ≡ none
      → try_driver fl weights config uuid now order_id attempt (some best, score) sv
        ≡ reassign_to fl weights uuid now order_id attempt best score
            (transition best.id assigned "reassignment" now sv.machine).0
            sv
  unfolding try_driver
  try_driver-moved uuid order_id now attempt sv best score moved = rw moved refl

  -- A retry that finds a driver, whom the machine lets take the order.
  elapse-reassign_to :
      (uuid order_id : String) (now i attempt : ℕ) (sv : Service fl.F) (o : Order fl.F)
      (best : Driver fl.F) (score : fl.F)
      → get_elem? sv.waiting_retries i ≡ some (order_id, attempt)
      → lookup order_id sv.orders ≡ some o
      → find_best_driver fl weights o (available_drivers sv.machine) ≡ (some best, score)
      → (transition best.id assigned "reassignment" now sv.machine).1 ≡ none
      → elapse fl weights config uuid now i sv
        ≡ reassign_to fl weights uuid now order_id attempt best score
            (transition best.id assigned "reassignment" now sv.machine).0
            (record sv { waiting_retries = remove_at i sv.waiting_retries })
  unfolding elapse elapse_at elapse_found
  elapse-reassign_to uuid order_id now i attempt sv o best score waits known found moved =
      let sv' : Service fl.F = record sv { waiting_retries = remove_at i sv.waiting_retries } in
      ap (λ w. elapse_at fl weights config uuid now i w sv) waits
      ∙ ap (λ x. elapse_found fl weights config uuid now order_id attempt x sv') known
      ∙ ap (λ x. try_driver fl weights config uuid now order_id attempt x sv') found
      ∙ try_driver-moved uuid order_id now attempt sv' best score moved

  transition-known :
      (id reason : String) (to : DriverState) (now : ℕ) (sm : DriverStateMachine fl.F)
      → (transition id to reason now sm).1 ≡ none
      → (d : Driver fl.F) × (lookup id (transition id to reason now sm).0.drivers ≡ some d)
  unfolding transition
  transition-known id reason to now sm = elim (Option-cases (lookup id sm.drivers)) [
    | inl e ↦ rw e (λ h. absurd (none-ne-some (sym h)))
    | inr (d, e) ↦ rw e elim (Bool-cases (valid_transition d.status to)) [
      | inl t ↦ rw t (λ h. (record d { status = to }, lookup-insert_self id _ sm.drivers))
      | inr t ↦ rw t (λ h. absurd (none-ne-some (sym h)))
    ]
  ]

  -- When the timer of a retry elapses, its order is known, it finds a driver who can be assigned, and the
  -- handler's map does not have the new id, then the new assignment is stored, waiting for that driver; but
  -- when the driver accepts it, the handler changes nothing and answers that it is not found, since only
  -- the reassignment knows it.
  pub elapse-accept_assignment :
      (uuid order_id : String) (now now' i attempt : ℕ) (sv : Service fl.F) (o : Order fl.F)
      (best : Driver fl.F) (score : fl.F)
      → contains uuid sv.handled ≡ false
      → get_elem? sv.waiting_retries i ≡ some (order_id, attempt)
      → lookup order_id sv.orders ≡ some o
      → find_best_driver fl weights o (available_drivers sv.machine) ≡ (some best, score)
      → (transition best.id assigned "reassignment" now sv.machine).1 ≡ none
      → let after = elapse fl weights config uuid now i sv in
        ((a : Assignment fl.F) × (get_assignment uuid after ≡ some a)
          × (a.order_id ≡ order_id)
          × (a.driver_id ≡ best.id)
          × (a.status ≡ waiting))
        × (accept_assignment now' uuid best.id after ≡ (after, some assignment_not_found))
  unfolding accept_assignment accept_found handled_assignment get_driver get_assignment reassign_to
      write_at
  elapse-accept_assignment uuid order_id now now' i attempt sv o best score fresh waits known found
        moved =
      let (d, there) = transition-known best.id "reassignment" assigned now sv.machine moved in
      rw (elapse-reassign_to uuid order_id now i attempt sv o best score waits known found moved) (
        (_, lookup-insert_self uuid _ sv.assignments, refl, refl, refl),
        rw there (rw (lookup-insert_self best.id _ _) (rw fresh refl)),
      )

abbrev is_transition : Option ServiceError → Bool
is_transition (some (transition_failed e)) = true
is_transition _ = false

module _ {F : Type 0} where
  -- What a second acceptance finds.
  accept_again :
      (now : ℕ) (id driver_id : String) (d : Driver F) (a : Assignment F) (sv : Service F)
      → get_driver driver_id sv.machine ≡ some d
      → contains id sv.handled ≡ true
      → lookup id sv.assignments ≡ some a
      → (a.driver_id == driver_id) ≡ true
      → a.status ≡ accepted
      → accept_assignment now id driver_id sv ≡ (sv, some not_pending)
  unfolding accept_assignment accept_found handled_assignment
  accept_again now id driver_id d a sv there known stored same taken =
      rw there (rw known (rw stored (rw same (rw taken refl))))

  -- What an acceptance leaves whose transition failed.
  abbrev IsSpent : String → String → Service F → Service F × Option ServiceError → Type 0
  IsSpent id driver_id sv answer =
      is_transition answer.1 ≡ true
      → (contains id (Service.handled answer.0) ≡ true)
        × (Service.orders answer.0 ≡ sv.orders)
        × ((a : Assignment F) × (lookup id (Service.assignments answer.0) ≡ some a)
            × ((a.driver_id == driver_id) ≡ true)
            × (a.status ≡ accepted))

  pending-IsSpent :
      (now : ℕ) (id driver_id : String) (d : Driver F) (a : Assignment F) (sv : Service F)
      → contains id sv.handled ≡ true
      → a.id ≡ id
      → (a.driver_id == driver_id) ≡ true
      → IsSpent id driver_id sv (accept_pending now d a sv)
  unfolding accept_pending
  pending-IsSpent now id driver_id d a sv known own same =
      elim (Option-cases (go_to_hub d.status d.id now sv.machine).1) [
        | inl e ↦ rw e (λ h. absurd (false-ne-true h))
        | inr (err, e) ↦ rw e (λ h. (
          known,
          refl,
          (
            record a { status = accepted; accepted_at = some now },
            rw own (lookup-insert_self id _ sv.assignments),
            same,
            refl,
          ),
        ))
      ]

  found-IsSpent :
      (now : ℕ) (id driver_id : String) (d : Option (Driver F)) (sv : Service F)
      → ((a : Assignment F) → lookup id sv.assignments ≡ some a → a.id ≡ id)
      → IsSpent id driver_id sv (accept_found now driver_id d (handled_assignment id sv) sv)
  unfolding accept_found handled_assignment
  found-IsSpent now id driver_id none sv keyed = λ h. absurd (false-ne-true h)
  found-IsSpent now id driver_id (some d) sv keyed = elim (Bool-cases (contains id sv.handled)) [
    | inr e ↦ rw e (λ h. absurd (false-ne-true h))
    | inl known ↦ rw known elim (Option-cases (lookup id sv.assignments)) [
      | inl e ↦ rw e (λ h. absurd (false-ne-true h))
      | inr (a, e) ↦ rw e elim (Bool-cases (a.driver_id == driver_id)) [
        | inr other ↦ rw other (λ h. absurd (false-ne-true h))
        | inl same ↦ rw same elim (Bool-cases (is_waiting a.status)) [
          | inr e' ↦ rw e' (λ h. absurd (false-ne-true h))
          | inl e' ↦ rw e' (pending-IsSpent now id driver_id d a sv known (keyed a e) same)
        ]
      ]
    ]
  ]

  -- An acceptance that fails because the driver's state allows no transition, of an assignment that is
  -- stored under its own id, leaves it marked accepted and every order as it was. In any later service that
  -- has this assignment under its id, in the handler's map too, and knows the driver, the driver's
  -- acceptance changes nothing and is refused as not pending.
  pub accept_assignment_spends :
      (now now' : ℕ) (id driver_id : String) (e : Error) (sv later : Service F) (d : Driver F)
      → ((a : Assignment F) → lookup id sv.assignments ≡ some a → a.id ≡ id)
      → (accept_assignment now id driver_id sv).1 ≡ some (transition_failed e)
      → lookup id later.assignments
        ≡ lookup id (Service.assignments (accept_assignment now id driver_id sv).0)
      → contains id later.handled ≡ true
      → get_driver driver_id later.machine ≡ some d
      → ((a : Assignment F) × (get_assignment id (accept_assignment now id driver_id sv).0 ≡ some a)
          × (a.status ≡ accepted))
        × (Service.orders (accept_assignment now id driver_id sv).0 ≡ sv.orders)
        × (accept_assignment now' id driver_id later ≡ (later, some not_pending))
  unfolding accept_assignment get_assignment
  accept_assignment_spends now now' id driver_id e sv later d keyed failed kept known there =
      let (held, orders, (a, stored, same, taken)) =
        found-IsSpent now id driver_id (get_driver driver_id sv.machine) sv keyed
          (ap is_transition failed) in
      (
        (a, stored, taken),
        orders,
        accept_again now' id driver_id d a later there known (kept ∙ stored) same taken,
      )
