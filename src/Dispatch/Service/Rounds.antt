-- ===== src/Dispatch/Service/Rounds.antt =====
-- services/dispatch-service: the batches of handler/handler.go and the retries of service/reassign.go.
use faisalaffan_design_syste.Base.{
  ℕ, ◌+◌, String, Option, none, some, List, [], ◌∷◌, ◌++◌, if◌then◌else◌, length, get_elem?,
  remove_at, ◌==◌, nat_key, string_key, lookup, insert,
}
use faisalaffan_design_syste.Base.Floats.{Floats}
use faisalaffan_design_syste.Dispatch.Model.{
  assigned, driver_state_key, order_assigned, Order, Driver, waiting, Assignment, MatchScore,
}
use faisalaffan_design_syste.Dispatch.Machine.{
  DriverStateMachine, Error, available_drivers, transition,
}
use faisalaffan_design_syste.Dispatch.Matcher.{matching, find_best_driver}
use faisalaffan_design_syste.Dispatch.Service.{
  ReassignmentConfig, Service, write_at, update_at, cons_found, start_retry,
}

module _ {F : Type 0} where
  -- The orders of a batch, and what a round of the loop over the assignments writes.
  unfoldable pub gather : List String → Service F → List (Order F)
  gather [] sv = []
  gather (id ∷ ids) sv = cons_found (lookup id sv.orders) (gather ids sv)

  unfoldable pub store_drivers :
      List (Driver F) → List (String × Driver F) → List (String × Driver F)
  store_drivers [] m = m
  store_drivers (d ∷ ds) m = store_drivers ds (insert d.id d m)

  unfoldable pub store_orders : List (Order F) → List (String × Order F) → List (String × Order F)
  store_orders [] m = m
  store_orders (o ∷ os) m = store_orders os (insert o.id o m)

  unfoldable pub record_assignments : List (Assignment F) → Service F → Service F
  unfolding write_at
  record_assignments [] sv = sv
  record_assignments (a ∷ rest) sv = record_assignments rest (record sv {
    assignments = insert a.id a sv.assignments;
    handled = a.id ∷ sv.handled;
    orders =
        update_at a.order_id
          (λ o. record o { status = order_assigned; assigned_driver_id = a.driver_id }) sv.orders;
  })

module _ (fl : Floats) (weights : MatchScore fl.F) where
  -- A round of `processBatches`: Match writes its orders and drivers in place.
  unfoldable pub process_batch : (ℕ → String) → ℕ → List String → Service fl.F → Service fl.F
  unfolding gather store_drivers store_orders record_assignments
  process_batch uuid now batch sv =
      let drivers = available_drivers sv.machine in
      let m = matching fl weights uuid now (gather batch sv) drivers in
      if length drivers == 0
      then sv
      else record_assignments m.assignments (record sv {
        machine = record sv.machine {
          drivers =
              store_drivers (m.matched_drivers ++ m.avail) (DriverStateMachine.drivers sv.machine);
        };
        orders = store_orders m.matched_orders sv.orders;
      })

  -- The end of `retry`, once the driver has been taken.
  unfoldable pub reassign_to :
      String
      → ℕ
      → String
      → ℕ
      → Driver fl.F
      → fl.F
      → DriverStateMachine fl.F
      → Service fl.F
      → Service fl.F
  unfolding write_at
  reassign_to uuid now order_id attempt best score sm sv = record sv {
    machine = record sm {
      drivers =
          update_at (Driver.id best) (λ d. record d { load = d.load + 1; skipped_count = 0 })
            (DriverStateMachine.drivers sm);
    };
    orders =
        update_at order_id
          (λ o. record o { status = order_assigned; assigned_driver_id = Driver.id best })
          sv.orders;
    assignments =
        insert uuid
          (record {
            id = uuid;
            order_id = order_id;
            driver_id = Driver.id best;
            status = waiting;
            score = score;
            attempt = attempt + 1;
            created_at = now;
            accepted_at = none;
            rejected_at = none;
          })
          sv.assignments;
  }

  -- `retry` from the transition of the chosen driver on.
  unfoldable pub try_driver :
      ReassignmentConfig
      → String
      → ℕ
      → String
      → ℕ
      → Option (Driver fl.F) × fl.F
      → Service fl.F
      → Service fl.F
  unfolding reassign_to start_retry
  try_driver config uuid now order_id attempt (none, score) sv =
      start_retry config order_id (attempt + 1) sv
  try_driver config uuid now order_id attempt (some best, score) sv =
      let moved = transition (Driver.id best) assigned "reassignment" now sv.machine in after moved
    where
      after : DriverStateMachine fl.F × Option Error → Service fl.F
      after (sm, some e) = start_retry config order_id (attempt + 1) sv
      after (sm, none) = reassign_to uuid now order_id attempt best score sm sv

  -- `retry` after its timer, on the order that it holds.
  unfoldable pub elapse_found :
      ReassignmentConfig
      → String
      → ℕ
      → String
      → ℕ
      → Option (Order fl.F)
      → Service fl.F
      → Service fl.F
  unfolding try_driver
  elapse_found config uuid now order_id attempt none sv = sv
  elapse_found config uuid now order_id attempt (some o) sv =
      try_driver config uuid now order_id attempt
        (find_best_driver fl weights o (available_drivers sv.machine)) sv

  unfoldable pub elapse_at :
      ReassignmentConfig → String → ℕ → ℕ → Option (String × ℕ) → Service fl.F → Service fl.F
  unfolding elapse_found
  elapse_at config uuid now i none sv = sv
  elapse_at config uuid now i (some (order_id, attempt)) sv =
      elapse_found config uuid now order_id attempt (lookup order_id sv.orders)
        (record sv { waiting_retries = remove_at i sv.waiting_retries })

  -- The timer of the i-th waiting goroutine elapses.
  unfoldable pub elapse : ReassignmentConfig → String → ℕ → ℕ → Service fl.F → Service fl.F
  unfolding elapse_at
  elapse config uuid now i sv = elapse_at config uuid now i (get_elem? sv.waiting_retries i) sv
