-- ===== src/Dispatch/Service/Handlers.antt =====
-- services/dispatch-service: the calls of handler/handler.go on orders and assignments.
use faisalaffan_design_syste.Base.{
  ℕ, String, not, Option, none, some, List, [], ◌∷◌, ◌++◌, ltb, if◌then◌else◌, ◌==◌, nat_key,
  string_key, lookup, insert, contains,
}
use faisalaffan_design_syste.Dispatch.Model.{
  DriverState, idle, assigned, to_hub, driver_state_key, OrderStatus, pending, dispatched, Location,
  OrderItem, Order, Driver, accepted, rejected, Assignment,
}
use faisalaffan_design_syste.Dispatch.Machine.{
  DriverStateMachine, Error, get_driver, transition, update_location,
}
use faisalaffan_design_syste.Dispatch.Service.{
  ReassignmentConfig, Service, ServiceError, driver_not_found, assignment_not_found, wrong_driver,
  not_pending, transition_failed, is_waiting, write_at, update_at, handle_release, cancel_retry,
}

module _ {F : Type 0} where
  -- `CreateOrder`, with a fresh id; a priority below 1 becomes 1.
  unfoldable pub create_order :
      String
      → ℕ
      → String
      → List OrderItem
      → F
      → Location F
      → String
      → ℕ
      → Service F
      → Service F × String × OrderStatus
  create_order uuid now customer_id items total delivery_location hub_id priority sv =
      let order : Order F = record {
        id = uuid;
        customer_id = customer_id;
        items = items;
        total = total;
        status = pending;
        priority = if ltb priority 1 then 1 else priority;
        created_at = now;
        delivery_location = delivery_location;
        hub_id = hub_id;
        assigned_driver_id = "";
        batch_id = "";
      } in
      (
        record sv { orders = insert uuid order sv.orders; sent = sv.sent ++ (uuid ∷ []) },
        uuid,
        pending,
      )

  -- `UpdateDriverLocation`
  unfoldable pub update_driver_location : String → F → F → Service F → Service F × Option Error
  update_driver_location driver_id lat lng sv =
      let moved = update_location driver_id lat lng sv.machine in
      (record sv { machine = moved.0 }, moved.1)

  -- The two transitions of `AcceptAssignment`, from the status that the driver has.
  unfoldable pub go_to_hub :
      DriverState → String → ℕ → DriverStateMachine F → DriverStateMachine F × Option Error
  go_to_hub status driver_id now sm =
      if status == idle
      then after (transition driver_id assigned "pre-accept assignment" now sm)
      else last sm
    where
      last : DriverStateMachine F → DriverStateMachine F × Option Error
      last sm' = transition driver_id to_hub "driver accepted assignment" now sm'

      after : DriverStateMachine F × Option Error → DriverStateMachine F × Option Error
      after (sm', some e) = (sm', some e)
      after (sm', none) = last sm'

  -- `AcceptAssignment` once its guards have passed.
  unfoldable pub accept_pending :
      ℕ → Driver F → Assignment F → Service F → Service F × Option ServiceError
  unfolding go_to_hub write_at cancel_retry
  accept_pending now d a sv =
      let taken = record sv {
        assignments =
            insert a.id (record a { status = accepted; accepted_at = some now }) sv.assignments;
      } in
      let moved = go_to_hub d.status d.id now sv.machine in
      ended (record taken { machine = moved.0 }) moved.1
    where
      ended : Service F → Option Error → Service F × Option ServiceError
      ended after (some e) = (after, some (transition_failed e))
      ended after none = (
        cancel_retry a.order_id (record after {
          orders = update_at a.order_id (λ o. record o { status = dispatched }) after.orders;
        }),
        none,
      )

  -- The guards of `AcceptAssignment`, on the driver and the assignment that are found.
  unfoldable pub accept_found :
      ℕ
      → String
      → Option (Driver F)
      → Option (Assignment F)
      → Service F
      → Service F × Option ServiceError
  unfolding accept_pending
  accept_found now driver_id none a sv = (sv, some driver_not_found)
  accept_found now driver_id (some d) none sv = (sv, some assignment_not_found)
  accept_found now driver_id (some d) (some a) sv =
      if not (a.driver_id == driver_id)
      then (sv, some wrong_driver)
      else if not (is_waiting a.status)
      then (sv, some not_pending)
      else accept_pending now d a sv

  -- `h.assignments[id]`
  unfoldable pub handled_assignment : String → Service F → Option (Assignment F)
  handled_assignment id sv = if contains id sv.handled then lookup id sv.assignments else none

  -- `AcceptAssignment`
  unfoldable pub accept_assignment :
      ℕ → String → String → Service F → Service F × Option ServiceError
  unfolding accept_found handled_assignment
  accept_assignment now assignment_id driver_id sv =
      accept_found now driver_id (get_driver driver_id sv.machine)
        (handled_assignment assignment_id sv) sv

  -- `RejectAssignment`, once the driver is looked up.
  unfoldable pub reject_found :
      ReassignmentConfig
      → ℕ
      → String
      → String
      → String
      → Option (Driver F)
      → Service F
      → Service F × Option ServiceError
  unfolding handled_assignment write_at handle_release
  reject_found config now assignment_id driver_id order_id none sv = (sv, some driver_not_found)
  reject_found config now assignment_id driver_id order_id (some d) sv =
      handle_release config "rejected assignment" now driver_id order_id (record sv {
        assignments =
            write_at assignment_id (λ a. record a { status = rejected; rejected_at = some now })
              (handled_assignment assignment_id sv) sv.assignments;
      })

  unfoldable pub reject_assignment :
      ReassignmentConfig
      → ℕ
      → String
      → String
      → String
      → Service F
      → Service F × Option ServiceError
  unfolding reject_found
  reject_assignment config now assignment_id driver_id order_id sv =
      reject_found config now assignment_id driver_id order_id (get_driver driver_id sv.machine) sv

  -- `GetOrder`; none is the error.
  unfoldable pub get_order : String → Service F → Option (Order F)
  get_order id sv = lookup id sv.orders
