-- ===== src/Dispatch/Service.antt =====
-- services/dispatch-service: service/reassign.go and handler/handler.go. Orders and assignments are
-- shared by pointer: each is stored once, by id. Every order is tracked when it is created, and every
-- assignment of the handler is tracked by the reassignment: `handled` are the ids in the handler's map.
-- `waiting_retries` are the goroutines in `retry` that wait for their timer, by order and attempt.
pub mod Handlers
pub mod Rounds
pub mod Retry
pub mod Accept
mod Samples
use faisalaffan_design_syste.Base.{
  ℕ, String, Bool, true, false, not, Option, none, some, List, [], ◌∷◌, ◌++◌, ltb, if◌then◌else◌,
  keep, ◌==◌, nat_key, string_key, lookup, insert, contains,
}
use faisalaffan_design_syste.Base.Floats.{Floats}
use faisalaffan_design_syste.Dispatch.Model.{
  DriverState, idle, assigned, to_hub, driver_state_key, OrderStatus, pending, order_assigned,
  dispatched, failed, Location, OrderItem, Order, Driver, AssignmentStatus, waiting, accepted,
  rejected, timeout, cancelled, Assignment, MatchScore,
}
use faisalaffan_design_syste.Dispatch.Machine.{
  DriverStateMachine, Error, get_driver, available_drivers, transition, update_location,
}
use faisalaffan_design_syste.Dispatch.Matcher.{Matching, matching, find_best_driver}

-- `ReassignmentConfig`; the back-off, 2^(attempt-1) times a base, only decides when a timer elapses.
pub record ReassignmentConfig : Type 0 where
  pub base_backoff : ℕ
  pub max_attempts : ℕ

abbrev pub default_reassignment_config : ReassignmentConfig
default_reassignment_config = record { base_backoff = 1_000_000_000; max_attempts = 3 }

-- `ReassignmentHandler` and `DispatchHandler`; `sent` are the orders sent to the collector.
pub record Service (F : Type 0) : Type 0 where
  pub machine : DriverStateMachine F
  pub orders : List (String × Order F)
  pub assignments : List (String × Assignment F)
  pub handled : List String
  pub cancels : List String
  pub waiting_retries : List (String × ℕ)
  pub sent : List String

pub data ServiceError : Type 0 where
  driver_not_found assignment_not_found wrong_driver not_pending order_not_found : ServiceError
  order_not_tracked : String → ServiceError
  transition_failed : Error → ServiceError

abbrev pub is_waiting : AssignmentStatus → Bool
is_waiting waiting = true
is_waiting _ = false

-- A write through the pointer of a stored order or assignment.
unfoldable pub write_at :
    {V : Type 0} → String → (V → V) → Option V → List (String × V) → List (String × V)
write_at id f none m = m
write_at id f (some v) m = insert id (f v) m

abbrev pub update_at : {V : Type 0} → String → (V → V) → List (String × V) → List (String × V)
update_at id f m = write_at id f (lookup id m) m

abbrev pub cons_found : {A : Type 0} → Option A → List A → List A
cons_found none rest = rest
cons_found (some a) rest = a ∷ rest

module _ {F : Type 0} where
  -- The start of `retry`, up to its timer.
  unfoldable pub start_retry : ReassignmentConfig → String → ℕ → Service F → Service F
  unfolding write_at
  start_retry config order_id attempt sv =
      if ltb config.max_attempts attempt
      then record sv { orders = update_at order_id (λ o. record o { status = failed }) sv.orders }
      else record sv {
        cancels = if contains order_id sv.cancels then sv.cancels else order_id ∷ sv.cancels;
        waiting_retries = sv.waiting_retries ++ ((order_id, attempt) ∷ []);
      }

  -- `HandleReject` and `HandleTimeout`, which differ in the reason.
  unfoldable pub handle_release :
      ReassignmentConfig
      → String
      → ℕ
      → String
      → String
      → Service F
      → Service F × Option ServiceError
  unfolding start_retry
  handle_release config reason now driver_id order_id sv =
      let moved = transition driver_id idle reason now sv.machine in
      let after = record sv { machine = moved.0 } in
      retried after moved.1 (lookup order_id sv.orders)
    where
      retried : Service F → Option Error → Option (Order F) → Service F × Option ServiceError
      retried after (some e) found = (after, some (transition_failed e))
      retried after none none = (after, some (order_not_tracked order_id))
      retried after none (some o) = (start_retry config order_id 1 after, none)

  -- `CancelRetry`: the goroutines that wait on the closed channel return.
  unfoldable pub cancel_retry : String → Service F → Service F
  cancel_retry order_id sv =
      if contains order_id sv.cancels
      then record sv {
        cancels = keep (λ id. not (id == order_id)) sv.cancels;
        waiting_retries = keep (λ w. not (w.0 == order_id)) sv.waiting_retries;
      }
      else sv

  -- `GetAssignment`
  unfoldable pub get_assignment : String → Service F → Option (Assignment F)
  get_assignment id sv = lookup id sv.assignments
