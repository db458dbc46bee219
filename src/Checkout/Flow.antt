-- ===== src/Checkout/Flow.antt =====
-- services/checkout-service/service/checkout.go.
pub mod Placed
use faisalaffan_design_syste.Base.{
  ℕ, ◌+◌, ◌*◌, String, Bool, true, false, Option, none, some, List, [], ◌∷◌, ◌++◌, if◌then◌else◌,
  wrap64,
}
use faisalaffan_design_syste.Checkout.Saga.{StepHandler, SagaStep, SagaContext, SagaError, execute}
use faisalaffan_design_syste.Checkout.Steps.{
  OrderStatus, confirmed, SagaStepName, OrderItem, Order, OutboxEvent, of_order, State, StepError,
  Step, get_order, reserve_inventory_step, create_order_step, charge_payment_step,
  confirm_order_step, publish_events_step,
}

pub record SagaResult : Type 0 where
  pub success : Bool
  pub order_id : String
  pub order : Option Order
  pub failed_at : Option SagaStepName
  pub steps : List (SagaStep SagaStepName StepError)

-- `total += item.UnitPrice * int64(item.Quantity)`
pub total_from : ℕ → List OrderItem → ℕ
total_from total [] = total
total_from total (item ∷ items) =
    total_from (wrap64 (total + wrap64 (item.unit_price * item.quantity))) items

abbrev is_confirmed : OrderStatus → Bool
is_confirmed confirmed = true
is_confirmed _ = false

-- Why `ConfirmPayment` refuses.
pub data ConfirmError : Type 0 where
  not_found : String → ConfirmError
  wrong_status : OrderStatus → ConfirmError

module _ (uuid : ℕ → String) where
  -- The steps of `NewCheckoutService`.
  pub pipeline : List Step
  pipeline =
      reserve_inventory_step
      ∷ create_order_step
      ∷ charge_payment_step
      ∷ confirm_order_step
      ∷ publish_events_step uuid
      ∷ []

  result_of :
      SagaContext State SagaStepName StepError × Option (SagaError SagaStepName StepError)
      → State × SagaResult
  result_of (ctx, some err) = (
    ctx.shared,
    record {
      success = false;
      order_id = ctx.shared.order_id;
      order = none;
      failed_at = ctx.failed_at;
      steps = ctx.steps;
    },
  )
  result_of (ctx, none) = (
    ctx.shared,
    record {
      success = true;
      order_id = ctx.shared.order_id;
      order = get_order ctx.shared.order_id ctx.shared;
      failed_at = none;
      steps = ctx.steps;
    },
  )

  -- `NewOrder`, on a context whose `Steps` and `FailedAt` are empty.
  pub new_order : State → State × SagaResult
  unfolding pipeline result_of total_from
  new_order s =
      let s' : State = record s {
        order_id = uuid s.drawn;
        drawn = s.drawn + 1;
        total = total_from 0 s.items;
      } in
      result_of (execute pipeline (record { shared = s'; steps = []; failed_at = none }))

  confirm_found : String → State → Option Order → State × Option ConfirmError
  confirm_found id s none = (s, some (not_found id))
  confirm_found id s (some o) =
      let event : OutboxEvent = record {
        id = uuid s.drawn;
        order_id = id;
        event_type = "payment.confirmed";
        payload = of_order id;
        created_at = 0;
      } in
      if is_confirmed o.status
      then (record s { outbox = s.outbox ++ event ∷ []; drawn = s.drawn + 1 }, none)
      else (s, some (wrong_status o.status))

  pub confirm_payment : String → State → State × Option ConfirmError
  unfolding confirm_found
  confirm_payment id s = confirm_found id s (get_order id s)
