-- ===== src/Checkout/Steps.antt =====
-- services/checkout-service/service/saga.go, the five steps, and model/model.go. A step's state is the
-- request's context with what its steps share: the order store of `CreateOrderStep` and the outbox
-- channel, whose sends wait for room and so always arrive. `clock n` is
-- the n-th answer of time.Now. The event's payload leaves out the context's Steps and FailedAt. Amounts, int64, are bit patterns. `uuid n` is the n-th fresh id; calls of services that the
-- code leaves as TODO do nothing.
use faisalaffan_design_syste.Base.{
  ℕ, ◌+◌, String, Option, none, some, List, [], ◌∷◌, ◌++◌, nat_key, string_key, lookup, insert,
  str_append,
}
use faisalaffan_design_syste.Checkout.Saga.{StepHandler}

pub data OrderStatus : Type 0 where
  pending confirmed cancelled failed : OrderStatus

pub data SagaStepName : Type 0 where
  reserve_inventory create_order charge_payment confirm_order publish_events : SagaStepName

pub record OrderItem : Type 0 where
  pub product_id : String
  pub name : String
  pub quantity : ℕ
  pub unit_price : ℕ

pub record Order : Type 0 where
  pub id : String
  pub user_id : String
  pub status : OrderStatus
  pub items : List OrderItem
  pub total : ℕ
  pub currency : String
  pub created_at : ℕ
  pub updated_at : ℕ

-- The payloads that the code sends.
pub data Payload : Type 0 where
  of_context : String → String → List OrderItem → ℕ → String → String → Payload
  of_payment : String → String → ℕ → String → Payload
  of_order : String → Payload

pub record OutboxEvent : Type 0 where
  pub id : String
  pub order_id : String
  pub event_type : String
  pub payload : Payload
  pub created_at : ℕ

pub record State : Type 0 where
  pub order_id : String
  pub user_id : String
  pub items : List OrderItem
  pub total : ℕ
  pub currency : String
  pub transaction_id : String
  pub orders : List (String × Order)
  pub outbox : List OutboxEvent
  pub drawn : ℕ
  pub clock : ℕ → ℕ
  pub ticks : ℕ

pub data StepError : Type 0 where
  order_not_found : String → StepError

abbrev pub Step : Type 0
Step = StepHandler State SagaStepName StepError

abbrev pub ok : State → State × Option StepError
ok s = (s, none)

unfoldable pub reserve_inventory_step : Step
reserve_inventory_step = record { name = reserve_inventory; execute = ok; compensate = ok }

-- `GetOrder`
abbrev pub get_order : String → State → Option Order
get_order id s = lookup id s.orders

unfoldable pub create_execute : State → State × Option StepError
create_execute s =
    let order : Order = record {
      id = s.order_id;
      user_id = s.user_id;
      status = pending;
      items = s.items;
      total = s.total;
      currency = s.currency;
      created_at = s.clock s.ticks;
      updated_at = s.clock s.ticks;
    } in
    ok (record s { orders = insert s.order_id order s.orders; ticks = s.ticks + 1 })

-- A write through the stored order's pointer, if there is one.
abbrev pub update_order : (Order → Order) → State → Option Order → State
update_order f s none = s
update_order f s (some o) = record s { orders = insert s.order_id (f o) s.orders }

unfoldable pub create_compensate : State → State × Option StepError
create_compensate s =
    ok (update_order (λ o. record o { status = cancelled }) s (get_order s.order_id s))

unfoldable pub create_order_step : Step
unfolding create_execute create_compensate
create_order_step = record {
  name = create_order;
  execute = create_execute;
  compensate = create_compensate;
}

unfoldable pub charge_execute : State → State × Option StepError
charge_execute s = ok (record s { transaction_id = str_append "txn_" s.order_id })

-- The refund itself is left as TODO.
unfoldable pub charge_payment_step : Step
unfolding charge_execute
charge_payment_step = record { name = charge_payment; execute = charge_execute; compensate = ok }

unfoldable pub confirm_found : State → Option Order → State × Option StepError
confirm_found s none = (s, some (order_not_found s.order_id))
confirm_found s (some o) = ok (record s {
  orders =
      insert s.order_id (record o { status = confirmed; updated_at = s.clock s.ticks }) s.orders;
  ticks = s.ticks + 1;
})

unfoldable pub confirm_execute : State → State × Option StepError
unfolding confirm_found
confirm_execute s = confirm_found s (get_order s.order_id s)

unfoldable pub confirm_compensate : State → State × Option StepError
confirm_compensate s = of_found (get_order s.order_id s)
  where
    of_found : Option Order → State × Option StepError
    of_found none = ok s
    of_found (some o) = ok (record s {
      orders =
          insert s.order_id (record o { status = failed; updated_at = s.clock s.ticks }) s.orders;
      ticks = s.ticks + 1;
    })

unfoldable pub confirm_order_step : Step
unfolding confirm_execute confirm_compensate
confirm_order_step = record {
  name = confirm_order;
  execute = confirm_execute;
  compensate = confirm_compensate;
}

module _ (uuid : ℕ → String) where
  unfoldable pub publish_execute : State → State × Option StepError
  publish_execute s =
      let created : OutboxEvent = record {
        id = uuid s.drawn;
        order_id = s.order_id;
        event_type = "order.created";
        payload = of_context s.order_id s.user_id s.items s.total s.currency s.transaction_id;
        created_at = s.clock s.ticks;
      } in
      let charged : OutboxEvent = record {
        id = uuid (s.drawn + 1);
        order_id = s.order_id;
        event_type = "payment.charged";
        payload = of_payment s.order_id s.transaction_id s.total s.currency;
        created_at = s.clock (s.ticks + 1);
      } in
      ok (record s {
        outbox = s.outbox ++ created ∷ charged ∷ [];
        drawn = s.drawn + 2;
        ticks = s.ticks + 2;
      })

  unfoldable pub publish_events_step : Step
  unfolding publish_execute
  publish_events_step = record { name = publish_events; execute = publish_execute; compensate = ok }
