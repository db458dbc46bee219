-- ===== src/Checkout/Flow/Placed.antt =====
-- services/checkout-service/service/checkout.go: what a placed order leaves, and the payment webhook.
use faisalaffan_design_syste.Base.{
  ℕ, ◌+◌, ◌*◌, ◌<◌, String, ◌≡◌, refl, ap, ◌∙◌, ◌≢◌, ◌⊎◌, inl, inr, true, false, none, some, List,
  [], ◌∷◌, ◌++◌, map, arith, if◌then◌else◌, Bool-cases, Option-cases, wrap64, ◌==◌, nat_key,
  string_key, ==-refl, insert, lookup-insert, lookup-insert_self, str_append,
}
use faisalaffan_design_syste.Checkout.Saga.{execute}
use faisalaffan_design_syste.Checkout.Saga.Rollback.{succeeded}
use faisalaffan_design_syste.Checkout.Steps.{
  pending, confirmed, OrderStatus, OrderItem, Order, OutboxEvent, of_context, of_payment, of_order,
  State, get_order, reserve_inventory_step, create_order_step, charge_payment_step,
  confirm_order_step, publish_events_step,
}
use faisalaffan_design_syste.Checkout.Flow.{
  total_from, is_confirmed, not_found, wrong_status, pipeline, new_order, confirm_payment,
  confirm_found,
}

confirmed_of : (st : OrderStatus) → is_confirmed st ≡ true → st ≡ confirmed
confirmed_of st h = ground arith

not_confirmed_of : (st : OrderStatus) → is_confirmed st ≡ false → st ≢ confirmed
not_confirmed_of st h = ground arith

module _ (uuid : ℕ → String) where
  -- The order as it stands after a placed checkout.
  abbrev pub placed : State → Order
  placed s = record {
    id = uuid s.drawn;
    user_id = s.user_id;
    status = confirmed;
    items = s.items;
    total = total_from 0 s.items;
    currency = s.currency;
    created_at = s.clock s.ticks;
    updated_at = s.clock (s.ticks + 1);
  }

  abbrev pub unconfirmed : State → Order
  unconfirmed s = record (placed s) { status = pending; updated_at = s.clock s.ticks }

  -- The two events of a placed checkout.
  abbrev pub announced : State → List OutboxEvent
  announced s =
      record {
        id = uuid (s.drawn + 1);
        order_id = uuid s.drawn;
        event_type = "order.created";
        payload =
            of_context (uuid s.drawn) s.user_id s.items (total_from 0 s.items) s.currency
              (str_append "txn_" (uuid s.drawn));
        created_at = s.clock (s.ticks + 1 + 1);
      }
      ∷ record {
        id = uuid (s.drawn + 1 + 1);
        order_id = uuid s.drawn;
        event_type = "payment.charged";
        payload =
            of_payment (uuid s.drawn) (str_append "txn_" (uuid s.drawn)) (total_from 0 s.items)
              s.currency;
        created_at = s.clock (s.ticks + 1 + 1 + 1);
      }
      ∷ []

  abbrev pub after_order : State → State
  after_order s = record s {
    order_id = uuid s.drawn;
    total = total_from 0 s.items;
    transaction_id = str_append "txn_" (uuid s.drawn);
    orders = insert (uuid s.drawn) (placed s) (insert (uuid s.drawn) (unconfirmed s) s.orders);
    outbox = s.outbox ++ announced s;
    drawn = s.drawn + 1 + 2;
    ticks = s.ticks + 1 + 1 + 2;
  }

  new_order_lem :
      (s : State)
      → new_order uuid s ≡ (
        after_order s,
        record {
          success = true;
          order_id = uuid s.drawn;
          order = some (placed s);
          failed_at = none;
          steps = map succeeded (pipeline uuid);
        },
      )
  unfolding new_order execute create_order_step reserve_inventory_step charge_payment_step
      confirm_order_step publish_events_step
  new_order_lem s =
      let fresh = lookup-insert_self (uuid s.drawn) (unconfirmed s) s.orders in
      let found =
        lookup-insert_self (uuid s.drawn) (placed s)
          (insert (uuid s.drawn) (unconfirmed s) s.orders) in
      rw fresh (rw found)

  -- A checkout always succeeds: all five steps are recorded as successes, the result carries the
  -- confirmed order, the store changes at the new id only, and the outbox gains the event of the order
  -- and that of its payment.
  pub new_order_places :
      (s : State)
      → let (s', r) = new_order uuid s in
        (r.success ≡ true)
        × (r.order_id ≡ uuid s.drawn)
        × (r.order ≡ some (placed s))
        × (r.steps ≡ map succeeded (pipeline uuid))
        × ((j : String)
            → get_order j s' ≡ (if uuid s.drawn == j then some (placed s) else get_order j s))
        × (s'.outbox ≡ s.outbox ++ announced s)
  new_order_places s = rw (new_order_lem s) (
    refl,
    refl,
    refl,
    refl,
    λ j. ground (
      arith,
      lookup-insert (uuid s.drawn) j (unconfirmed s) s.orders,
      lookup-insert (uuid s.drawn) j (placed s) (insert (uuid s.drawn) (unconfirmed s) s.orders),
    ),
    refl,
  )

  -- The webhook's confirmation is accepted exactly for a stored order that is confirmed, and then sends
  -- one event and changes nothing else; a refusal changes nothing.
  pub confirm_payment_cases :
      (id : String) (s : State)
      → ((get_order id s ≡ none) × (confirm_payment uuid id s ≡ (s, some (not_found id))))
        ⊎ ((o : Order) × (get_order id s ≡ some o)
            × (o.status ≢ confirmed)
            × (confirm_payment uuid id s ≡ (s, some (wrong_status o.status))))
        ⊎ ((o : Order) × (get_order id s ≡ some o)
            × (o.status ≡ confirmed)
            × (confirm_payment uuid id s ≡ (
              record s {
                outbox =
                    s.outbox
                    ++ record {
                      id = uuid s.drawn;
                      order_id = id;
                      event_type = "payment.confirmed";
                      payload = of_order id;
                      created_at = 0;
                    }
                      ∷ [];
                drawn = s.drawn + 1;
              },
              none,
            )))
  unfolding confirm_payment
  confirm_payment_cases id s = elim (Option-cases (get_order id s)) [
    | inl e ↦ inl (e, ap (confirm_found uuid id s) e)
    | inr (o, e) ↦ elim (Bool-cases (is_confirmed o.status)) [
      | inl c ↦ inr (inr (o, e, confirmed_of o.status c, ap (confirm_found uuid id s) e ∙ rw c))
      | inr c ↦ inr (inl (o, e, not_confirmed_of o.status c, ap (confirm_found uuid id s) e ∙ rw c))
    ]
  ]

  -- The payment of an order that was just placed can be confirmed.
  pub confirm_payment-new_order :
      (s : State) → (confirm_payment uuid (uuid s.drawn) (new_order uuid s).0).1 ≡ none
  unfolding confirm_payment
  confirm_payment-new_order s =
      let (ok, id, order, steps, store, out) = new_order_places s in
      let here : get_order (uuid s.drawn) (new_order uuid s).0 ≡ some (placed s) =
        store (uuid s.drawn) ∙ rw (==-refl (uuid s.drawn)) in
      ap (λ o. (confirm_found uuid (uuid s.drawn) (new_order uuid s).0 o).1) here

-- The exact price of the items.
abbrev pub cost : List OrderItem → ℕ
cost [] = 0
cost (item ∷ items) = item.unit_price * item.quantity + cost items

total_from_lem :
    (total : ℕ) (items : List OrderItem)
    → total < 18446744073709551616
    → total_from total items ≡ wrap64 (total + cost items)
unfolding total_from
total_from_lem total [] h = omega arith
total_from_lem total (item ∷ items) h = omega (
  arith,
  total_from_lem (wrap64 (total + wrap64 (item.unit_price * item.quantity))) items (omega arith),
)

-- The order's total is the exact price of its items, as long as that price fits an int64; in general
-- it is the price modulo 2^64.
pub total_exact :
    (items : List OrderItem)
    → (total_from 0 items ≡ wrap64 (cost items))
      × (cost items < 9223372036854775808 → total_from 0 items ≡ cost items)
total_exact items = omega (arith, total_from_lem 0 items)
