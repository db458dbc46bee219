-- ===== src/Flash/Pipeline/Balance.antt =====
-- services/flash-sale/service.go: what Checkout leaves of the slots and the stock.
use faisalaffan_design_syste.Base.{
  ℕ, ◌+◌, ◌*◌, String, ◌≡◌, refl, ap, ◌∙◌, ◌⊎◌, inl, inr, Bool, true, false, none, some, arith,
  Bool-cases, Option-cases, nat_key, string_key, ==-refl, lookup, insert, get_or,
}
use faisalaffan_design_syste.Base.Redis.{Redis}
use faisalaffan_design_syste.Flash.Stock.{
  StockKey, total, stock_key, Reservation, reserved, Decr, taken, sold_out, no_bucket, amount,
  create_reservation,
}
use faisalaffan_design_syste.Flash.Stock.Balance.{Reserves, reserve_stock-Reserves}
use faisalaffan_design_syste.Flash.Slots.{
  succ, pred, at_most, SlotStore, acquire_slot, release_slot,
}
use faisalaffan_design_syste.Flash.Slots.Bound.{pred-succ}
use faisalaffan_design_syste.Flash.Pipeline.{
  Status, completed, default_bucket_count, default_max_slots, CheckoutRequest, Now, State, cached,
  check_idempotency, check_rate_limit, join_waiting_room, verify_attestation, session_of,
}
use faisalaffan_design_syste.Flash.Pipeline.Checkout.{
  Answer, checkout_queued, checkout_reserved, checkout_slot, checkout_new, checkout,
}

abbrev is_completed : Status → Bool
is_completed completed = true
is_completed _ = false

module _ (redis : Redis StockKey Reservation) (store : SlotStore) (sign : String → ℕ → String)
    (hash : String → ℕ) (before : String → String → Bool) (float64 : ℕ → ℕ) where
  -- A completed checkout holds one more slot, has taken the quantity off the total and has stored the
  -- reservation; any other one leaves the count of the slots and every counter of the stock.
  abbrev pub Settles :
      String
      → CheckoutRequest
      → State redis.R store.R
      → Answer redis store sign hash before float64
      → Type 0
  Settles reservation_id req st (st', resp) =
      ((is_completed resp.status ≡ true)
        × (store.count req.product_id st'.slots ≡ succ (store.count req.product_id st.slots))
        × (amount redis (total req.product_id) st'.stock + req.quantity
            ≡ amount redis (total req.product_id) st.stock)
        × ((held : Reservation) × (redis.hgetall reservation_id st'.stock ≡ some held)
            × (held.quantity ≡ req.quantity)
            × (held.status ≡ reserved))
        × (resp.reservation_id ≡ reservation_id))
      ⊎ ((is_completed resp.status ≡ false)
          × (store.count req.product_id st'.slots ≡ store.count req.product_id st.slots)
          × ((k : StockKey) → amount redis k st'.stock ≡ amount redis k st.stock))

  -- The slot that was taken is given back.
  queued-Settles :
      (now : Now) (reservation_id : String) (req : CheckoutRequest)
      (st held : State redis.R store.R)
      → store.count req.product_id held.slots ≡ succ (store.count req.product_id st.slots)
      → held.stock ≡ st.stock
      → Settles reservation_id req st
          (checkout_queued redis store sign hash before float64 now req held)
  unfolding checkout_queued cached join_waiting_room release_slot
  queued-Settles now reservation_id req st held up kept =
      let pid = req.product_id in
      inr (
        refl,
        store.count-delete_session pid (session_of req) (store.decr pid held.slots)
            ∙ store.count-decr pid pid held.slots
            ∙ rw (==-refl pid) (ap pred up ∙ pred-succ (store.count pid st.slots)),
        λ k. ap (amount redis k) kept,
      )

  reserved-Settles :
      (now : Now) (reservation_id order_id : String) (req : CheckoutRequest)
      (answer : redis.R × Decr) (st held : State redis.R store.R)
      → Reserves redis req.product_id req.quantity default_bucket_count st.stock answer
      → store.count req.product_id held.slots ≡ succ (store.count req.product_id st.slots)
      → Settles reservation_id req st (
          checkout_reserved redis store sign hash before float64 now reservation_id order_id req
            answer held)
  unfolding checkout_reserved cached create_reservation amount
  reserved-Settles now reservation_id order_id req (r, taken idx left) st held (lt, le, all, counts)
        up =
      let pid = req.product_id in
      let kept : Reservation = record {
        id = reservation_id;
        product_id = pid;
        user_id = req.user_id;
        quantity = req.quantity;
        bucket_idx = idx;
        status = reserved;
        created_at = now.milli;
        expires_at = now.milli + 300 * 1000;
        released_at = none;
      } in
      inl (
        refl,
        up,
        (ap (λ o. get_or o 0 + req.quantity) (redis.get-hset (total pid) reservation_id kept r)
            ∙ ap (λ n. n + req.quantity) (counts (total pid) ∙ rw (==-refl pid) refl)
            ∙ all),
        (
          kept,
          (redis.hgetall-hset reservation_id reservation_id kept r
              ∙ rw (==-refl reservation_id) refl),
          refl,
          refl,
        ),
        refl,
      )
  reserved-Settles now reservation_id order_id req (r, sold_out left) st held h up =
      queued-Settles now reservation_id req st (record held { stock = r }) up h.0
  reserved-Settles now reservation_id order_id req (r, no_bucket left) st held h up =
      queued-Settles now reservation_id req st (record held { stock = r }) up h.0

  slot-Settles :
      (now : Now) (reservation_id order_id : String) (req : CheckoutRequest)
      (st : State redis.R store.R)
      → Settles reservation_id req st
          (checkout_slot redis store sign hash before float64 now reservation_id order_id req st)
  unfolding checkout_slot cached acquire_slot
  slot-Settles now reservation_id order_id req st =
      let pid = req.product_id in
      let r1 = store.incr pid st.slots in
      let up : store.count pid r1 ≡ succ (store.count pid st.slots) =
        store.count-incr pid pid st.slots ∙ rw (==-refl pid) refl in
      elim (Bool-cases (at_most (store.count pid r1) default_max_slots)) [
        | inl t ↦ rw t (
            reserved-Settles now reservation_id order_id req _ st _
              (reserve_stock-Reserves redis hash pid req.device_fp req.quantity default_bucket_count
                st.stock (omega arith))
              (store.count-set_session pid (session_of req) (store.count pid r1) r1 ∙ up))
        | inr t ↦ rw t (
            inr (
              refl,
              store.count-decr pid pid r1
                  ∙ rw (==-refl pid) (ap pred up ∙ pred-succ (store.count pid st.slots)),
              λ k. refl,
            ))
      ]

  -- Checkout, on every path through its guards: a completed one holds one more slot of the product, has
  -- taken the quantity off the total and stores a reservation of it; every other one gives back the slot
  -- that it took and leaves all counters of the stock as they were.
  pub checkout-Settles :
      (now : Now) (reservation_id order_id : String) (req : CheckoutRequest)
      (st : State redis.R store.R)
      → Settles reservation_id req st
          (checkout redis store sign hash before float64 now reservation_id order_id req st)
  unfolding checkout checkout_new check_idempotency check_rate_limit cached
  checkout-Settles now reservation_id order_id req st =
      elim (Option-cases (lookup req.idempotency_key st.locks)) [
        | inr (locked, e) ↦ rw e elim (Option-cases (lookup req.idempotency_key st.results)) [
          | inl none_cached ↦ rw none_cached (inr (refl, refl, λ k. refl))
          | inr (resp, found) ↦ rw found (inr (refl, refl, λ k. refl))
        ]
        | inl e ↦
            rw e
              elim (Bool-cases
                (verify_attestation sign now.unix req.device_fp req.expires_at req.attestation)) [
                  | inr bad ↦ rw bad (inr (refl, refl, λ k. refl))
                  | inl good ↦
                      let locked = record st { locks = insert req.idempotency_key true st.locks } in
                      rw good
                        elim (Bool-cases (check_rate_limit now.milli req.device_fp locked).1) [
                          | inr over ↦ rw over (inr (refl, refl, λ k. refl))
                          | inl under ↦ rw under (
                              slot-Settles now reservation_id order_id req
                                (check_rate_limit now.milli req.device_fp locked).0)
                        ]
                ]
      ]
