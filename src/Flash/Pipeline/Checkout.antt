-- ===== src/Flash/Pipeline/Checkout.antt =====
-- services/flash-sale: service.go, Checkout, ReleaseReservation and SlotStatus.
use faisalaffan_design_syste.Base.{
  ℕ, ◌+◌, String, Bool, true, false, not, Option, none, some, ltb, if◌then◌else◌, str_append,
}
use faisalaffan_design_syste.Base.Redis.{Redis}
use faisalaffan_design_syste.Flash.Stock.{
  StockKey, stock_key, Reservation, Decr, taken, sold_out, no_bucket, reserve_stock,
  create_reservation, release_reservation,
}
use faisalaffan_design_syste.Flash.Slots.{SlotStore, acquire_slot, release_slot, slots_available}
use faisalaffan_design_syste.Flash.Pipeline.{
  check_idempotency, cached, check_rate_limit, join_waiting_room, default_bucket_count,
  default_max_slots, CheckoutRequest, CheckoutResponse, only_status, Now, verify_attestation,
  session_of, State, completed, queued, rate_limited, invalid_attestation, idempotency_conflict,
  slot_full,
}

module _ (redis : Redis StockKey Reservation) (store : SlotStore) (sign : String → ℕ → String)
    (hash : String → ℕ) (before : String → String → Bool) (float64 : ℕ → ℕ) where
  abbrev pub Answer : Type 0
  Answer = State redis.R store.R × CheckoutResponse

  -- The end of Checkout when no bucket has the quantity.
  unfoldable pub checkout_queued : Now → CheckoutRequest → State redis.R store.R → Answer
  unfolding join_waiting_room cached
  checkout_queued now req st =
      let joined =
        join_waiting_room before float64 now.nano req.product_id req.user_id
          (record st { slots = release_slot store req.product_id (session_of req) st.slots }) in
      cached req.idempotency_key
        (record { order_id = ""; reservation_id = ""; position = joined.1 + 1; status = queued })
        joined.0

  -- Step 5, on the answer of ReserveStock.
  unfoldable pub checkout_reserved :
      Now → String → String → CheckoutRequest → redis.R × Decr → State redis.R store.R → Answer
  unfolding checkout_queued cached
  checkout_reserved now reservation_id order_id req (r, taken idx left) st =
      cached req.idempotency_key
        (record {
          order_id = order_id;
          reservation_id = reservation_id;
          position = 0;
          status = completed;
        })
        (record st {
          stock =
              create_reservation redis now.milli req.product_id reservation_id req.user_id
                req.quantity idx r;
        })
  checkout_reserved now reservation_id order_id req (r, sold_out left) st =
      checkout_queued now req (record st { stock = r })
  checkout_reserved now reservation_id order_id req (r, no_bucket left) st =
      checkout_queued now req (record st { stock = r })

  -- Steps 4 and 5.
  unfoldable pub checkout_slot :
      Now → String → String → CheckoutRequest → State redis.R store.R → Answer
  unfolding checkout_reserved cached
  checkout_slot now reservation_id order_id req st =
      let slot = acquire_slot store req.product_id (session_of req) default_max_slots st.slots in
      let held = record st { slots = slot.0 } in
      if not slot.1
      then cached req.idempotency_key (only_status slot_full) held
      else checkout_reserved now reservation_id order_id req
          (reserve_stock redis hash req.product_id req.device_fp req.quantity default_bucket_count
            st.stock)
          held

  -- Steps 2 to 5.
  unfoldable pub checkout_new :
      Now → String → String → CheckoutRequest → State redis.R store.R → Answer
  unfolding verify_attestation check_rate_limit checkout_slot cached
  checkout_new now reservation_id order_id req st =
      if not (verify_attestation sign now.unix req.device_fp req.expires_at req.attestation)
      then cached req.idempotency_key (only_status invalid_attestation) st
      else (let limited = check_rate_limit now.milli req.device_fp st in
          if not limited.1
          then cached req.idempotency_key (only_status rate_limited) limited.0
          else checkout_slot now reservation_id order_id req limited.0)

  abbrev pub conflict_of : Option CheckoutResponse → CheckoutResponse
  conflict_of none = only_status idempotency_conflict
  conflict_of (some resp) = record resp { status = idempotency_conflict }

  -- `Checkout`
  unfoldable pub checkout : Now → String → String → CheckoutRequest → State redis.R store.R → Answer
  unfolding check_idempotency checkout_new
  checkout now reservation_id order_id req st =
      let first = check_idempotency req.idempotency_key st in
      if first.1
      then (first.0, conflict_of first.2)
      else checkout_new now reservation_id order_id req first.0

  -- `Service.ReleaseReservation`; false is the error of a reservation that is not found.
  unfoldable pub release :
      Now → String → String → String → State redis.R store.R → State redis.R store.R × Bool
  release now reservation_id product_id user_id st =
      let answer = release_reservation redis now.milli reservation_id st.stock in
      if answer.1
      then (
        record st {
          stock = answer.0;
          slots =
              release_slot store product_id (str_append product_id (str_append ":" user_id))
                st.slots;
        },
        true,
      )
      else (record st { stock = answer.0 }, false)

  -- `SlotStatus`: the available slots, and whether there are any.
  unfoldable pub slot_status : String → State redis.R store.R → ℕ × Bool
  slot_status product_id st =
      let avail = slots_available store product_id default_max_slots st.slots in
      (avail, ltb 0 avail)
