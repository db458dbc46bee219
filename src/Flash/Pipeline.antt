-- ===== src/Flash/Pipeline.antt =====
-- services/flash-sale: service.go, Checkout and what it calls of store.go beside the stock and the slots.
-- A key is read within its time to live. `sign` is the hex of the HMAC under the secret; the clock is
-- read in seconds, milliseconds and nanoseconds; ids are arguments. A checkout runs as one step. Errors of the connection are left
-- out, so that every method answers.
pub mod Checkout
pub mod Balance
pub mod Queue
mod Samples
use faisalaffan_design_syste.Base.{
  ℕ, ◌+◌, ◌-◌, String, Bool, true, false, ◌&&◌, ◌||◌, Option, none, some, List, [], ◌∷◌, ltb, leb,
  if◌then◌else◌, length, keep, ◌==◌, nat_key, string_key, lookup, insert, get_or, str_append,
}
use faisalaffan_design_syste.Base.Redis.{Redis}
use faisalaffan_design_syste.Flash.Stock.{
  StockKey, stock_key, Reservation, Decr, taken, sold_out, no_bucket, reserve_stock,
  create_reservation, release_reservation,
}
use faisalaffan_design_syste.Flash.Slots.{SlotStore, acquire_slot, release_slot, slots_available}
use faisalaffan_design_syste.Base.Ints.{ℤ}

pub data Status : Type 0 where
  completed queued rate_limited invalid_attestation idempotency_conflict slot_full : Status
  lottery_entered lottery_winner lottery_loser : Status

abbrev pub default_bucket_count : ℕ
default_bucket_count = 10

abbrev pub default_rate_limit_window : ℕ
default_rate_limit_window = 1000

abbrev pub default_rate_limit_burst : ℕ
default_rate_limit_burst = 20

abbrev pub default_max_slots : ℕ
default_max_slots = 1000

pub record CheckoutRequest : Type 0 where
  pub product_id : String
  pub user_id : String
  pub device_fp : String
  pub attestation : String
  pub expires_at : ℕ
  pub quantity : ℕ
  pub idempotency_key : String

pub record CheckoutResponse : Type 0 where
  pub order_id : String
  pub reservation_id : String
  pub position : ℕ
  pub status : Status

abbrev pub only_status : Status → CheckoutResponse
only_status s = record { order_id = ""; reservation_id = ""; position = 0; status = s }

pub record Now : Type 0 where
  pub unix : ℕ
  pub milli : ℕ
  pub nano : ℕ

-- `VerifyAttestation` and `GenerateToken`
unfoldable pub verify_attestation : (String → ℕ → String) → ℕ → String → ℕ → String → Bool
verify_attestation sign now device_fp expires_at token =
    if ltb 30 (now - expires_at) || ltb 30 (expires_at - now)
    then false
    else sign device_fp expires_at == token

unfoldable pub generate_token : (String → ℕ → String) → ℕ → String → String × ℕ
generate_token sign now device_fp = (sign device_fp (now + 30), now + 30)

-- luaRateLimit on the scores of a device: true admits.
unfoldable pub rate_window : ℕ → List ℕ → List ℕ × Bool
rate_window now scores =
    let kept = keep (λ t. ltb (now - default_rate_limit_window) t) scores in
    if leb default_rate_limit_burst (length kept) then (kept, false) else (now ∷ kept, true)

-- A sorted set of members with scores; ties are in the order of the members.
abbrev pub Waiting : Type 0
Waiting = List (String × ℕ)

unfoldable pub is_member : String → Waiting → Bool
is_member member [] = false
is_member member (z ∷ rest) = (z.0 == member) || is_member member rest

unfoldable pub z_place : (String → String → Bool) → String → ℕ → Waiting → Waiting
z_place before member score [] = (member, score) ∷ []
z_place before member score (z ∷ rest) =
    if ltb score z.1 || ((score == z.1) && before member z.0)
    then (member, score) ∷ z ∷ rest
    else z ∷ z_place before member score rest

-- ZADD NX
unfoldable pub z_add_nx : (String → String → Bool) → String → ℕ → Waiting → Waiting
unfolding is_member z_place
z_add_nx before member score zs = if is_member member zs then zs else z_place before member score zs

abbrev pub one_more : Option ℕ → Option ℕ
one_more none = none
one_more (some n) = some (n + 1)

-- ZRANK
unfoldable pub z_rank : String → Waiting → Option ℕ
z_rank member [] = none
z_rank member (z ∷ rest) = if z.0 == member then some 0 else one_more (z_rank member rest)

abbrev pub session_of : CheckoutRequest → String
session_of req = str_append req.product_id (str_append ":" req.user_id)

-- What the service keeps in Redis: `S` is the stock and `T` the slots.
pub record State (S T : Type 0) : Type 0 where
  pub stock : S
  pub slots : T
  pub locks : List (String × Bool)
  pub results : List (String × CheckoutResponse)
  pub windows : List (String × List ℕ)
  pub waiting : List (String × Waiting)

module _ {S T : Type 0} where
  -- `CheckIdempotency`: the lock is set, or there is one and the cached result is read.
  unfoldable pub check_idempotency : String → State S T → State S T × Bool × Option CheckoutResponse
  check_idempotency key st = of_lock (lookup key st.locks)
    where
      of_lock : Option Bool → State S T × Bool × Option CheckoutResponse
      of_lock none = (record st { locks = insert key true st.locks }, false, none)
      of_lock (some locked) = (st, true, lookup key st.results)

  -- `cacheResult`, with the answer.
  unfoldable pub cached : String → CheckoutResponse → State S T → State S T × CheckoutResponse
  cached key resp st = (record st { results = insert key resp st.results }, resp)

  -- `CheckRateLimit`
  unfoldable pub check_rate_limit : ℕ → String → State S T → State S T × Bool
  unfolding rate_window
  check_rate_limit now device_fp st =
      let answer = rate_window now (get_or (lookup device_fp st.windows) []) in
      (record st { windows = insert device_fp answer.0 st.windows }, answer.1)

  -- `JoinWaitingRoom` and `QueuePosition`; `float64` is the integer that the conversion of a reading of
  -- the clock to a float64 stands for, so that readings that are close have one score.
  unfoldable pub join_waiting_room :
      (String → String → Bool) → (ℕ → ℕ) → ℕ → String → String → State S T → State S T × ℕ
  unfolding z_add_nx z_rank
  join_waiting_room before float64 now product_id user_id st =
      let room = z_add_nx before user_id (float64 now) (get_or (lookup product_id st.waiting) []) in
      (record st { waiting = insert product_id room st.waiting }, get_or (z_rank user_id room) 0)

  unfoldable pub queue_position : String → String → State S T → Option ℕ
  unfolding z_rank
  queue_position product_id user_id st = z_rank user_id (get_or (lookup product_id st.waiting) [])

  -- `QueueStatus`: none is sold_out.
  unfoldable pub queue_status : String → String → State S T → Option ℕ
  unfolding queue_position
  queue_status product_id user_id st = one_more (queue_position product_id user_id st)
