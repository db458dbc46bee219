-- ===== src/Flash/Stock.antt =====
-- services/flash-sale/store.go: the stock of a product, held as a total and as buckets, and its
-- reservations. A Lua script runs as one step; Redis is the interface of Base.Redis. A product's keys
-- are `flash:total:` and `flash:bucket:` with the product's id; `hash` is fnv.
pub mod Sums
pub mod Balance
pub mod Fill
pub mod Release
mod Samples
use faisalaffan_design_syste.Base.{
  ℕ, zero, suc, ◌+◌, ◌-◌, ◌*◌, ◌/◌, ◌%◌, String, ◌≡◌, ap, ◌↔◌, Bool, true, false, ◌&&◌, Option,
  none, some, arith, ltb, leb, if◌then◌else◌, HasEq, ◌==◌, nat_key, string_key, get_or,
}
use faisalaffan_design_syste.Base.Redis.{Redis}

pub data StockKey : Type 0 where
  total : String → StockKey
  bucket : String → ℕ → StockKey

abbrev pub stock_key_test : StockKey → StockKey → Bool
stock_key_test (total p) (total q) = p == q
stock_key_test (bucket p i) (bucket q j) = (p == q) && (i == j)
stock_key_test (total p) (bucket q j) = false
stock_key_test (bucket p i) (total q) = false

pub stock_key_test_iff : (x y : StockKey) → (stock_key_test x y ≡ true) ↔ (x ≡ y)
stock_key_test_iff (total p) (total q) =
    (λ h. ap total ((string_key.test_iff p q).0 h), λ h. (string_key.test_iff p q).1 (cc h))
stock_key_test_iff (bucket p i) (bucket q j) = ground (arith, string_key.test_iff p q)
stock_key_test_iff (total p) (bucket q j) = (λ h. absurd (cc h), λ h. absurd (cc h))
stock_key_test_iff (bucket p i) (total q) = (λ h. absurd (cc h), λ h. absurd (cc h))

instance abbrev pub stock_key : HasEq StockKey
stock_key = record { test = stock_key_test; test_iff = stock_key_test_iff }

pub data ReservationStatus : Type 0 where
  reserved : ReservationStatus
  released : ReservationStatus
  confirmed : ReservationStatus

-- The hash `flash:res:` of a reservation.
pub record Reservation : Type 0 where
  pub id : String
  pub product_id : String
  pub user_id : String
  pub quantity : ℕ
  pub bucket_idx : ℕ
  pub status : ReservationStatus
  pub created_at : ℕ
  pub expires_at : ℕ
  pub released_at : Option ℕ

-- What the script of ReserveStock answers: the bucket and the total left, or -2 or -3 and the total.
pub data Decr : Type 0 where
  taken : ℕ → ℕ → Decr
  sold_out : ℕ → Decr
  no_bucket : ℕ → Decr

-- The script returns early on a reservation that is no longer reserved.
abbrev pub is_settled : ReservationStatus → Bool
is_settled reserved = false
is_settled released = true
is_settled confirmed = true

module _ (redis : Redis StockKey Reservation) where
  open redis use {R}

  -- `tonumber(redis.call("GET", key) or "0")`
  unfoldable pub amount : StockKey → R → ℕ
  amount k r = get_or (redis.get k r) 0

  -- The loop of luaBucketDecr from round `i`, with `n` rounds left.
  unfoldable pub try_buckets : String → ℕ → ℕ → ℕ → ℕ → ℕ → R → R × Decr
  unfolding amount
  try_buckets pid qty count start zero i r = (r, no_bucket (amount (total pid) r))
  try_buckets pid qty count start (suc n) i r =
      let idx = (start + i) % count in
      let rest = try_buckets pid qty count start n (i + 1) r in
      if leb qty (amount (bucket pid idx) r)
      then (
        redis.decr_by (total pid) qty (redis.decr_by (bucket pid idx) qty r),
        taken idx (amount (total pid) r - qty),
      )
      else rest

  -- luaBucketDecr
  unfoldable pub bucket_decr : String → ℕ → ℕ → ℕ → R → R × Decr
  unfolding try_buckets
  bucket_decr pid qty count start r =
      let left = amount (total pid) r in
      if ltb left qty then (r, sold_out left) else try_buckets pid qty count start count 0 r

  -- `ReserveStock`
  unfoldable pub reserve_stock : (String → ℕ) → String → String → ℕ → ℕ → R → R × Decr
  unfolding bucket_decr
  reserve_stock hash pid device_fp qty count r =
      bucket_decr pid qty count (hash device_fp % count) r

  -- `CreateReservation`: the reservation lives for five minutes.
  unfoldable pub create_reservation : ℕ → String → String → String → ℕ → ℕ → R → R
  create_reservation now pid id user_id qty idx r =
      redis.hset id
        (record {
          id = id;
          product_id = pid;
          user_id = user_id;
          quantity = qty;
          bucket_idx = idx;
          status = reserved;
          created_at = now;
          expires_at = now + 300 * 1000;
          released_at = none;
        })
        r

  -- luaRelease on the hash it has read; false is the answer -1, not found.
  unfoldable pub release_found : ℕ → String → Option Reservation → R → R × Bool
  release_found now id none r = (r, false)
  release_found now id (some res) r =
      let r1 = redis.hset id (record res { status = released; released_at = some now }) r in
      let r2 = redis.incr_by (bucket res.product_id res.bucket_idx) res.quantity r1 in
      if is_settled res.status
      then (r, true)
      else (redis.incr_by (total res.product_id) res.quantity r2, true)

  -- `ReleaseReservation`
  unfoldable pub release_reservation : ℕ → String → R → R × Bool
  unfolding release_found
  release_reservation now id r = release_found now id (redis.hgetall id r) r

  -- The loop of InitProduct from bucket `i`, with `n` buckets left.
  unfoldable pub fill_buckets : String → ℕ → ℕ → ℕ → ℕ → R → R
  fill_buckets pid base rem zero i r = r
  fill_buckets pid base rem (suc n) i r =
      fill_buckets pid base rem n (i + 1)
        (redis.set (bucket pid i) (if ltb i rem then base + 1 else base) r)

  -- `InitProduct`
  unfoldable pub init_product : String → ℕ → ℕ → R → R
  unfolding fill_buckets
  init_product pid stock count r =
      fill_buckets pid (stock / count) (stock % count) count 0 (redis.set (total pid) stock r)

  -- `RemainingStock`
  unfoldable pub remaining_stock : String → R → ℕ
  unfolding amount
  remaining_stock pid r = amount (total pid) r
