-- ===== src/Inventory.antt =====
-- services/inventory-service: the Lua scripts and the repository (repository/redis.go) and the service
-- over it (service/service.go). Redis is the interface of Base.Redis; a script runs as one step, and so do
-- the calls of ConfirmReservation and those of a round of RunReaper. A
-- reservation that EXPIRE has dropped reads as absent. Errors of the connection are left out, and so
-- are the fields that no code reads: released_at, confirmed_at and the response's constant status.
pub mod Holds
pub mod Carts
pub mod Rollback
pub mod Reaper
mod Samples
use faisalaffan_design_syste.Base.{
  ℕ, ◌+◌, ◌*◌, String, Bool, true, false, ◌&&◌, Option, none, some, List, [], ◌∷◌, ◌++◌, ltb,
  if◌then◌else◌, nat_key, string_key, get_or, str_append,
}
use faisalaffan_design_syste.Base.Redis.{Redis}

-- `stockKeyPrefix`: two pairs of a hub and a SKU may have one key, when their ids hold colons.
pub stock : String → String → String
stock hub sku = str_append "inv:stock:" (str_append hub (str_append ":" sku))

pub data Status : Type 0 where
  reserved : Status
  confirmed : Status
  released : Status
  expired : Status

abbrev pub is_reserved : Status → Bool
is_reserved reserved = true
is_reserved confirmed = false
is_reserved released = false
is_reserved expired = false

pub record Reservation : Type 0 where
  pub reservation_id : String
  pub sku : String
  pub quantity : ℕ
  pub user_id : String
  pub cart_id : String
  pub status : Status
  pub created_at : ℕ
  pub expires_at : ℕ

-- The answers of the two scripts.
pub data ReserveCode : Type 0 where
  sku_not_found : ReserveCode
  insufficient_stock : ℕ → ReserveCode
  remaining : ℕ → ReserveCode

pub data ReleaseCode : Type 0 where
  not_found : ReleaseCode
  wrong_status : ReleaseCode
  given_back : ℕ → ReleaseCode

pub record ReserveItem : Type 0 where
  pub sku : String
  pub quantity : ℕ

pub record ReservedItem : Type 0 where
  pub sku : String
  pub quantity : ℕ
  pub remaining : ℕ

pub record ReserveRequest : Type 0 where
  pub hub_id : String
  pub cart_id : String
  pub user_id : String
  pub items : List ReserveItem

pub record ReserveResponse : Type 0 where
  pub reservation_id : String
  pub items : List ReservedItem
  pub expires_at : ℕ

-- The error of `Reserve`: the SKU it names and the script's answer.
pub record ReserveError : Type 0 where
  pub sku : String
  pub cause : ReserveCode

pub data Result (A : Type 0) : Type 0 where
  ok : A → Result A
  failed : ReserveError → Result A

-- `ttl := 15 * time.Minute`, in seconds.
abbrev pub default_ttl : ℕ
default_ttl = 900

module _ (redis : Redis String Reservation) where
  open redis use {R}

  -- reserveScript on the stock it has read. `now` is in seconds and `ttl * 1000` in milliseconds.
  unfoldable pub reserve_script : String → Reservation → ℕ → ℕ → Option ℕ → R → R × ReserveCode
  reserve_script key res ttl now none r = (r, sku_not_found)
  reserve_script key res ttl now (some available) r =
      let r1 = redis.decr_by key res.quantity r in
      let r2 =
        redis.hset res.reservation_id
          (record res { status = reserved; created_at = now; expires_at = now + ttl * 1000 }) r1 in
      if ltb available res.quantity
      then (r, insufficient_stock available)
      else (r2, remaining (get_or (redis.get key r2) 0))

  -- `InventoryRepo.Reserve`
  unfoldable pub repo_reserve :
      String → ReserveItem → String → String → String → ℕ → ℕ → R → R × ReserveCode
  unfolding reserve_script
  repo_reserve hub item id user_id cart_id ttl now r =
      let res : Reservation = record {
        reservation_id = id;
        sku = item.sku;
        quantity = item.quantity;
        user_id = user_id;
        cart_id = cart_id;
        status = reserved;
        created_at = now;
        expires_at = now;
      } in
      reserve_script (stock hub item.sku) res ttl now (redis.get (stock hub item.sku) r) r

  -- releaseScript on the hash it has read.
  unfoldable pub release_script : String → String → Option Reservation → R → R × ReleaseCode
  release_script id key none r = (r, not_found)
  release_script id key (some res) r =
      if is_reserved res.status
      then (
        redis.incr_by key res.quantity (redis.hset id (record res { status = released }) r),
        given_back res.quantity,
      )
      else (r, wrong_status)

  -- `InventoryRepo.Release`
  unfoldable pub repo_release : String → String → String → R → R × ReleaseCode
  unfolding release_script
  repo_release id hub sku r = release_script id (stock hub sku) (redis.hgetall id r) r

  -- `InventoryRepo.GetStock`, `SetStock`
  unfoldable pub get_stock : String → String → R → ℕ
  get_stock hub sku r = get_or (redis.get (stock hub sku) r) 0

  unfoldable pub set_stock : String → String → ℕ → R → R
  set_stock hub sku qty r = redis.set (stock hub sku) qty r

  -- `InventoryRepo.ConfirmReservation`; false is the error, not found.
  unfoldable pub confirm_found : String → Option Reservation → R → R × Bool
  confirm_found id none r = (r, false)
  confirm_found id (some res) r = (redis.hset id (record res { status = confirmed }) r, true)

  unfoldable pub confirm_reservation : String → R → R × Bool
  unfolding confirm_found
  confirm_reservation id r = confirm_found id (redis.hgetall id r) r

  -- RunReaper on the parts of a key, and on the hash that it has read.
  unfoldable pub reap_parts : ℕ → String → List String → Option Reservation → R × ℕ → R × ℕ
  reap_parts now id (first ∷ hub ∷ third ∷ parts) (some res) (r, n) =
      let r1 = redis.incr_by (stock hub res.sku) res.quantity r in
      if is_reserved res.status && ltb (res.expires_at + 30000) now
      then (redis.hset id (record res { status = expired }) r1, n + 1)
      else (r, n)
  reap_parts now id _ _ (r, n) = (r, n)

  -- A round of RunReaper, with `split` for strings.Split.
  unfoldable pub reap : (String → String → List String) → ℕ → String → R × ℕ → R × ℕ
  unfolding reap_parts
  reap split now id acc =
      reap_parts now id (split (str_append "inv:reservation:" id) ":") (redis.hgetall id acc.0) acc

  -- RunReaper over the ids that SCAN yields; it returns how many it released.
  unfoldable pub run_reaper : (String → String → List String) → ℕ → List String → R × ℕ → R × ℕ
  unfolding reap
  run_reaper split now [] acc = acc
  run_reaper split now (id ∷ ids) acc = run_reaper split now ids (reap split now id acc)

  -- The rollback of the service's `Reserve`.
  unfoldable pub release_all : String → String → List ReservedItem → R → R
  unfolding repo_release
  release_all id hub [] r = r
  release_all id hub (prev ∷ items) r = release_all id hub items (repo_release id hub prev.sku r).0

  -- What follows the repository's answer for one item: `done` are the items reserved so far.
  unfoldable pub after_item :
      String
      → String
      → ReserveItem
      → List ReservedItem
      → (List ReservedItem → R → R × Result (List ReservedItem))
      → R × ReserveCode
      → R × Result (List ReservedItem)
  unfolding release_all
  after_item id hub item done rest (r, remaining n) =
      rest (done ++ record { sku = item.sku; quantity = item.quantity; remaining = n } ∷ []) r
  after_item id hub item done rest (r, sku_not_found) =
      (release_all id hub done r, failed (record { sku = item.sku; cause = sku_not_found }))
  after_item id hub item done rest (r, insufficient_stock n) =
      (release_all id hub done r, failed (record { sku = item.sku; cause = insufficient_stock n }))

  -- The loop of the service's `Reserve`.
  unfoldable pub reserve_items :
      String
      → ReserveRequest
      → ℕ
      → List ReserveItem
      → List ReservedItem
      → R
      → R × Result (List ReservedItem)
  unfolding after_item repo_reserve
  reserve_items id req now [] done r = (r, ok done)
  reserve_items id req now (item ∷ items) done r =
      after_item id req.hub_id item done (reserve_items id req now items)
        (repo_reserve req.hub_id item id req.user_id req.cart_id default_ttl now r)

  abbrev pub response_of : String → ℕ → R × Result (List ReservedItem) → R × Result ReserveResponse
  response_of id now (r, ok items) = (
    r,
    ok (record {
      reservation_id = id;
      items = items;
      expires_at = now * 1000 + default_ttl * 1000;
    }),
  )
  response_of id now (r, failed e) = (r, failed e)

  -- The service's `Reserve`, with the fresh id and the time in whole seconds.
  unfoldable pub reserve : String → ReserveRequest → ℕ → R → R × Result ReserveResponse
  unfolding reserve_items
  reserve id req now r = response_of id now (reserve_items id req now req.items [] r)
