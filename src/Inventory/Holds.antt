-- ===== src/Inventory/Holds.antt =====
-- services/inventory-service/repository/redis.go: what Reserve, Release and ConfirmReservation answer
-- and write, on every branch.
use faisalaffan_design_syste.Base.{
  ℕ, ◌+◌, ◌-◌, ◌*◌, ◌≤◌, ◌<◌, String, ◌≡◌, refl, ap, ◌∙◌, inl, inr, true, false, Option, none, some,
  arith, ltb, if◌then◌else◌, ltb→lt, Bool-cases, Option-cases, ◌==◌, nat_key, string_key, ==-refl,
  get_or,
}
use faisalaffan_design_syste.Base.Redis.{Redis}
use faisalaffan_design_syste.Inventory.{
  stock, reserved, released, is_reserved, Reservation, ReserveCode, sku_not_found,
  insufficient_stock, remaining, ReleaseCode, not_found, wrong_status, given_back, ReserveItem,
  reserve_script, repo_reserve, release_script, repo_release, get_stock,
}

module _ (redis : Redis String Reservation) where
  open redis use {R}

  pub stock-decr_by :
      (hub sku h s : String) (q : ℕ) (r : R)
      → q ≤ get_stock redis hub sku r
      → get_stock redis h s (redis.decr_by (stock hub sku) q r) ≡ (
          if stock hub sku == stock h s
          then get_stock redis hub sku r - q
          else get_stock redis h s r)
  unfolding get_stock
  stock-decr_by hub sku h s q r le =
      ap (λ o. get_or o 0) (redis.get-decr_by (stock hub sku) (stock h s) q r le)
      ∙ elim (Bool-cases (stock hub sku == stock h s)) [ inl t ↦ rw t refl | inr t ↦ rw t refl ]

  pub stock-incr_by :
      (hub sku h s : String) (q : ℕ) (r : R)
      → get_stock redis h s (redis.incr_by (stock hub sku) q r) ≡ (
          if stock hub sku == stock h s
          then get_stock redis hub sku r + q
          else get_stock redis h s r)
  unfolding get_stock
  stock-incr_by hub sku h s q r =
      ap (λ o. get_or o 0) (redis.get-incr_by (stock hub sku) (stock h s) q r)
      ∙ elim (Bool-cases (stock hub sku == stock h s)) [ inl t ↦ rw t refl | inr t ↦ rw t refl ]

  pub stock-hset :
      (h s id : String) (res : Reservation) (r : R)
      → get_stock redis h s (redis.hset id res r) ≡ get_stock redis h s r
  unfolding get_stock
  stock-hset h s id res r = ap (λ o. get_or o 0) (redis.get-hset (stock h s) id res r)

  -- The answer to a request for one item, and what it says of the stores.
  abbrev pub Reserves : String → ReserveItem → String → R → R × ReserveCode → Type 0
  Reserves hub item id r (r', remaining n) =
      (item.quantity ≤ get_stock redis hub item.sku r)
      × (n ≡ get_stock redis hub item.sku r')
      × ((h s : String)
          → get_stock redis h s r' ≡ (
              if stock hub item.sku == stock h s
              then get_stock redis hub item.sku r - item.quantity
              else get_stock redis h s r))
      × ((res : Reservation) × (redis.hgetall id r' ≡ some res)
          × (res.sku ≡ item.sku)
          × (res.quantity ≡ item.quantity)
          × (res.status ≡ reserved))
  Reserves hub item id r (r', sku_not_found) = (r' ≡ r) × (redis.get (stock hub item.sku) r ≡ none)
  Reserves hub item id r (r', insufficient_stock n) =
      (r' ≡ r) × (get_stock redis hub item.sku r ≡ n) × (n < item.quantity)

  -- Reserve on one item takes the quantity off the stock of that hub and SKU alone and stores a
  -- reservation with its SKU and quantity, when the stock is there and large enough; it writes nothing
  -- otherwise, answering not found without a stock and insufficient with less than the quantity.
  pub repo_reserve-Reserves :
      (hub : String) (item : ReserveItem) (id user_id cart_id : String) (ttl now : ℕ) (r : R)
      → Reserves hub item id r (repo_reserve redis hub item id user_id cart_id ttl now r)
  unfolding repo_reserve reserve_script get_stock
  repo_reserve-Reserves hub item id user_id cart_id ttl now r =
      elim (Option-cases (redis.get (stock hub item.sku) r)) [
        | inl e ↦ rw e (refl, e)
        | inr (n, e) ↦ elim (Bool-cases (ltb n item.quantity)) [
          | inl t ↦ rw e (rw t (refl, ap (λ o. get_or o 0) e, ltb→lt n item.quantity t))
          | inr t ↦
              let have : get_or (redis.get (stock hub item.sku) r) 0 ≡ n = ap (λ o. get_or o 0) e in
              let le : item.quantity ≤ get_stock redis hub item.sku r = ground (arith, t, have) in
              let res : Reservation = record {
                reservation_id = id;
                sku = item.sku;
                quantity = item.quantity;
                user_id = user_id;
                cart_id = cart_id;
                status = reserved;
                created_at = now;
                expires_at = now + ttl * 1000;
              } in
              let r1 = redis.decr_by (stock hub item.sku) item.quantity r in
              rw e (
                rw t (
                  le,
                  refl,
                  λ h s.
                      stock-hset h s id res r1 ∙ stock-decr_by hub item.sku h s item.quantity r le,
                  (res, redis.hgetall-hset id id res r1 ∙ rw (==-refl id) refl, refl, refl, refl),
                ))
        ]
      ]

  -- What a release answers and writes, by the reservation that is stored under the id.
  abbrev pub Releases : String → String → String → R → Option Reservation → R × ReleaseCode → Type 0
  Releases id hub sku r none answer = answer ≡ (r, not_found)
  Releases id hub sku r (some res) (r', code) =
      (is_reserved res.status ≡ false → (r' ≡ r) × (code ≡ wrong_status))
      × (is_reserved res.status ≡ true
          → (code ≡ given_back res.quantity)
            × (redis.hgetall id r' ≡ some (record res { status = released }))
            × ((h s : String)
                → get_stock redis h s r' ≡ (
                    if stock hub sku == stock h s
                    then get_stock redis hub sku r + res.quantity
                    else get_stock redis h s r)))

  pub release_script-Releases :
      (id hub sku : String) (o : Option Reservation) (r : R)
      → Releases id hub sku r o (release_script redis id (stock hub sku) o r)
  unfolding release_script
  release_script-Releases id hub sku none r = refl
  release_script-Releases id hub sku (some res) r =
      let res' : Reservation = record res { status = released } in
      let r1 = redis.hset id res' r in
      elim (Bool-cases (is_reserved res.status)) [
        | inl t ↦ rw t (
          λ h. absurd (cc h),
          λ h. (
            refl,
            redis.hgetall-incr_by id (stock hub sku) res.quantity r1
                ∙ redis.hgetall-hset id id res' r
                ∙ rw (==-refl id) refl,
            λ h s.
                stock-incr_by hub sku h s res.quantity r1
                ∙ rw (stock-hset hub sku id res' r) (rw (stock-hset h s id res' r) refl),
          ),
        )
        | inr t ↦ rw t (λ h. (refl, refl), λ h. absurd (cc h))
      ]

  -- Release answers not found on an unknown id and wrong status on a reservation that is no longer
  -- reserved, writing nothing; otherwise it marks it released and adds the reservation's quantity to
  -- the stock of the hub and SKU that the caller names, and to no other.
  pub repo_release-Releases :
      (id hub sku : String) (r : R)
      → Releases id hub sku r (redis.hgetall id r) (repo_release redis id hub sku r)
  unfolding repo_release
  repo_release-Releases id hub sku r = release_script-Releases id hub sku (redis.hgetall id r) r
