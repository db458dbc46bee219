-- ===== src/Flash/Stock/Release.antt =====
-- The reservations of services/flash-sale/store.go: what a release gives back.
use faisalaffan_design_syste.Base.{
  ℕ, ◌+◌, ◌-◌, ◌*◌, String, ◌≡◌, refl, sym, ap, ◌∙◌, inl, inr, Bool, true, false, Option, none,
  some, arith, if◌then◌else◌, Bool-cases, ◌==◌, nat_key, string_key, ==-refl, get_or,
}
use faisalaffan_design_syste.Base.Redis.{Redis}
use faisalaffan_design_syste.Flash.Stock.{
  StockKey, total, bucket, Reservation, reserved, released, taken, amount, create_reservation,
  release_found, release_reservation, stock_key, stock_key_test_iff, is_settled,
}
use faisalaffan_design_syste.Flash.Stock.Balance.{Reserves}

module _ (redis : Redis StockKey Reservation) where
  open redis use {R}

  amount-incr_by :
      (k j : StockKey) (q : ℕ) (r : R)
      → amount redis j (redis.incr_by k q r)
        ≡ (if k == j then amount redis k r + q else amount redis j r)
  unfolding amount
  amount-incr_by k j q r =
      ap (λ o. get_or o 0) (redis.get-incr_by k j q r)
      ∙ elim (Bool-cases (k == j)) [ inl t ↦ rw t refl | inr t ↦ rw t refl ]

  amount-hset :
      (k : StockKey) (id : String) (res : Reservation) (r : R)
      → amount redis k (redis.hset id res r) ≡ amount redis k r
  unfolding amount
  amount-hset k id res r = ap (λ o. get_or o 0) (redis.get-hset k id res r)

  -- The counters after the three writes of a release.
  gives_back :
      (pid id : String) (idx qty : ℕ) (res : Reservation) (r : R) (k : StockKey)
      → amount redis k
          (redis.incr_by (total pid) qty (redis.incr_by (bucket pid idx) qty (redis.hset id res r)))
        ≡ (if total pid == k
            then amount redis (total pid) r + qty
            else if bucket pid idx == k
            then amount redis (bucket pid idx) r + qty
            else amount redis k r)
  gives_back pid id idx qty res r k =
      let r1 = redis.hset id res r in
      let r2 = redis.incr_by (bucket pid idx) qty r1 in
      let e : amount redis (total pid) r2 ≡ amount redis (total pid) r =
        amount-incr_by (bucket pid idx) (total pid) qty r1 ∙ amount-hset (total pid) id res r in
      rw (amount-incr_by (total pid) k qty r2) (
        rw e (
          rw (amount-incr_by (bucket pid idx) k qty r1)
            (rw (amount-hset (bucket pid idx) id res r) (rw (amount-hset k id res r) refl))))

  -- What a release answers and writes, by the reservation that is stored under the id.
  abbrev pub Releases : ℕ → String → R → Option Reservation → R × Bool → Type 0
  Releases now id r none (r', found) = (r' ≡ r) × (found ≡ false)
  Releases now id r (some res) (r', found) =
      (found ≡ true)
      × (is_settled res.status ≡ true → r' ≡ r)
      × (is_settled res.status ≡ false
          → (redis.hgetall id r' ≡ some (record res { status = released; released_at = some now }))
            × ((k : StockKey)
                → amount redis k r' ≡ (
                    if total res.product_id == k
                    then amount redis (total res.product_id) r + res.quantity
                    else if bucket res.product_id res.bucket_idx == k
                    then amount redis (bucket res.product_id res.bucket_idx) r + res.quantity
                    else amount redis k r)))

  release_found-Releases :
      (now : ℕ) (id : String) (o : Option Reservation) (r : R)
      → Releases now id r o (release_found redis now id o r)
  unfolding release_found
  release_found-Releases now id none r = (refl, refl)
  release_found-Releases now id (some res) r =
      let res' : Reservation = record res { status = released; released_at = some now } in
      let r1 = redis.hset id res' r in
      let r2 = redis.incr_by (bucket res.product_id res.bucket_idx) res.quantity r1 in
      elim (Bool-cases (is_settled res.status)) [
        | inl t ↦ rw t (refl, λ h. refl, λ h. absurd (cc h))
        | inr t ↦ rw t (
          refl,
          λ h. absurd (cc h),
          λ h. (
            redis.hgetall-incr_by id (total res.product_id) res.quantity r2
                ∙ redis.hgetall-incr_by id (bucket res.product_id res.bucket_idx) res.quantity r1
                ∙ redis.hgetall-hset id id res' r
                ∙ rw (==-refl id) refl,
            gives_back res.product_id id res.bucket_idx res.quantity res' r,
          ),
        )
      ]

  -- ReleaseReservation answers not found, and writes nothing, on an unknown id; it answers with
  -- success and writes nothing on a reservation that is released or confirmed; and on any other it
  -- marks the reservation released and adds its quantity to its bucket and to the product's total,
  -- and to no other counter.
  pub release_reservation_cases :
      (now : ℕ) (id : String) (r : R)
      → Releases now id r (redis.hgetall id r) (release_reservation redis now id r)
  unfolding release_reservation
  release_reservation_cases now id r = release_found-Releases now id (redis.hgetall id r) r

  found_twice :
      (now later : ℕ) (id : String) (r : R) (o : Option Reservation)
      → redis.hgetall id r ≡ o
      → release_found redis later id
          (redis.hgetall id (release_found redis now id o r).0)
          (release_found redis now id o r).0
        ≡ ((release_found redis now id o r).0, (release_found redis now id o r).1)
  unfolding release_found
  found_twice now later id r none e = rw e refl
  found_twice now later id r (some res) e = elim (Bool-cases (is_settled res.status)) [
    | inl t ↦ rw t (rw e (rw t refl))
    | inr t ↦
        let r' = (release_found redis now id (some res) r).0 in
        let written = release_found-Releases now id (some res) r in
        ap (λ o. release_found redis later id o r') (written.2 t).0
        ∙ ap (λ b. (r', b)) (sym written.0)
  ]

  -- Releasing a reservation a second time, at any later time, answers the same and writes nothing.
  pub release_reservation_twice :
      (now later : ℕ) (id : String) (r : R)
      → release_reservation redis later id (release_reservation redis now id r).0
        ≡ release_reservation redis now id r
  unfolding release_reservation
  release_reservation_twice now later id r = found_twice now later id r (redis.hgetall id r) refl

  -- When ReserveStock takes a quantity from a bucket and the reservation that is created for it is
  -- released, at any later time, every counter of every product is what it was before.
  pub released_restores :
      (now later : ℕ) (pid id user_id : String) (qty count : ℕ) (r r' : R) (idx left : ℕ)
      → Reserves redis pid qty count r (r', taken idx left)
      → (k : StockKey)
      → amount redis k
          (release_reservation redis later id
            (create_reservation redis now pid id user_id qty idx r')).0
        ≡ amount redis k r
  unfolding create_reservation release_reservation
  released_restores now later pid id user_id qty count r r' idx left h k =
      let key_of : (x : StockKey) → (x == k) ≡ true → amount redis x r ≡ amount redis k r =
        λ x t. ap (λ y. amount redis y r) ((stock_key_test_iff x k).0 t) in
      let res : Reservation = record {
        id = id;
        product_id = pid;
        user_id = user_id;
        quantity = qty;
        bucket_idx = idx;
        status = reserved;
        created_at = now;
        expires_at = now + 300 * 1000;
        released_at = none;
      } in
      let r1 = redis.hset id res r' in
      let e : redis.hgetall id r1 ≡ some res =
        redis.hgetall-hset id id res r' ∙ rw (==-refl id) refl in
      let all : amount redis (total pid) r1 ≡ left =
        amount-hset (total pid) id res r' ∙ h.3 (total pid) ∙ rw (==-refl pid) refl in
      let one : amount redis (bucket pid idx) r1 ≡ amount redis (bucket pid idx) r - qty =
        amount-hset (bucket pid idx) id res r'
        ∙ h.3 (bucket pid idx)
        ∙ rw (==-refl pid) (rw (==-refl idx) refl) in
      rw e (
        ((release_found-Releases later id (some res) r1).2 refl).1 k
        ∙ rw all (
            rw one (
              rw (amount-hset k id res r') (
                rw (h.3 k) (elim (Bool-cases (total pid == k)) [
                  | inl t ↦ rw t (h.2 ∙ key_of (total pid) t)
                  | inr t ↦ rw t (elim (Bool-cases (bucket pid idx == k)) [
                    | inl s ↦ rw s (omega (arith, h.1) ∙ key_of (bucket pid idx) s)
                    | inr s ↦ rw s refl
                  ])
                ])))))
