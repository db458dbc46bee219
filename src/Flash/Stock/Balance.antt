-- ===== src/Flash/Stock/Balance.antt =====
-- The stock of services/flash-sale/store.go: what ReserveStock answers and writes, and that a
-- product's total stays the sum of its buckets.
use native.Mathlib.Nat.{mod-lt}
use faisalaffan_design_syste.Base.{
  ℕ, zero, suc, ◌+◌, ◌-◌, ◌%◌, ◌≤◌, ◌<◌, String, ◌≡◌, refl, sym, ap, ◌∙◌, subst, ◌≢◌, inl, inr,
  arith, ltb, leb, nat_beq, if◌then◌else◌, ltb→lt, leb→le, nat_beq_iff, Bool-cases, ◌==◌, nat_key,
  string_key, ==-refl, ==_of_ne, get_or,
}
use faisalaffan_design_syste.Base.Redis.{Redis}
use faisalaffan_design_syste.Flash.Stock.{
  StockKey, total, bucket, Reservation, Decr, taken, sold_out, no_bucket, amount, try_buckets,
  bucket_decr, reserve_stock, stock_key,
}
use faisalaffan_design_syste.Flash.Stock.Sums.{sum, sum-shrink, rotate-reaches}

module _ (redis : Redis StockKey Reservation) where
  open redis use {R}

  abbrev pub sum_of_buckets : String → ℕ → R → ℕ
  sum_of_buckets pid count r = sum (λ i. amount redis (bucket pid i) r) count

  abbrev pub IsBalanced : String → ℕ → R → Type 0
  IsBalanced pid count r = amount redis (total pid) r ≡ sum_of_buckets pid count r

  -- The answer to a request for `qty` pieces and what it says of the two stores.
  abbrev pub Reserves : String → ℕ → ℕ → R → R × Decr → Type 0
  Reserves pid qty count r (r', taken idx left) =
      (idx < count)
      × (qty ≤ amount redis (bucket pid idx) r)
      × (left + qty ≡ amount redis (total pid) r)
      × ((k : StockKey)
          → amount redis k r' ≡ (
              if total pid == k
              then left
              else if bucket pid idx == k
              then amount redis (bucket pid idx) r - qty
              else amount redis k r))
  Reserves pid qty count r (r', sold_out t) =
      (r' ≡ r) × (t ≡ amount redis (total pid) r) × (t < qty)
  Reserves pid qty count r (r', no_bucket t) =
      (r' ≡ r)
      × (t ≡ amount redis (total pid) r)
      × ((i : ℕ) → i < count → amount redis (bucket pid i) r < qty)

  amount-decr_by :
      (k j : StockKey) (q : ℕ) (r : R)
      → q ≤ amount redis k r
      → amount redis j (redis.decr_by k q r)
        ≡ (if k == j then amount redis k r - q else amount redis j r)
  unfolding amount
  amount-decr_by k j q r le =
      ap (λ o. get_or o 0) (redis.get-decr_by k j q r le)
      ∙ elim (Bool-cases (k == j)) [ inl t ↦ rw t refl | inr t ↦ rw t refl ]

  take_from :
      (pid : String) (idx qty : ℕ) (r : R)
      → qty ≤ amount redis (bucket pid idx) r
      → qty ≤ amount redis (total pid) r
      → (k : StockKey)
      → amount redis k (redis.decr_by (total pid) qty (redis.decr_by (bucket pid idx) qty r)) ≡ (
          if total pid == k
          then amount redis (total pid) r - qty
          else if bucket pid idx == k
          then amount redis (bucket pid idx) r - qty
          else amount redis k r)
  take_from pid idx qty r b-le t-le k =
      let r1 = redis.decr_by (bucket pid idx) qty r in
      let e1 : amount redis (total pid) r1 ≡ amount redis (total pid) r =
        amount-decr_by (bucket pid idx) (total pid) qty r b-le in
      rw (amount-decr_by (total pid) k qty r1 (omega (arith, e1, t-le)))
        (rw e1 (rw (amount-decr_by (bucket pid idx) k qty r b-le) refl))

  try_buckets-Reserves :
      (pid : String) (qty count start n i : ℕ) (r : R)
      → start < count
      → i + n ≡ count
      → qty ≤ amount redis (total pid) r
      → ((j : ℕ) → j < i → amount redis (bucket pid ((start + j) % count)) r < qty)
      → Reserves pid qty count r (try_buckets redis pid qty count start n i r)
  unfolding try_buckets
  try_buckets-Reserves pid qty count start zero i r lt e le tried = (
    refl,
    refl,
    λ j j-lt.
        let hit = rotate-reaches start j count lt j-lt in
        subst (λ x. amount redis (bucket pid x) r < qty) hit.2
          (tried hit.0 (omega (arith, e, hit.1))),
  )
  try_buckets-Reserves pid qty count start (suc n) i r lt e le tried =
      let idx = (start + i) % count in
      elim (Bool-cases (leb qty (amount redis (bucket pid idx) r))) [
        | inl t ↦ rw t (
          mod-lt (start + i) (omega (arith, lt)),
          leb→le qty (amount redis (bucket pid idx) r) t,
          omega (arith, le),
          take_from pid idx qty r (leb→le qty (amount redis (bucket pid idx) r) t) le,
        )
        | inr t ↦ rw t (
            try_buckets-Reserves pid qty count start n (i + 1) r lt (omega (arith, e)) le (λ j j-lt.
              elim (Bool-cases (nat_beq j i)) [
                | inl s ↦
                    subst (λ x. amount redis (bucket pid ((start + x) % count)) r < qty)
                      (sym ((nat_beq_iff j i).0 s)) (ground (arith, t))
                | inr s ↦ tried j (ground (arith, s, j-lt))
              ]))
      ]

  -- ReserveStock, over a positive number of buckets, answers with a bucket only when that bucket and
  -- the total hold the quantity, and then takes it off these two counters and no other; otherwise it
  -- writes nothing, and it says so only when the total is too small or each of the buckets is.
  pub reserve_stock-Reserves :
      (hash : String → ℕ) (pid device_fp : String) (qty count : ℕ) (r : R)
      → 0 < count
      → Reserves pid qty count r (reserve_stock redis hash pid device_fp qty count r)
  unfolding reserve_stock bucket_decr
  reserve_stock-Reserves hash pid device_fp qty count r pos =
      elim (Bool-cases (ltb (amount redis (total pid) r) qty)) [
        | inl t ↦ rw t (refl, refl, ltb→lt (amount redis (total pid) r) qty t)
        | inr t ↦ rw t (
            try_buckets-Reserves pid qty count (hash device_fp % count) count 0 r
              (mod-lt (hash device_fp) pos) (omega arith) (ground (arith, t))
              (λ j lt. absurd (omega (arith, lt))))
      ]

  balance-kept :
      (pid : String) (qty count : ℕ) (r : R) (answer : R × Decr)
      → Reserves pid qty count r answer
      → IsBalanced pid count r
      → IsBalanced pid count answer.0
  balance-kept pid qty count r (r', taken idx left) h bal =
      let f : ℕ → ℕ = λ i. amount redis (bucket pid i) r in
      let g : ℕ → ℕ = λ i. amount redis (bucket pid i) r' in
      let all : amount redis (total pid) r' ≡ left = h.3 (total pid) ∙ rw (==-refl pid) refl in
      let one : g idx ≡ f idx - qty =
        h.3 (bucket pid idx) ∙ rw (==-refl pid) (rw (==-refl idx) refl) in
      let others : (j : ℕ) → idx ≢ j → g j ≡ f j =
        λ j ne. h.3 (bucket pid j) ∙ rw (==-refl pid) (rw (==_of_ne idx j ne) refl) in
      omega
        (arith, bal, all, h.2, sum-shrink f g count idx qty h.0 (omega (arith, one, h.1)) others)
  balance-kept pid qty count r (r', sold_out t) h bal = subst (IsBalanced pid count) (sym h.0) bal
  balance-kept pid qty count r (r', no_bucket t) h bal = subst (IsBalanced pid count) (sym h.0) bal

  -- ReserveStock keeps the total of a product equal to the sum of its buckets.
  pub reserve_stock-IsBalanced :
      (hash : String → ℕ) (pid device_fp : String) (qty count : ℕ) (r : R)
      → 0 < count
      → IsBalanced pid count r
      → IsBalanced pid count (reserve_stock redis hash pid device_fp qty count r).0
  reserve_stock-IsBalanced hash pid device_fp qty count r pos bal =
      balance-kept pid qty count r (reserve_stock redis hash pid device_fp qty count r)
        (reserve_stock-Reserves hash pid device_fp qty count r pos) bal
