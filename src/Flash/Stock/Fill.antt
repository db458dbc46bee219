-- ===== src/Flash/Stock/Fill.antt =====
-- InitProduct of services/flash-sale/store.go: how the stock of a product is split over its buckets.
use native.Mathlib.Nat.{mod-lt, div-add-mod'}
use faisalaffan_design_syste.Base.{
  ℕ, zero, suc, ◌+◌, ◌*◌, ◌/◌, ◌%◌, ◌<◌, String, ◌≡◌, refl, sym, ap, ◌∙◌, ◌⊎◌, inl, inr, ◌&&◌,
  arith, ltb, leb, if◌then◌else◌, Bool-cases, ◌==◌, nat_key, string_key, ==-refl, get_or,
}
use faisalaffan_design_syste.Base.Redis.{Redis}
use faisalaffan_design_syste.Flash.Stock.{
  StockKey, total, bucket, Reservation, amount, fill_buckets, init_product, remaining_stock,
  stock_key,
}
use faisalaffan_design_syste.Flash.Stock.Sums.{sum, sum-cong, sum-split}
use faisalaffan_design_syste.Flash.Stock.Balance.{IsBalanced}

module _ (redis : Redis StockKey Reservation) where
  open redis use {R}

  amount-set :
      (k j : StockKey) (n : ℕ) (r : R)
      → amount redis j (redis.set k n r) ≡ (if k == j then n else amount redis j r)
  unfolding amount
  amount-set k j n r =
      ap (λ o. get_or o 0) (redis.get-set k j n r)
      ∙ elim (Bool-cases (k == j)) [ inl t ↦ rw t refl | inr t ↦ rw t refl ]

  total-fill :
      (pid other : String) (base rem n i : ℕ) (r : R)
      → amount redis (total other) (fill_buckets redis pid base rem n i r)
        ≡ amount redis (total other) r
  unfolding fill_buckets
  total-fill pid other base rem zero i r = refl
  total-fill pid other base rem (suc n) i r =
      let q = if ltb i rem then base + 1 else base in
      total-fill pid other base rem n (i + 1) (redis.set (bucket pid i) q r)
      ∙ amount-set (bucket pid i) (total other) q r

  bucket-fill :
      (pid : String) (base rem n i j : ℕ) (r : R)
      → amount redis (bucket pid j) (fill_buckets redis pid base rem n i r) ≡ (
          if leb i j && ltb j (i + n)
          then if ltb j rem then base + 1 else base
          else amount redis (bucket pid j) r)
  unfolding fill_buckets
  bucket-fill pid base rem zero i j r = ground arith
  bucket-fill pid base rem (suc n) i j r =
      let q = if ltb i rem then base + 1 else base in
      bucket-fill pid base rem n (i + 1) j (redis.set (bucket pid i) q r)
      ∙ rw (amount-set (bucket pid i) (bucket pid j) q r) (rw (==-refl pid) (ground arith))

-- The whole of InitProduct.
module _ (redis : Redis StockKey Reservation) where
  open redis use {R}

  -- InitProduct, over a positive number of buckets, leaves a product whose total is the stock given
  -- and the sum of its buckets, and whose buckets differ by at most one piece.
  pub init_product-IsBalanced :
      (pid : String) (stock count : ℕ) (r : R)
      → 0 < count
      → IsBalanced redis pid count (init_product redis pid stock count r)
        × (remaining_stock redis pid (init_product redis pid stock count r) ≡ stock)
        × ((i : ℕ)
            → i < count
            → (amount redis (bucket pid i) (init_product redis pid stock count r) ≡ stock / count)
              ⊎ (amount redis (bucket pid i) (init_product redis pid stock count r)
                  ≡ stock / count + 1))
  unfolding init_product remaining_stock
  init_product-IsBalanced pid stock count r pos =
      let base = stock / count in
      let rem = stock % count in
      let r1 = redis.set (total pid) stock r in
      let r' = fill_buckets redis pid base rem count 0 r1 in
      let all : amount redis (total pid) r' ≡ stock =
        total-fill redis pid pid base rem count 0 r1
        ∙ amount-set redis (total pid) (total pid) stock r
        ∙ rw (==-refl pid) refl in
      let piece : (i : ℕ)
          → i < count
          → amount redis (bucket pid i) r' ≡ (if ltb i rem then base + 1 else base) =
        λ i lt. bucket-fill redis pid base rem count 0 i r1 ∙ ground (arith, lt) in
      let parts : sum (λ i. amount redis (bucket pid i) r') count
          ≡ base * count + (if ltb count rem then count else rem) =
        sum-cong (λ i. amount redis (bucket pid i) r') (λ i. if ltb i rem then base + 1 else base)
          count piece
        ∙ sum-split base rem count in
      (
        all ∙ sym (parts ∙ ground (arith, div-add-mod' stock count, mod-lt stock pos)),
        all,
        λ i lt. elim (Bool-cases (ltb i rem)) [
          | inl t ↦ inr (piece i lt ∙ rw t refl)
          | inr t ↦ inl (piece i lt ∙ rw t refl)
        ],
      )
