-- ===== src/Flash/Stock/Samples.antt =====
-- Runs of the stock operations over two association lists.
use faisalaffan_design_syste.Base.{
  ℕ, String, ◌≡◌, refl, arith, nat_key, string_key, lookup, insert, remove,
}
use faisalaffan_design_syste.Base.Redis.{Redis, maps_redis, Maps, no_maps}
use faisalaffan_design_syste.Flash.Stock.{
  StockKey, total, Reservation, Decr, taken, amount, stock_key, reserve_stock, bucket_decr,
  try_buckets, create_reservation, release_reservation, init_product, fill_buckets,
}
use faisalaffan_design_syste.Flash.Stock.Balance.{reserve_stock-Reserves, Reserves}
use faisalaffan_design_syste.Flash.Stock.Release.{released_restores}

abbrev redis : Redis StockKey Reservation
redis = maps_redis

abbrev fnv : String → ℕ
fnv s = 7

abbrev shelf : Maps StockKey Reservation
unfolding init_product fill_buckets
shelf = init_product redis "shoe" 5 2 no_maps

abbrev bought : Maps StockKey Reservation × Decr
unfolding reserve_stock bucket_decr try_buckets amount
bought = reserve_stock redis fnv "shoe" "phone" 2 2 shelf

bought_taken : bought.1 ≡ taken 1 3
unfolding init_product fill_buckets reserve_stock bucket_decr try_buckets amount remove insert
    lookup
bought_taken = refl

reserve_stock-Reserves_example :
    Reserves redis "shoe" 2 2 shelf (reserve_stock redis fnv "shoe" "phone" 2 2 shelf)
reserve_stock-Reserves_example =
    reserve_stock-Reserves redis fnv "shoe" "phone" 2 2 shelf (omega arith)

abbrev held : Maps StockKey Reservation
unfolding create_reservation
held = create_reservation redis 1 "shoe" "RES-1" "ana" 2 1 bought.0

released_restores_example :
    amount redis
      (total "shoe")
      (release_reservation redis 9 "RES-1"
        (create_reservation redis 1 "shoe" "RES-1" "ana" 2 1 bought.0)).0
    ≡ amount redis (total "shoe") shelf
unfolding init_product fill_buckets reserve_stock bucket_decr try_buckets amount remove insert
    lookup
released_restores_example =
    released_restores redis 1 9 "shoe" "RES-1" "ana" 2 2 shelf bought.0 1 3
      (reserve_stock-Reserves redis fnv "shoe" "phone" 2 2 shelf (omega arith)) (total "shoe")
