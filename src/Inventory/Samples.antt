-- ===== src/Inventory/Samples.antt =====
-- Runs of the inventory service over two association lists.
use faisalaffan_design_syste.Base.{
  ◌+◌, String, ◌≡◌, refl, List, [], ◌∷◌, nat_key, string_key, lookup, insert,
}
use faisalaffan_design_syste.Base.Redis.{Redis, maps_redis, Maps}
use faisalaffan_design_syste.Inventory.{
  stock, Reservation, ReserveCode, insufficient_stock, remaining, ReserveItem, ReserveRequest,
  ReserveResponse, ok, repo_reserve, reserve_script, get_stock, reserve, reserve_items, after_item,
  release_all, run_reaper, default_ttl,
}
use faisalaffan_design_syste.Inventory.Holds.{Reserves, repo_reserve-Reserves}
use faisalaffan_design_syste.Inventory.Carts.{reserve-Takes}
use faisalaffan_design_syste.Inventory.Rollback.{rollback_two}

abbrev redis : Redis String Reservation
redis = maps_redis

abbrev shop : Maps String Reservation
shop = record {
  counters = (stock "jkt" "rice", 10) ∷ (stock "jkt" "milk", 4) ∷ (stock "jkt" "salt", 0) ∷ [];
  lives = [];
  hashes = [];
}

abbrev rice : ReserveItem
rice = record { sku = "rice"; quantity = 2 }

abbrev milk : ReserveItem
milk = record { sku = "milk"; quantity = 3 }

abbrev salt : ReserveItem
salt = record { sku = "salt"; quantity = 1 }

abbrev cart : List ReserveItem → ReserveRequest
cart items = record { hub_id = "jkt"; cart_id = "c"; user_id = "ana"; items = items }

abbrev hold : ReserveItem → Maps String Reservation → Maps String Reservation × ReserveCode
hold item r = repo_reserve redis "jkt" item "r1" "ana" "c" default_ttl 100 r

abbrev with_rice : Maps String Reservation
with_rice = (hold rice shop).0

abbrev with_milk : Maps String Reservation
with_milk = (hold milk with_rice).0

repo_reserve-Reserves_example :
    Reserves redis "jkt" rice "r1" shop (repo_reserve redis "jkt" rice "r1" "ana" "c" 900 100 shop)
repo_reserve-Reserves_example = repo_reserve-Reserves redis "jkt" rice "r1" "ana" "c" 900 100 shop

abbrev reply : ReserveResponse
reply = record {
  reservation_id = "r1";
  items =
      record { sku = "rice"; quantity = 2; remaining = 8 }
      ∷ record { sku = "milk"; quantity = 3; remaining = 1 }
      ∷ [];
  expires_at = 1000000;
}

both_held : reserve redis "r1" (cart (rice ∷ milk ∷ [])) 100 shop ≡ (with_milk, ok reply)
unfolding reserve reserve_items after_item release_all repo_reserve reserve_script insert lookup
    stock
both_held = refl

reserve-Takes_example :
    get_stock redis "jkt" "rice" with_milk + 2 ≡ get_stock redis "jkt" "rice" shop
unfolding stock
reserve-Takes_example =
    reserve-Takes redis "r1" (cart (rice ∷ milk ∷ [])) 100 shop with_milk reply both_held "jkt"
      "rice"

rice_held : hold rice shop ≡ (with_rice, remaining 8)
unfolding repo_reserve reserve_script insert lookup stock
rice_held = refl

milk_held : hold milk with_rice ≡ (with_milk, remaining 1)
unfolding repo_reserve reserve_script insert lookup stock
milk_held = refl

no_salt : hold salt with_rice ≡ (with_rice, insufficient_stock 0)
unfolding repo_reserve reserve_script insert lookup stock
no_salt = refl

no_salt_left : hold salt with_milk ≡ (with_milk, insufficient_stock 0)
unfolding repo_reserve reserve_script insert lookup stock
no_salt_left = refl

rollback_two_example :
    (get_stock redis "jkt" "rice" (reserve redis "r1" (cart (rice ∷ milk ∷ salt ∷ [])) 100 shop).0
        + 2
      ≡ get_stock redis "jkt" "rice" shop + 3)
    × (get_stock redis "jkt" "milk" (reserve redis "r1" (cart (rice ∷ milk ∷ salt ∷ [])) 100 shop).0
          + 3
        ≡ get_stock redis "jkt" "milk" shop)
rollback_two_example =
    rollback_two redis "r1" (cart (rice ∷ milk ∷ salt ∷ [])) 100 rice milk salt [] shop with_rice
      with_milk 8 1 0 refl (λ e. absurd (cc ((string_key.test_iff "rice" "milk").1 e))) rice_held
      milk_held no_salt_left

abbrev split_toy : String → String → List String
split_toy s sep = "inv" ∷ "reservation" ∷ "r1" ∷ []

-- The two bags of rice come back to the stock of a hub that is named reservation.
reaped_elsewhere :
    get_stock redis "reservation" "rice"
      (run_reaper redis split_toy 9000000 ("r1" ∷ []) (with_rice, 0)).0
    ≡ 2
unfolding get_stock run_reaper repo_reserve reserve_script stock insert lookup
reaped_elsewhere = refl
