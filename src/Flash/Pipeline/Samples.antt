-- ===== src/Flash/Pipeline/Samples.antt =====
-- Tests of the pipeline, on association lists.
use faisalaffan_design_syste.Base.{
  ℕ, ◌*◌, ◌/◌, String, ◌≡◌, refl, ◌≢◌, Bool, false, [], ◌∷◌, arith, length, nat_key, string_key,
  lookup, insert, get_or, str_append,
}
use faisalaffan_design_syste.Base.Redis.{Redis, Maps, maps_redis, no_maps}
use faisalaffan_design_syste.Flash.Stock.{
  StockKey, stock_key, Reservation, init_product, reserve_stock,
}
use faisalaffan_design_syste.Flash.Slots.{acquire_slot}
use faisalaffan_design_syste.Flash.Slots.Pools.{Pool, store}
use faisalaffan_design_syste.Flash.Pipeline.{
  completed, Now, State, CheckoutRequest, join_waiting_room, queue_position,
}
use faisalaffan_design_syste.Flash.Pipeline.Checkout.{checkout}
use faisalaffan_design_syste.Flash.Pipeline.Balance.{Settles, checkout-Settles}
use faisalaffan_design_syste.Flash.Pipeline.Queue.{AllBefore, room_of, join_waiting_room-position}

abbrev stock_redis : Redis StockKey Reservation
stock_redis = maps_redis

abbrev sign : String → ℕ → String
sign fp expires_at = str_append "signed-" fp

abbrev hash : String → ℕ
hash fp = 7

abbrev before : String → String → Bool
before a b = false

-- Steps of 4 in place of the 256 of today's clock.
abbrev float64 : ℕ → ℕ
float64 n = n / 4 * 4

-- Twenty pairs of shoes; two users wait for hats.
abbrev opened : State (Maps StockKey Reservation) Pool
opened = record {
  stock = init_product stock_redis "shoe" 20 10 no_maps;
  slots = ([], []);
  locks = [];
  results = [];
  windows = [];
  waiting = ("hat", ("ani", 3) ∷ ("budi", 5) ∷ []) ∷ [];
}

abbrev ana_request : CheckoutRequest
ana_request = record {
  product_id = "shoe";
  user_id = "ana";
  device_fp = "fp";
  attestation = "signed-fp";
  expires_at = 110;
  quantity = 2;
  idempotency_key = "k1";
}

abbrev noon : Now
noon = record { unix = 100; milli = 100_000; nano = 9 }

ana_buys :
    (checkout stock_redis store sign hash before float64 noon "RES-1" "ORD-1" ana_request
      opened).1.status
    ≡ completed
unfolding checkout init_product lookup insert acquire_slot reserve_stock
ana_buys = refl

checkout-Settles_example :
    Settles stock_redis store sign hash before float64 "RES-1" ana_request opened
      (checkout stock_redis store sign hash before float64 noon "RES-1" "ORD-1" ana_request opened)
checkout-Settles_example =
    checkout-Settles stock_redis store sign hash before float64 noon "RES-1" "ORD-1" ana_request
      opened

hats_joined : AllBefore (float64 9) (room_of "hat" opened)
unfolding lookup
hats_joined = (omega arith, (omega arith, tt))

join_waiting_room-position_example :
    ((join_waiting_room before float64 9 "hat" "cici" opened).1
      ≡ get_or (queue_position "hat" "cici" opened) (length (room_of "hat" opened)))
    × ((other : String)
        → other ≢ "cici"
        → queue_position "hat" other (join_waiting_room before float64 9 "hat" "cici" opened).0
          ≡ queue_position "hat" other opened)
join_waiting_room-position_example =
    join_waiting_room-position before float64 9 "hat" "cici" opened hats_joined
