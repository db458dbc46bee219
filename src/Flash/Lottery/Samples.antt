-- ===== src/Flash/Lottery/Samples.antt =====
-- Tests of the lottery.
use faisalaffan_design_syste.Base.{
  ℕ, zero, suc, String, ◌≡◌, refl, some, List, [], ◌∷◌, take, nat_key, string_key, lookup, insert,
  str_append, contains,
}
use faisalaffan_design_syste.Base.Redis.{Redis, Maps, maps_redis, no_maps}
use faisalaffan_design_syste.Flash.Stock.{StockKey, stock_key, Reservation, init_product}
use faisalaffan_design_syste.Flash.Pipeline.{completed, invalid_attestation, only_status}
use faisalaffan_design_syste.Flash.Lottery.{
  Lotteries, members_of, enter, draw, verify_lottery_token, lottery_checkout,
}
use faisalaffan_design_syste.Flash.Lottery.Tokens.{
  Event, enters, draws, confirms, happen_all, lottery_checkout_once,
}

abbrev stock_redis : Redis StockKey Reservation
stock_redis = maps_redis

abbrev token_of : ℕ → String
token_of zero = "LTOK-0"
token_of (suc n) = str_append "LTOK-" (token_of n)

abbrev nothing_yet : Lotteries
nothing_yet = record { entries = []; winners = []; tokens = []; drawn = [] }

-- Three users enter, one of them twice, and two win.
unfoldable drawn : Lotteries
unfolding enter draw
drawn =
    (draw take token_of 100 "shoe" 2 (
      enter "shoe" "ani"
        (enter "shoe" "cici" (enter "shoe" "budi" (enter "shoe" "ani" nothing_yet))))).0

two_win : members_of "shoe" (Lotteries.winners drawn) ≡ "ani" ∷ "budi" ∷ []
unfolding drawn insert lookup contains draw enter
two_win = refl

buys_once : (lottery_checkout "ORD-1" "LTOK-0" drawn drawn).1.status ≡ completed
unfolding lottery_checkout drawn insert lookup contains draw enter
buys_once = refl

-- Two checkouts that have both read the token before either confirms it are both completed.
buys_twice :
    (lottery_checkout "ORD-2" "LTOK-0" drawn
      (lottery_checkout "ORD-1" "LTOK-0" drawn drawn).0).1.status
    ≡ completed
unfolding lottery_checkout drawn insert lookup contains draw enter
buys_twice = refl

winner_known : verify_lottery_token "LTOK-0" drawn ≡ some ("ani", "shoe")
unfolding verify_lottery_token drawn insert lookup contains draw enter
winner_known = refl

abbrev hats_drawn : List Event
hats_drawn = enters "hat" "budi" ∷ draws take (λ i. "HAT") 300 "hat" 1 ∷ confirms "HAT" ∷ []

lottery_checkout_once_example :
    lottery_checkout "ORD-2" "LTOK-0"
      (happen_all hats_drawn (lottery_checkout "ORD-1" "LTOK-0" drawn drawn).0)
      drawn
    ≡ (drawn, only_status invalid_attestation)
lottery_checkout_once_example =
    lottery_checkout_once "ORD-1" "ORD-2" "LTOK-0" ("ani", "shoe") drawn drawn drawn hats_drawn
      winner_known (tt, ((λ i e. absurd (cc ((string_key.test_iff "HAT" "LTOK-0").1 e))), (tt, tt)))

abbrev stocked : Maps StockKey Reservation
stocked = init_product stock_redis "shoe" 20 10 no_maps
