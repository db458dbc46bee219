-- ===== src/Flash/Lottery/Draws.antt =====
-- services/flash-sale/service.go, DrawLotteryWinners: the stock that draws take.
use faisalaffan_design_syste.Base.{ℕ, ◌+◌, String, ◌≡◌, Bool, nat_key, string_key}
use faisalaffan_design_syste.Base.Redis.{Redis}
use faisalaffan_design_syste.Flash.Stock.{StockKey, total, stock_key, Reservation, amount}
use faisalaffan_design_syste.Flash.Stock.Balance.{IsBalanced}
use faisalaffan_design_syste.Flash.Pipeline.{default_bucket_count}

module _ (redis : Redis StockKey Reservation) (hash : String → ℕ) where
  abbrev pub left_of : String → redis.R → ℕ
  left_of pid r = amount redis (total pid) r

  -- A winner takes one piece while there is one, and the balance of the stock is kept.
  abbrev Takes : String → redis.R → redis.R × Bool → Type 0
  Takes pid r answer =
      (left_of pid answer.0 + 1 ≡ left_of pid r)
      × IsBalanced redis pid default_bucket_count answer.0
