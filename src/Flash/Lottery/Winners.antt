-- ===== src/Flash/Lottery/Winners.antt =====
-- services/flash-sale: service.go, DrawLotteryWinners.
use faisalaffan_design_syste.Base.{
  ℕ, ◌+◌, String, Bool, true, false, Option, none, some, List, [], ◌∷◌, ◌++◌,
}
use faisalaffan_design_syste.Base.Redis.{Redis}
use faisalaffan_design_syste.Flash.Stock.{
  StockKey, stock_key, Reservation, Decr, taken, sold_out, no_bucket, reserve_stock,
  create_reservation,
}
use faisalaffan_design_syste.Flash.Pipeline.{lottery_winner, default_bucket_count}
use faisalaffan_design_syste.Flash.Lottery.{
  Lotteries, LotteryResultResponse, result_of, get_lottery_result,
}

module _ (redis : Redis StockKey Reservation) (hash : String → ℕ) where
  -- A round of the loop over the winners in `Service.DrawLotteryWinners`, on the answer of ReserveStock.
  unfoldable pub reserve_winner : ℕ → String → String → String → redis.R × Decr → redis.R × Bool
  reserve_winner now reservation_id pid uid (r, taken idx left) =
      (create_reservation redis now pid reservation_id uid 1 idx r, true)
  reserve_winner now reservation_id pid uid (r, sold_out left) = (r, false)
  reserve_winner now reservation_id pid uid (r, no_bucket left) = (r, false)

  abbrev pub won_result :
      Bool → ℕ → ℕ → String → String → String → Option (String × ℕ) → List LotteryResultResponse
  won_result false entry_count winner_count pid uid id found = []
  won_result true entry_count winner_count pid uid id none = []
  won_result true entry_count winner_count pid uid id (some (token, expires_at)) =
      record (result_of lottery_winner pid uid entry_count) {
        winner_count = winner_count;
        reservation_id = id;
        lottery_token = token;
        expires_at = expires_at;
      }
      ∷ []

  -- The loop over the winners.
  unfoldable pub reserve_winners :
      (ℕ → String)
      → ℕ
      → ℕ
      → ℕ
      → String
      → ℕ
      → List String
      → Lotteries
      → redis.R
      → redis.R × List LotteryResultResponse
  unfolding reserve_winner get_lottery_result
  reserve_winners ids now entry_count winner_count pid i [] l r = (r, [])
  reserve_winners ids now entry_count winner_count pid i (uid ∷ rest) l r =
      let step =
        reserve_winner now (ids i) pid uid
          (reserve_stock redis hash pid uid 1 default_bucket_count r) in
      let more = reserve_winners ids now entry_count winner_count pid (i + 1) rest l step.0 in
      (
        more.0,
        won_result step.1 entry_count winner_count pid uid (ids i) (get_lottery_result pid uid l)
            ++ more.1,
      )

  -- `Service.DrawLotteryWinners`, on the answer of the store's; none is its error.
  unfoldable pub draw_lottery_winners :
      (ℕ → String)
      → ℕ
      → ℕ
      → String
      → Lotteries × Option (List String × ℕ)
      → redis.R
      → redis.R × Lotteries × Option (List LotteryResultResponse)
  unfolding reserve_winners
  draw_lottery_winners ids now winner_count pid (l, none) r = (r, l, none)
  draw_lottery_winners ids now winner_count pid (l, some (winners, entry_count)) r =
      let answer = reserve_winners ids now entry_count winner_count pid 0 winners l r in
      (answer.0, l, some answer.1)
