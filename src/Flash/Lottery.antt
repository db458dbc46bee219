-- ===== src/Flash/Lottery.antt =====
-- services/flash-sale: the lottery of store.go and service.go. A set is a list without repetition; what
-- SRANDMEMBER picks, fresh tokens and ids are arguments; keys are read within their time to live.
pub mod Winners
pub mod Tokens
pub mod Draws
mod Samples
use faisalaffan_design_syste.Base.{
  ℕ, ◌+◌, min, String, Bool, true, false, not, Option, none, some, List, [], ◌∷◌, ◌++◌,
  if◌then◌else◌, length, ◌==◌, nat_key, string_key, lookup, insert, get_or, contains,
}
use faisalaffan_design_syste.Base.Redis.{Redis}
use faisalaffan_design_syste.Flash.Stock.{
  StockKey, stock_key, Reservation, Decr, taken, sold_out, no_bucket, reserve_stock,
  create_reservation,
}
use faisalaffan_design_syste.Flash.Pipeline.{
  Status, completed, rate_limited, invalid_attestation, lottery_entered, lottery_winner,
  lottery_loser, CheckoutResponse, only_status, State, check_rate_limit, default_bucket_count,
}

abbrev pub default_lottery_checkout_ttl : ℕ
default_lottery_checkout_ttl = 600

-- The hash of a token; `confirmed` is its status.
pub record LotteryToken : Type 0 where
  pub user_id : String
  pub product_id : String
  pub expires_at : ℕ
  pub confirmed : Bool

-- The keys of the lotteries, by product, and the tokens.
pub record Lotteries : Type 0 where
  pub entries : List (String × List String)
  pub winners : List (String × List String)
  pub tokens : List (String × LotteryToken)
  pub drawn : List (String × Bool)

pub record LotteryResultResponse : Type 0 where
  pub status : Status
  pub product_id : String
  pub user_id : String
  pub entry_count : ℕ
  pub winner_count : ℕ
  pub reservation_id : String
  pub lottery_token : String
  pub expires_at : ℕ

abbrev pub result_of : Status → String → String → ℕ → LotteryResultResponse
result_of status pid uid entry_count = record {
  status = status;
  product_id = pid;
  user_id = uid;
  entry_count = entry_count;
  winner_count = 0;
  reservation_id = "";
  lottery_token = "";
  expires_at = 0;
}

-- SADD
unfoldable pub s_add : String → List String → List String
s_add member members = if contains member members then members else members ++ (member ∷ [])

abbrev pub members_of : String → List (String × List String) → List String
members_of pid sets = get_or (lookup pid sets) []

-- `Store.EnterLottery`
unfoldable pub enter : String → String → Lotteries → Lotteries
unfolding s_add
enter pid uid l = record l { entries = insert pid (s_add uid (members_of pid l.entries)) l.entries }

-- `IsLotteryDrawn` and `GetLotteryEntryCount`
unfoldable pub is_drawn : String → Lotteries → Bool
is_drawn pid l = get_or (lookup pid l.drawn) false

unfoldable pub entry_count_of : String → Lotteries → ℕ
entry_count_of pid l = length (members_of pid l.entries)

-- The loop over the winners, with the fresh token of each.
unfoldable pub store_winners : (ℕ → String) → ℕ → String → ℕ → List String → Lotteries → Lotteries
unfolding s_add
store_winners token expires_at pid i [] l = l
store_winners token expires_at pid i (uid ∷ rest) l =
    store_winners token expires_at pid (i + 1) rest (record l {
      winners = insert pid (s_add uid (members_of pid l.winners)) l.winners;
      tokens =
          insert (token i)
            (record { user_id = uid; product_id = pid; expires_at = expires_at; confirmed = false })
            l.tokens;
    })

-- `Store.DrawLotteryWinners`; none is the error of a pool without entries.
unfoldable pub draw :
    (ℕ → List String → List String)
    → (ℕ → String)
    → ℕ
    → String
    → ℕ
    → Lotteries
    → Lotteries × Option (List String × ℕ)
unfolding is_drawn entry_count_of store_winners
draw pick token now pid winner_count l =
    let entry_count = entry_count_of pid l in
    let winners = pick (min winner_count entry_count) (members_of pid l.entries) in
    let stored = store_winners token (now + default_lottery_checkout_ttl) pid 0 winners l in
    if is_drawn pid l
    then (l, some (members_of pid l.winners, entry_count))
    else if entry_count == 0
    then (l, none)
    else (record stored { drawn = insert pid true stored.drawn }, some (winners, entry_count))

-- The scan over the tokens: the first of the user.
unfoldable pub find_token : String → List (String × LotteryToken) → Option (String × ℕ)
find_token uid [] = none
find_token uid ((token, t) ∷ rest) =
    if t.user_id == uid then some (token, t.expires_at) else find_token uid rest

-- `GetLotteryResult`; none is no winner.
unfoldable pub get_lottery_result : String → String → Lotteries → Option (String × ℕ)
unfolding find_token
get_lottery_result pid uid l =
    if contains uid (members_of pid l.winners) then find_token uid l.tokens else none

-- `VerifyLotteryToken`; none is the error.
unfoldable pub verify_lottery_token : String → Lotteries → Option (String × String)
verify_lottery_token token l = of_found (lookup token l.tokens)
  where
    of_found : Option LotteryToken → Option (String × String)
    of_found none = none
    of_found (some t) = if t.confirmed then none else some (t.user_id, t.product_id)

-- `ConfirmLotteryToken`; HSET makes a hash that is not there, without a user or a product.
unfoldable pub confirm_lottery_token : String → Lotteries → Lotteries
confirm_lottery_token token l = record l {
  tokens = insert token (of_found (lookup token l.tokens)) l.tokens;
}
  where
    of_found : Option LotteryToken → LotteryToken
    of_found none = record { user_id = ""; product_id = ""; expires_at = 0; confirmed = true }
    of_found (some t) = record t { confirmed = true }

-- `LotteryCheckout`, two calls of the store: `read` is the store at VerifyLotteryToken and `l` the store at
-- ConfirmLotteryToken, which other calls may have changed in between.
unfoldable pub lottery_checkout :
    String → String → Lotteries → Lotteries → Lotteries × CheckoutResponse
unfolding verify_lottery_token confirm_lottery_token
lottery_checkout order_id token read l = of_verified (verify_lottery_token token read)
  where
    of_verified : Option (String × String) → Lotteries × CheckoutResponse
    of_verified none = (l, only_status invalid_attestation)
    of_verified (some owner) =
        (confirm_lottery_token token l, record (only_status completed) { order_id = order_id })

-- `Service.LotteryResult`
unfoldable pub lottery_result : String → String → Lotteries → LotteryResultResponse
unfolding is_drawn entry_count_of get_lottery_result
lottery_result pid uid l =
    if not (is_drawn pid l)
    then result_of lottery_entered pid uid (entry_count_of pid l)
    else of_result (get_lottery_result pid uid l)
  where
    of_result : Option (String × ℕ) → LotteryResultResponse
    of_result none = result_of lottery_loser pid uid (entry_count_of pid l)
    of_result (some (token, expires_at)) =
        record (result_of lottery_winner pid uid (entry_count_of pid l)) {
          lottery_token = token;
          expires_at = expires_at;
        }

module _ {S T : Type 0} where
  -- `Service.EnterLottery`; true is the error of a lottery that is drawn.
  unfoldable pub enter_lottery :
      ℕ
      → String
      → String
      → String
      → State S T
      → Lotteries
      → State S T × Lotteries × LotteryResultResponse × Bool
  unfolding check_rate_limit is_drawn enter entry_count_of
  enter_lottery now device_fp pid uid st l =
      let limited = check_rate_limit now device_fp st in
      let l' = enter pid uid l in
      if not limited.1
      then (limited.0, l, result_of rate_limited pid uid 0, false)
      else if is_drawn pid l
      then (limited.0, l, result_of lottery_loser pid uid 0, true)
      else (limited.0, l', result_of lottery_entered pid uid (entry_count_of pid l'), false)
