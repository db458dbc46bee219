-- ===== src/Promo/Counter.antt =====
-- services/promo-engine/repository/redis.go: the usage counters and the budget. A script is one step on
-- the store of Base.Redis; a key may expire between two calls. A key is `promo:counter:` or
-- `promo:budget:` with the rule's id and what follows it. The answer to a failed connection is left out.
pub mod Cases
pub mod Bounds
pub mod Unset
mod Samples
use faisalaffan_design_syste.Base.{
  ℕ, ◌+◌, ◌-◌, ◌*◌, ◌/◌, ◌%◌, String, ◌≡◌, ◌↔◌, Bool, true, false, not, ◌&&◌, Option, none, some,
  arith, ltb, leb, if◌then◌else◌, HasEq, ◌==◌, nat_key, string_key, get_or,
}
use faisalaffan_design_syste.Base.Redis.{Redis}
use faisalaffan_design_syste.Base.Floats.{Floats}
use faisalaffan_design_syste.Promo.Model.{UsageLimits, has_any}

-- `key`
pub data Key : Type 0 where
  total budget : String → Key
  daily user : String → String → Key

abbrev pub key_test : Key → Key → Bool
key_test (total r) (total s) = r == s
key_test (budget r) (budget s) = r == s
key_test (daily r d) (daily s e) = (r == s) && (d == e)
key_test (user r u) (user s v) = (r == s) && (u == v)
key_test _ _ = false

pub key_test_iff : (x y : Key) → (key_test x y ≡ true) ↔ (x ≡ y)
key_test_iff (total r) (total s) = ground (arith, string_key.test_iff r s)
key_test_iff (budget r) (budget s) = ground (arith, string_key.test_iff r s)
key_test_iff (daily r d) (daily s e) =
    ground (arith, string_key.test_iff r s, string_key.test_iff d e)
key_test_iff (user r u) (user s v) =
    ground (arith, string_key.test_iff r s, string_key.test_iff u v)
key_test_iff (total r) (budget s) = ground arith
key_test_iff (total r) (daily s e) = ground arith
key_test_iff (total r) (user s v) = ground arith
key_test_iff (budget r) (total s) = ground arith
key_test_iff (budget r) (daily s e) = ground arith
key_test_iff (budget r) (user s v) = ground arith
key_test_iff (daily r d) (total s) = ground arith
key_test_iff (daily r d) (budget s) = ground arith
key_test_iff (daily r d) (user s v) = ground arith
key_test_iff (user r u) (total s) = ground arith
key_test_iff (user r u) (budget s) = ground arith
key_test_iff (user r u) (daily s e) = ground arith

instance abbrev pub counter_key : HasEq Key
counter_key = record { test = key_test; test_iff = key_test_iff }

pub data Code : Type 0 where
  code_ok total_hit daily_hit user_hit budget_cap : Code

abbrev pub is_ok : Code → Bool
is_ok code_ok = true
is_ok _ = false

pub record LimitResult : Type 0 where
  pub allowed : Bool
  pub error_code : Code
  pub current : ℕ

-- A number in the reply of a script: GET answers a text, and the others answer an integer.
pub data Reply : Type 0 where
  text number : ℕ → Reply

-- `.(int64)` of a reply is 0 on a text.
unfoldable pub as_int : Reply → ℕ
as_int (text n) = 0
as_int (number n) = n

-- `cur and tonumber(cur) >= max`
unfoldable pub reached : Option ℕ → ℕ → Bool
reached none limit = false
reached (some cur) limit = leb limit cur

-- `GET or 0`
unfoldable pub or_zero : Option ℕ → Reply
or_zero none = number 0
or_zero (some cur) = text cur

abbrev pub nothing_limits : LimitResult
nothing_limits = record { allowed = true; error_code = code_ok; current = 0 }

-- The clock of a call: the date in UTC, and the time in nanoseconds.
pub record Reading : Type 0 where
  pub date : String
  pub now : ℕ

abbrev pub second : ℕ
second = 1_000_000_000

-- The seconds to 01:00 of the next day, at least 60.
unfoldable pub ttl_at : ℕ → ℕ
ttl_at now =
    let ttl = (90000 * second - now % (86400 * second)) / second in if ltb ttl 60 then 60 else ttl

module _ (redis : Redis Key Unit) where
  -- EXPIRE on the first creation of a counter, which is then 1.
  unfoldable pub expire_first : Key → ℕ → ℕ → redis.R → redis.R
  expire_first k n seconds r = if n == 1 then redis.expire k seconds r else r

  -- The three counters, incremented, with the expiry of those that are new, and the new total.
  unfoldable pub increment : String → String → String → ℕ → redis.R → redis.R × ℕ
  unfolding expire_first
  increment rule uid today ttl r =
      let r1 = redis.incr_by (total rule) 1 r in
      let r2 = redis.incr_by (daily rule today) 1 r1 in
      let r3 = redis.incr_by (user rule uid) 1 r2 in
      let new_total = get_or (redis.get (total rule) r1) 0 in
      let r4 = expire_first (total rule) new_total (86400 * 365) r3 in
      let r5 =
        expire_first (daily rule today) (get_or (redis.get (daily rule today) r2) 0) ttl r4 in
      (expire_first (user rule uid) (get_or (redis.get (user rule uid) r3) 0) ttl r5, new_total)

  -- `scriptIncrCheck`
  unfoldable pub incr_check :
      UsageLimits → String → String → String → ℕ → redis.R → redis.R × Code × Reply
  unfolding reached increment
  incr_check l rule uid today ttl r =
      if reached (redis.get (total rule) r) l.max_total
      then (r, total_hit, or_zero (redis.get (total rule) r))
      else if reached (redis.get (daily rule today) r) l.max_daily
      then (r, daily_hit, or_zero (redis.get (daily rule today) r))
      else if reached (redis.get (user rule uid) r) l.max_per_user
      then (r, user_hit, or_zero (redis.get (user rule uid) r))
      else (let new = increment rule uid today ttl r in (new.0, code_ok, number new.1))

  -- `IncrementAndCheck`
  unfoldable pub increment_and_check :
      UsageLimits → String → String → Reading → redis.R → redis.R × LimitResult
  unfolding has_any incr_check as_int ttl_at
  increment_and_check l rule uid today r =
      if not (has_any l)
      then (r, nothing_limits)
      else (let answer = incr_check l rule uid today.date (ttl_at today.now) r in
          (
            answer.0,
            record { allowed = is_ok answer.1; error_code = answer.1; current = as_int answer.2 },
          ))

  -- `scriptCheckAll`
  unfoldable pub check_all :
      UsageLimits → String → String → String → redis.R → Code × Reply × Reply × Reply
  unfolding or_zero
  check_all l rule uid today r =
      let cur_total = redis.get (total rule) r in
      let cur_daily = redis.get (daily rule today) r in
      let cur_user = redis.get (user rule uid) r in
      (
        (if leb l.max_total (get_or cur_total 0)
            then total_hit
            else if leb l.max_daily (get_or cur_daily 0)
            then daily_hit
            else if leb l.max_per_user (get_or cur_user 0)
            then user_hit
            else code_ok),
        or_zero cur_total,
        or_zero cur_daily,
        or_zero cur_user,
      )

  -- `CheckAllLimits`
  unfoldable pub check_all_limits : UsageLimits → String → String → String → redis.R → LimitResult
  unfolding has_any check_all as_int
  check_all_limits l rule uid today r =
      if not (has_any l)
      then nothing_limits
      else (let answer = check_all l rule uid today r in
          record {
            allowed = is_ok answer.0;
            error_code = answer.0;
            current = as_int answer.1 + as_int answer.2 + as_int answer.3;
          })

  -- `scriptBudgetReserve`, on amounts that are not negative.
  unfoldable pub budget_script : String → ℕ → ℕ → redis.R → redis.R × Code × Reply
  budget_script rule amount cap r =
      let used = get_or (redis.get (budget rule) r) 0 in
      let new_used = used + amount in
      if ltb 0 cap && ltb cap new_used
      then (r, budget_cap, number (cap - used))
      else (redis.set (budget rule) new_used r, code_ok, number new_used)

  -- `BudgetReserve`; `cents` is the conversion to int64 of a number of cents.
  unfoldable pub budget_reserve :
      (fl : Floats) → (fl.F → ℕ) → String → fl.F → fl.F → redis.R → redis.R × LimitResult
  unfolding budget_script as_int
  budget_reserve fl cents rule amount cap r =
      if fl.at_least (fl.of_int 0) cap
      then (r, nothing_limits)
      else (let answer =
            budget_script rule (cents (fl.mul amount (fl.of_int 100)))
              (cents (fl.mul cap (fl.of_int 100))) r in
          (
            answer.0,
            record { allowed = is_ok answer.1; error_code = answer.1; current = as_int answer.2 },
          ))
