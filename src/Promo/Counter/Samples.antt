-- ===== src/Promo/Counter/Samples.antt =====
-- Tests of the counters on association lists.
use faisalaffan_design_syste.Base.{
  ◌+◌, ◌≤◌, String, ◌≡◌, refl, inl, inr, true, false, List, [], ◌∷◌, map, arith, tally, nat_key,
  string_key, lookup, insert,
}
use faisalaffan_design_syste.Base.Redis.{Redis, Maps, maps_redis, no_maps}
use faisalaffan_design_syste.Promo.Model.{UsageLimits, has_any}
use faisalaffan_design_syste.Promo.Counter.{
  Key, daily, counter_key, LimitResult, Reading, increment_and_check,
}
use faisalaffan_design_syste.Promo.Counter.Bounds.{
  Call, Turn, counts_on, used, admitted, tally-admitted,
}
use faisalaffan_design_syste.Promo.Counter.Unset.{IsPartlyUnset, increment_and_check_twice}

abbrev counters : Redis Key Unit
counters = maps_redis

abbrev empty : Maps Key Unit
empty = no_maps

abbrev two_of_three : UsageLimits
two_of_three = record { max_total = 3; max_daily = 2; max_per_user = 2 }

abbrev one_user_only : UsageLimits
one_user_only = record { max_total = 100; max_daily = 0; max_per_user = 0 }

abbrev on : String → Reading
on date = record { date = date; now = 1_000_000_000 }

abbrev at_once : Call → Turn counters
at_once c = (λ r. r, c)

abbrev budi_calls : List (Turn counters)
budi_calls = map at_once (
    ("budi", on "01")
    ∷ ("budi", on "01")
    ∷ ("ani", on "01")
    ∷ ("budi", on "02")
    ∷ ("ani", on "02")
    ∷ ("ani", on "03")
    ∷ [])

budi_admitted :
    admitted counters two_of_three "r" budi_calls empty
    ≡ ("budi", on "01") ∷ ("budi", on "01") ∷ ("ani", on "02") ∷ []
unfolding admitted lookup insert
budi_admitted = refl

tally-admitted_example :
    used counters (daily "r" "01") empty
      + tally
          (λ c. counts_on "r" c (daily "r" "01"))
          (admitted counters two_of_three "r" budi_calls empty)
    ≤ 2
unfolding lookup
tally-admitted_example =
    tally-admitted counters two_of_three "r" (daily "r" "01") budi_calls empty (omega arith)
      ((λ r. refl), ((λ r. refl), ((λ r. refl), ((λ r. refl), ((λ r. refl), ((λ r. refl), tt))))))
      (omega arith)

first_use :
    LimitResult.allowed (increment_and_check counters one_user_only "r" "budi" (on "01") empty).1
    ≡ true
unfolding increment_and_check lookup
first_use = refl

one_user_only-IsPartlyUnset : IsPartlyUnset one_user_only
unfolding has_any
one_user_only-IsPartlyUnset = (refl, inr (inl refl))

increment_and_check_twice_example :
    LimitResult.allowed
      (increment_and_check counters one_user_only "r" "budi"
        (on "01")
        (increment_and_check counters one_user_only "r" "budi" (on "01") empty).0).1
    ≡ false
increment_and_check_twice_example =
    increment_and_check_twice counters one_user_only "r" "budi" (on "01") empty
      one_user_only-IsPartlyUnset first_use
