-- ===== src/Limits/Samples.antt =====
-- Runs of the limiters.
use faisalaffan_design_syste.Base.{
  ℕ, ◌≤◌, max, String, ◌≡◌, refl, List, [], ◌∷◌, arith, tally, nat_key, string_key, lookup, insert,
}
use faisalaffan_design_syste.Limits.{FixedEntry, fixed_allow, fixed_found}
use faisalaffan_design_syste.Limits.Fixed.{admitted, admitted_bounded}
use faisalaffan_design_syste.Limits.Sliding.{allow_all, allow_all_bounded, is_recent}

abbrev no_windows : List (String × FixedEntry)
no_windows = []

abbrev calls : List (String × ℕ)
calls = ("a", 101) ∷ ("b", 102) ∷ ("a", 150) ∷ ("a", 199) ∷ []

two_of_three : admitted "a" 2 100 calls no_windows ≡ 2
unfolding admitted fixed_allow fixed_found insert lookup
two_of_three = refl

-- A limit of 0 admits the first call of a window.
zero_admits : admitted "a" 0 100 calls no_windows ≡ 1
unfolding admitted fixed_allow fixed_found insert lookup
zero_admits = refl

admitted_bounded_example : admitted "a" 2 100 calls no_windows ≤ max 2 1
admitted_bounded_example =
    admitted_bounded "a" 2 100 100 calls no_windows (refl, (refl, (refl, (refl, tt))))

abbrev no_times : List (String × List ℕ)
no_times = []

allow_all_bounded_example :
    tally (is_recent 100 170) (allow_all "a" 2 100 (10 ∷ 20 ∷ 30 ∷ 115 ∷ 170 ∷ []) ([], no_times)).0
    ≤ max 2 1
unfolding lookup
allow_all_bounded_example =
    allow_all_bounded "a" 2 100 0 170 (10 ∷ 20 ∷ 30 ∷ 115 ∷ 170 ∷ []) no_times refl
      (omega arith, (omega arith, (omega arith, (omega arith, (omega arith, tt))))) (omega arith)
