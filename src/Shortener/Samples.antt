-- ===== src/Shortener/Samples.antt =====
-- Urls that are shortened over a source of the numbers below 62 in order.
use faisalaffan_design_syste.Base.{
  ℕ, ◌<◌, String, ◌≡◌, refl, inl, inr, Option, none, some, List, [], ◌∷◌, arith, ltb, if◌then◌else◌,
  All, nat_key, string_key, lookup,
}
use faisalaffan_design_syste.Shortener.{Source, State, shorten, generate_failed}
use faisalaffan_design_syste.Shortener.Lookups.{
  IsShortened, IsFound, run, run-AllFound, shorten-IsShortened,
}

abbrev in_order : ℕ → ℕ → Option ℕ
in_order bound p = if ltb p bound then some p else none

in_order_lt : (bound p i : ℕ) → in_order bound p ≡ some i → i < bound
in_order_lt bound p i h = ground arith

abbrev rising : Source
rising = record { int = in_order; int_lt = in_order_lt }

abbrev stored : State
stored = record { data_of = ("abcdefg", "http://a") ∷ []; place = 0 }

-- The first code is in use, and the second is taken.
second_code :
    (shorten rising "http://s" "http://b" stored).1
    ≡ inr (record { short_url = "http://s/hijklmn"; code = "hijklmn" })
unfolding shorten lookup
second_code = refl

source_ends :
    (shorten rising "http://s" "http://b" (record stored { place = 57 })).1 ≡ inl generate_failed
unfolding shorten
source_ends = refl

shorten-IsShortened_example :
    IsShortened rising "http://s" "http://b" 5 stored (shorten rising "http://s" "http://b" stored)
shorten-IsShortened_example = shorten-IsShortened rising "http://s" "http://b" stored

abbrev urls : List String
urls = "http://b" ∷ "http://c" ∷ []

run-AllFound_example :
    All
      (IsFound rising "http://s" (run rising "http://s" urls stored).0)
      (run rising "http://s" urls stored).1
run-AllFound_example = run-AllFound rising "http://s" urls stored
