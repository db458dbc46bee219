-- ===== src/Snowflake/Samples.antt =====
-- Runs of the id generator.
use faisalaffan_design_syste.Base.{◌+◌, ◌-◌, ◌/◌, ◌%◌, ◌<◌, ◌≡◌, refl, [], ◌∷◌, arith}
use faisalaffan_design_syste.Snowflake.{
  epoch, Generator, next, new, id_of, wait, issue, issue_after,
}
use faisalaffan_design_syste.Snowflake.Layout.{id_of-fields}
use faisalaffan_design_syste.Snowflake.Order.{Calls, run, IsRising, run-IsRising}

abbrev worker : Generator
worker = record { worker_id = 7; sequence = 0; last_stamp = 0 }

abbrev busy : Generator
busy = record { worker_id = 7; sequence = 3; last_stamp = epoch + 5 }

id_of-fields_example :
    (id_of busy / 4194304 ≡ epoch + 5 - epoch)
    × (id_of busy / 4096 % 1024 ≡ 7)
    × (id_of busy % 4096 ≡ 3)
    × (id_of busy < 9223372036854775808)
id_of-fields_example = id_of-fields busy (record {
  worker = omega arith;
  sequence = omega arith;
  since = omega arith;
  until = omega arith;
})

abbrev calls : Calls
calls = (epoch + 1, []) ∷ (epoch + 1, []) ∷ (epoch, []) ∷ (epoch + 2, []) ∷ []

three_ids : run calls worker ≡ 4222976 ∷ 4222977 ∷ 8417280 ∷ []
unfolding run next issue issue_after id_of wait
three_ids = refl

run-IsRising_example : IsRising 0 (run calls worker)
unfolding new
run-IsRising_example = run-IsRising 7 worker calls refl (
  ((omega arith, omega arith), tt),
  (
    ((omega arith, omega arith), tt),
    (((omega arith, omega arith), tt), (((omega arith, omega arith), tt), tt)),
  ),
)
