-- ===== src/Kit/Breaker/Samples.antt =====
-- The circuit breaker at concrete inputs.
use faisalaffan_design_syste.Base.{ℕ, ◌+◌, ◌≡◌, refl, some, arith}
use faisalaffan_design_syste.Kit.Breaker.{leave, Breaker, opened, closed, half_open, Call, enter}
use faisalaffan_design_syste.Kit.Breaker.Probes.{
  Busy, Reach, here, next, enters, leaves, IsArmed, Reach-IsArmed,
}

-- A function that counts its calls and fails with error 5.
abbrev fails_at : ℕ → Call ℕ ℕ
fails_at t = record { fn = λ w. (w + 1, some 5); started = t; ended = t }

abbrev fresh : Breaker
fresh = record {
  state = closed;
  failures = 0;
  threshold = 2;
  reset_timeout = 10;
  last_failure = 0;
  name = "db";
}

abbrev tripped : Breaker
tripped = record fresh { state = opened; failures = 2; last_failure = 7 }

abbrev probing : Breaker
probing = record tripped { state = half_open }

abbrev idle_circuit : Busy
idle_circuit = record { breaker = fresh; flying = 0 }

enter-fresh : enter 3 fresh ≡ some fresh
unfolding enter
enter-fresh = refl

enter-fresh_later : enter 4 fresh ≡ some fresh
unfolding enter
enter-fresh_later = refl

-- Two calls are under way, and both fail: the second failure opens the circuit.
abbrev tripped_twice : Breaker
tripped_twice = leave {E = ℕ} (some 5) 8 (leave {E = ℕ} (some 5) 7 fresh)

both_fail :
    Reach ℕ
      (record { breaker = fresh; flying = 0 })
      (record { breaker = tripped_twice; flying = 0 })
both_fail =
    next
      (next (next (next here (enters _ 3 fresh enter-fresh)) (enters _ 4 fresh enter-fresh_later))
        (leaves _ 1 (some 5) 7 refl))
      (leaves _ 0 (some 5) 8 refl)

Reach-IsArmed_example : IsArmed 2 tripped_twice
Reach-IsArmed_example = Reach-IsArmed 2 (omega arith) (refl, λ closed_now. omega arith) both_fail
