-- ===== src/Kit/Breaker/Probes.antt =====
-- pkg/kit/circuitbreaker/circuitbreaker.go: calls that overlap. The lock is released while the
-- wrapped function runs, so `enter` and `leave` of many calls interleave.
use faisalaffan_design_syste.Base.{ℕ, suc, ◌+◌, ◌<◌, ◌≡◌, Option, none, some, arith}
use faisalaffan_design_syste.Kit.Breaker.{closed, opened, half_open, Breaker, enter, leave}

-- The breaker, and how many wrapped functions are running.
pub record Busy : Type 0 where
  pub breaker : Breaker
  pub flying : ℕ

pub data Step (E : Type 0) : Busy → Busy → Type 0 where
  enters :
      (s : Busy) (now : ℕ) (cb : Breaker)
      → enter now s.breaker ≡ some cb
      → Step E s (record { breaker = cb; flying = suc s.flying })
  leaves :
      (s : Busy) (k : ℕ) (err : Option E) (now : ℕ)
      → s.flying ≡ suc k
      → Step E s (record { breaker = leave err now s.breaker; flying = k })

pub data Reach (E : Type 0) (s : Busy) : Busy → Type 0 where
  here : Reach E s s
  next : {t u : Busy} → Reach E s t → Step E t u → Reach E s u

-- A closed circuit is below its threshold.
abbrev pub IsArmed : ℕ → Breaker → Type 0
IsArmed t cb = (cb.threshold ≡ t) × (cb.state ≡ closed → cb.failures < t)

enter-IsArmed :
    (t now : ℕ) (cb cb' : Breaker) → IsArmed t cb → enter now cb ≡ some cb' → IsArmed t cb'
unfolding enter
enter-IsArmed t now cb cb' h e = ground arith

leave-IsArmed :
    {E : Type 0} (t : ℕ) (err : Option E) (now : ℕ) (cb : Breaker)
    → 0 < t
    → IsArmed t cb
    → IsArmed t (leave err now cb)
unfolding leave
leave-IsArmed t err now cb pos h = ground arith

module _ {E : Type 0} where
  -- However the calls overlap, whatever they return and whenever: with a threshold above 0, a circuit that
  -- is closed has fewer failures than its threshold, which stays what it was, if that is so at first.
  pub Reach-IsArmed :
      (t : ℕ) {a b : Busy} → 0 < t → IsArmed t a.breaker → Reach E a b → IsArmed t b.breaker
  Reach-IsArmed t pos h here = h
  Reach-IsArmed t pos h (next r (enters s now cb e)) =
      enter-IsArmed t now s.breaker cb (Reach-IsArmed t pos h r) e
  Reach-IsArmed t pos h (next r (leaves s k err now e)) =
      leave-IsArmed t err now s.breaker pos (Reach-IsArmed t pos h r)

  -- A success that returns late, when the circuit has opened, clears the failures: the next probe
  -- then fails without opening the circuit, which stays half-open and admits every call.
  late_success_disarms :
      (cb : Breaker) (e : E) (t0 t1 t2 : ℕ)
      → cb.state ≡ opened
      → 1 < cb.threshold
      → cb.last_failure + cb.reset_timeout < t1
      → (probe : Breaker) × (enter t1 (leave {E = E} none t0 cb) ≡ some probe)
        × ((leave (some e) t2 probe).state ≡ half_open)
  unfolding enter leave
  late_success_disarms cb e t0 t1 t2 st th late =
      (record cb { failures = 0; state = half_open }, ground arith, ground arith)
