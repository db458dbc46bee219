-- ===== src/Kit/Breaker/Settled.antt =====
-- The circuit breaker under calls that do not overlap.
use faisalaffan_design_syste.Base.{
  ℕ, ◌+◌, ◌≤◌, ◌<◌, String, ◌≡◌, refl, ◌↔◌, ◌⊎◌, inl, some, List, [], ◌∷◌, arith, length, All,
}
use faisalaffan_design_syste.Kit.Breaker.{
  closed, opened, Breaker, new, circuit_open, Call, execute, run,
}

-- Between two calls the circuit is closed below the threshold, or open at or above it.
abbrev pub IsSettled : Breaker → Type 0
IsSettled cb =
    ((cb.state ≡ closed) × (cb.failures < cb.threshold))
    ⊎ ((cb.state ≡ opened) × (cb.threshold ≤ cb.failures))

pub new-IsSettled : (name : String) (t r : ℕ) → 0 < t → IsSettled (new name t r)
unfolding new
new-IsSettled name t r h = inl (refl, h)

module _ {W E : Type 0} where
  pub threshold-execute :
      (c : Call W E) (cb : Breaker) (w : W) → (execute c cb w).0.threshold ≡ cb.threshold
  unfolding execute
  threshold-execute c cb w = ground arith

  -- A call keeps the circuit settled: a failed probe opens it again, a good one closes it.
  pub execute-IsSettled :
      (c : Call W E) (cb : Breaker) (w : W)
      → 0 < cb.threshold
      → IsSettled cb
      → IsSettled (execute c cb w).0
  unfolding execute
  execute-IsSettled c cb w pos h = ground arith

  -- The function is not called, and nothing changes, exactly when the circuit is open and its last
  -- failure is no longer ago than the timeout.
  pub execute_refused_iff :
      (c : Call W E) (cb : Breaker) (w : W)
      → (execute c cb w ≡ (cb, w, circuit_open cb.name))
        ↔ ((cb.state ≡ opened) × (c.started ≤ cb.last_failure + cb.reset_timeout))
  unfolding execute
  execute_refused_iff c cb w = ground arith

  abbrev pub Fails : Call W E → Type 0
  Fails c = (w : W) → (e : E) × ((c.fn w).1 ≡ some e)

  one_failing :
      (c : Call W E) (cb : Breaker) (w : W)
      → cb.state ≡ closed
      → Fails c
      → cb.failures + 1 < cb.threshold
      → let cb' = (execute c cb w).0 in
        (cb'.state ≡ closed) × (cb'.failures ≡ cb.failures + 1) × (cb'.threshold ≡ cb.threshold)
  unfolding execute
  one_failing c cb w st f lt = ground (arith, f w)

  -- From a closed circuit, failing calls are all admitted until the threshold is reached, and the
  -- circuit opens with exactly the call that reaches it.
  pub run_failing :
      (cs : List (Call W E)) (cb : Breaker) (w : W)
      → cb.state ≡ closed
      → cb.failures < cb.threshold
      → cb.failures + length cs ≤ cb.threshold
      → All Fails cs
      → let cb' = (run cs cb w).0 in
        (cb'.failures ≡ cb.failures + length cs)
        × ((cb'.state ≡ opened) ↔ (cb.failures + length cs ≡ cb.threshold))
  unfolding run
  run_failing [] cb w st lt le h = ground arith
  run_failing (c ∷ []) cb w st lt le h = unfold execute in ground (arith, h.0 w)
  run_failing (c ∷ d ∷ cs) cb w st lt le h =
      let next = (execute c cb w).0 in
      let (state, failures, threshold) = one_failing c cb w st h.0 (omega arith) in
      ground (
        arith,
        run_failing (d ∷ cs) (execute c cb w).0 (execute c cb w).1 state (omega arith) (omega arith)
            h.1,
      )
