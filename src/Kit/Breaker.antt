-- ===== src/Kit/Breaker.antt =====
-- pkg/kit/circuitbreaker/circuitbreaker.go. The clock is an argument: `started` is the time that
-- `time.Since` reads on entry, `ended` the time noted after a failure. `Execute` holds the lock in
-- two pieces, `enter` before the wrapped function and `leave` after it; counts are unbounded.
pub mod Settled
pub mod Probes
mod Samples
use faisalaffan_design_syste.Base.{
  ℕ, ◌+◌, String, Option, none, some, List, [], ◌∷◌, ltb, leb, if◌then◌else◌,
}

-- `opened` is the source's `Open`.
pub data State : Type 0 where
  closed opened half_open : State

pub record Breaker : Type 0 where
  pub state : State
  pub failures : ℕ
  pub threshold : ℕ
  pub reset_timeout : ℕ
  pub last_failure : ℕ
  pub name : String

pub new : String → ℕ → ℕ → Breaker
new name threshold reset_timeout = record {
  state = closed;
  failures = 0;
  threshold = threshold;
  reset_timeout = reset_timeout;
  last_failure = 0;
  name = name;
}

-- The first critical section for each state; `none` is the refusal of an open circuit.
enter_state : State → ℕ → Breaker → Option Breaker
enter_state opened now cb =
    if ltb (cb.last_failure + cb.reset_timeout) now
    then some (record cb { state = half_open })
    else none
enter_state closed now cb = some cb
enter_state half_open now cb = some cb

pub enter : ℕ → Breaker → Option Breaker
unfolding enter_state
enter now cb = enter_state cb.state now cb

-- After a success only a half-open circuit changes its state.
abbrev settle : State → State
settle closed = closed
settle opened = opened
settle half_open = closed

-- The second critical section, on the result of the wrapped function.
pub leave {ℓ} : {E : Type ℓ} → Option E → ℕ → Breaker → Breaker
leave (some e) now cb =
    let failures = cb.failures + 1 in
    record cb {
      failures = failures;
      last_failure = now;
      state = if leb cb.threshold failures then opened else cb.state;
    }
leave none now cb = record cb { failures = 0; state = settle cb.state }

-- What `Execute` returns: `nil`, the circuit's own error, or the function's.
pub data Outcome {ℓ} (E : Type ℓ) : Type ℓ where
  success : Outcome E
  circuit_open : String → Outcome E
  failed : E → Outcome E

abbrev pub outcome {ℓ} : {E : Type ℓ} → Option E → Outcome E
outcome none = success
outcome (some e) = failed e

-- One call: the function changes a world `W` and may fail.
pub record Call (W E : Type 0) : Type 0 where
  pub fn : W → W × Option E
  pub started : ℕ
  pub ended : ℕ

module _ {W E : Type 0} where
  finish : Call W E → Breaker → W → Breaker × W × Outcome E
  unfolding leave
  finish c cb w = let (w', err) = c.fn w in (leave err c.ended cb, w', outcome err)

  admit : Call W E → Breaker → W → Option Breaker → Breaker × W × Outcome E
  unfolding finish
  admit c cb w none = (cb, w, circuit_open cb.name)
  admit c cb w (some cb') = finish c cb' w

  pub execute : Call W E → Breaker → W → Breaker × W × Outcome E
  unfolding admit enter
  execute c cb w = admit c cb w (enter c.started cb)

  -- Calls one after another.
  pub run : List (Call W E) → Breaker → W → Breaker × W
  run [] cb w = (cb, w)
  run (c ∷ cs) cb w = let (cb', w', res) = execute c cb w in run cs cb' w'

-- `Counts`
pub counts : Breaker → ℕ × ℕ
counts cb = (cb.failures, cb.threshold)
