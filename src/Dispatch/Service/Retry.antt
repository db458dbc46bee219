-- ===== src/Dispatch/Service/Retry.antt =====
-- services/dispatch-service/service/reassign.go: the retries of an order end.
use faisalaffan_design_syste.Base.{
  ℕ, zero, suc, ◌+◌, ◌-◌, ◌≤◌, ◌<◌, String, ◌≡◌, refl, ap, inl, inr, Option, none, some, List, [],
  ◌∷◌, arith, ltb, ltb→lt, tests, Bool-cases, Option-cases, length, get_elem?, remove_at,
  remove_at-perm, nat_key, string_key, lookup,
}
use faisalaffan_design_syste.Base.Sums.{sum_by, sum_by-perm, sum_by-append}
use faisalaffan_design_syste.Base.Floats.{Floats}
use faisalaffan_design_syste.Dispatch.Model.{idle, assigned, Driver, MatchScore}
use faisalaffan_design_syste.Dispatch.Machine.{available_drivers, transition}
use faisalaffan_design_syste.Dispatch.Matcher.{find_best_driver}
use faisalaffan_design_syste.Dispatch.Service.{
  ReassignmentConfig, Service, start_retry, handle_release,
}
use faisalaffan_design_syste.Dispatch.Service.Rounds.{
  reassign_to, try_driver, elapse_found, elapse_at, elapse,
}

-- The timers that a waiting goroutine may still wait for.
abbrev pub timers_left : ReassignmentConfig → String × ℕ → ℕ
timers_left config (order_id, attempt) = suc (config.max_attempts - attempt)

get_elem?_of_lt :
    {A : Type 0} (i : ℕ) (xs : List A) → i < length xs → (x : A) × (get_elem? xs i ≡ some x)
get_elem?_of_lt i [] lt = absurd (omega (arith, lt))
get_elem?_of_lt zero (x ∷ xs) lt = (x, refl)
get_elem?_of_lt (suc i) (x ∷ xs) lt = get_elem?_of_lt i xs (omega (arith, lt))

module _ {F : Type 0} (config : ReassignmentConfig) where
  abbrev pub timers : Service F → ℕ
  timers sv = sum_by (timers_left config) sv.waiting_retries

  start_retry-timers :
      (order_id : String) (attempt : ℕ) (sv : Service F)
      → timers (start_retry config order_id attempt sv)
        ≡ timers sv + (suc config.max_attempts - attempt)
  unfolding start_retry
  start_retry-timers order_id attempt sv = elim (Bool-cases (ltb config.max_attempts attempt)) [
    | inl e ↦ rw e (omega (arith, ltb→lt config.max_attempts attempt e))
    | inr e ↦
        let le : attempt ≤ config.max_attempts = grind tests in
        rw e (
          omega (
            arith,
            le,
            sum_by-append (timers_left config) sv.waiting_retries ((order_id, attempt) ∷ []),
          ))
  ]

  handle_release-timers :
      (reason : String) (now : ℕ) (driver_id order_id : String) (sv : Service F)
      → timers (handle_release config reason now driver_id order_id sv).0
        ≤ timers sv + config.max_attempts
  unfolding handle_release
  handle_release-timers reason now driver_id order_id sv =
      elim (Option-cases (transition driver_id idle reason now sv.machine).1) [
        | inr (err, e) ↦ rw e (omega arith)
        | inl e ↦ rw e elim (Option-cases (lookup order_id sv.orders)) [
          | inl found ↦ rw found (omega arith)
          | inr (o, found) ↦ rw found (
              omega (
                arith,
                start_retry-timers order_id 1
                    (record sv { machine = (transition driver_id idle reason now sv.machine).0 }),
              ))
        ]
      ]

module _ (fl : Floats) (weights : MatchScore fl.F) (config : ReassignmentConfig) where
  try_driver-timers :
      (uuid : String) (now : ℕ) (order_id : String) (attempt : ℕ)
      (found : Option (Driver fl.F) × fl.F) (sv : Service fl.F)
      → timers config (try_driver fl weights config uuid now order_id attempt found sv)
        ≤ timers config sv + (config.max_attempts - attempt)
  unfolding try_driver reassign_to
  try_driver-timers uuid now order_id attempt (none, score) sv =
      omega (arith, start_retry-timers config order_id (attempt + 1) sv)
  try_driver-timers uuid now order_id attempt (some best, score) sv =
      elim (Option-cases (transition (Driver.id best) assigned "reassignment" now sv.machine).1) [
        | inr (err, e) ↦ rw e (omega (arith, start_retry-timers config order_id (attempt + 1) sv))
        | inl e ↦ rw e (omega arith)
      ]

  elapse-timers :
      (uuid : String) (now i : ℕ) (sv : Service fl.F)
      → i < length sv.waiting_retries
      → timers config (elapse fl weights config uuid now i sv) < timers config sv
  unfolding elapse elapse_at elapse_found
  elapse-timers uuid now i sv lt =
      let (w, e) = get_elem?_of_lt i sv.waiting_retries lt in
      let sv' = record sv { waiting_retries = remove_at i sv.waiting_retries } in
      let taken = sum_by-perm (timers_left config) (remove_at-perm i sv.waiting_retries w e) in
      rw e elim (Option-cases (lookup w.0 sv.orders)) [
        | inl found ↦ rw found (omega (arith, taken))
        | inr (o, found) ↦ rw found (
            omega (
              arith,
              taken,
              try_driver-timers uuid now w.0 w.1
                  (find_best_driver fl weights o (available_drivers sv.machine)) sv',
            ))
      ]

  -- A timer that elapses: a fresh id, the clock, a goroutine that waits, and the service then, of which
  -- everything but the goroutines may have changed since the timer before.
  abbrev pub Elapsed : Type 0
  Elapsed = String × ℕ × ℕ × Service fl.F

  -- The service at a timer, with the goroutines that have been waiting.
  abbrev pub with_waiting : Service fl.F → Service fl.F → Service fl.F
  with_waiting changed sv = record changed { waiting_retries = sv.waiting_retries }

  unfoldable pub elapse_all : List Elapsed → Service fl.F → Service fl.F
  unfolding elapse
  elapse_all [] sv = sv
  elapse_all ((uuid, now, i, changed) ∷ rest) sv =
      elapse_all rest (elapse fl weights config uuid now i (with_waiting changed sv))

  unfoldable pub AllWaited : List Elapsed → Service fl.F → Type 0
  AllWaited [] sv = Unit
  AllWaited ((uuid, now, i, changed) ∷ rest) sv =
      (i < length (Service.waiting_retries sv))
      × AllWaited rest (elapse fl weights config uuid now i (with_waiting changed sv))

  elapse_all-timers :
      (es : List Elapsed) (sv : Service fl.F)
      → AllWaited es sv
      → length es + timers config (elapse_all es sv) ≤ timers config sv
  unfolding elapse_all AllWaited
  elapse_all-timers [] sv waited = omega arith
  elapse_all-timers ((uuid, now, i, changed) ∷ rest) sv waited =
      let sv' = with_waiting changed sv in
      omega (
        arith,
        elapse-timers uuid now i sv' waited.0,
        elapse_all-timers rest (elapse fl weights config uuid now i sv') waited.1,
      )

  -- After a rejection or a timeout, while no other retry waits or starts, at most the configured number of
  -- timers elapses, whatever becomes in between of drivers, orders, assignments and everything else of
  -- the service but the goroutines.
  pub handle_release-ends :
      (reason : String) (now : ℕ) (driver_id order_id : String) (sv : Service fl.F)
      (es : List Elapsed)
      → sv.waiting_retries ≡ []
      → AllWaited es (handle_release config reason now driver_id order_id sv).0
      → length es ≤ config.max_attempts
  handle_release-ends reason now driver_id order_id sv es idle_before waited =
      let none_left : timers config sv ≡ 0 = ap (sum_by (timers_left config)) idle_before in
      omega (
        arith,
        none_left,
        handle_release-timers config reason now driver_id order_id sv,
        elapse_all-timers es (handle_release config reason now driver_id order_id sv).0 waited,
      )
