-- ===== src/Dispatch/Batcher/Running.antt =====
-- services/dispatch-service: service/batcher.go, the invariant of the running loop.
use faisalaffan_design_syste.Base.{
  ℕ, ◌≤◌, ◌<◌, max, ◌≡◌, refl, sym, ap, ◌∙◌, inl, inr, true, false, List, [], ◌∷◌, ◌++◌, arith, ltb,
  leb, Bool-cases, length, length-append, All, All-append,
}
use mathlib.Core.List.{append_assoc, append-nil}
use faisalaffan_design_syste.Dispatch.Model.{BatchConfig}
use faisalaffan_design_syste.Dispatch.Batcher.{
  BatchCollector, Signal, enqueue, expire, stop, new, start, flush, round, step, run, flush_pending,
}

module _ {O : Type 0} where
  abbrev pub concat : List (List O) → List O
  concat [] = []
  concat (b ∷ bs) = b ++ concat bs

  concat-append_one : (bs : List (List O)) (b : List O) → concat (bs ++ b ∷ []) ≡ concat bs ++ b
  concat-append_one [] b = append-nil b
  concat-append_one (c ∷ bs) b = rw (concat-append_one bs b) (sym (append_assoc c (concat bs) b))

  -- Every order that came in, in order: those sent on and those that wait.
  abbrev pub received : BatchCollector O → List O
  received bc = concat bc.batches ++ bc.pending

  -- A batch that was sent is not empty, and no longer than the threshold (or than one order).
  abbrev pub HasFit : ℕ → List O → Type 0
  HasFit n b = (0 < length b) × (length b ≤ max n 1)

  pub record IsRunning (bc : BatchCollector O) : Type 0 where
    pub started : bc.started ≡ true
    pub short : length bc.pending < max bc.config.min_orders 1
    pub fit : All (HasFit bc.config.min_orders) bc.batches
    pub emptied : bc.closed ≡ true → bc.pending ≡ []

  -- The orders of the signals that the loop reads before it stops.
  abbrev pub accepted : List (Signal O) → List O
  accepted [] = []
  accepted (enqueue o ∷ ss) = o ∷ accepted ss
  accepted (expire ∷ ss) = accepted ss
  accepted (stop ∷ ss) = []

  pub start-IsRunning : (c : BatchConfig) → IsRunning (start (new c))
  unfolding start new
  start-IsRunning c = record { started = refl; short = omega arith; fit = tt; emptied = λ h. refl }

  -- A flush moves what is pending to the end of what was sent.
  pub flush_lem :
      (bc : BatchCollector O) (ps : List O)
      → bc.pending ≡ ps
      → let bc' = flush_pending ps bc in
        (received bc' ≡ received bc)
        × (bc'.pending ≡ [])
        × (bc'.config ≡ bc.config)
        × (bc'.started ≡ bc.started)
        × (bc'.closed ≡ bc.closed)
  unfolding flush_pending
  flush_lem bc [] e = (refl, e, refl, refl, refl)
  flush_lem bc (o ∷ os) e = (
    append-nil _ ∙ concat-append_one bc.batches (o ∷ os) ∙ ap (◌++◌ (concat bc.batches)) (sym e),
    refl,
    refl,
    refl,
    refl,
  )

  flush-fit :
      (bc : BatchCollector O) (ps : List O)
      → bc.pending ≡ ps
      → length bc.pending ≤ max bc.config.min_orders 1
      → All (HasFit bc.config.min_orders) bc.batches
      → All (HasFit (flush_pending ps bc).config.min_orders) (flush_pending ps bc).batches
  unfolding flush_pending
  flush-fit bc [] e le h = h
  flush-fit bc (o ∷ os) e le h =
      All-append (HasFit bc.config.min_orders) bc.batches ((o ∷ os) ∷ [])
        ((omega arith, omega (arith, ap length e)), tt) h

  flush-IsRunning :
      (bc : BatchCollector O)
      → bc.started ≡ true
      → length bc.pending ≤ max bc.config.min_orders 1
      → All (HasFit bc.config.min_orders) bc.batches
      → IsRunning (flush bc)
  unfolding flush
  flush-IsRunning bc st le h =
      let (same, none_left, conf, start, clos) = flush_lem bc bc.pending refl in
      record {
        started = start ∙ st;
        short = omega (arith, ap length none_left);
        fit = flush-fit bc bc.pending refl le h;
        emptied = λ e. none_left;
      }

  received-flush : (bc : BatchCollector O) → received (flush bc) ≡ received bc
  unfolding flush
  received-flush bc = (flush_lem bc bc.pending refl).0

  pub round-IsRunning :
      (s : Signal O) (bc : BatchCollector O)
      → bc.closed ≡ false
      → IsRunning bc
      → IsRunning (round s bc)
  unfolding round
  round-IsRunning (enqueue o) bc op r =
      let more = length-append bc.pending (o ∷ []) in
      let bc' : BatchCollector O = record bc { pending = bc.pending ++ o ∷ [] } in
      elim (Bool-cases (leb bc.config.min_orders (length bc'.pending))) [
        | inl full ↦ rw full (flush-IsRunning bc' r.started (omega (arith, r.short)) r.fit)
        | inr room ↦ rw room (record {
          started = r.started;
          short = ground (arith, more);
          fit = r.fit;
          emptied = λ e. cc;
        })
      ]
  round-IsRunning expire bc op r = elim (Bool-cases (ltb 0 (length bc.pending))) [
    | inl some_wait ↦ rw some_wait (flush-IsRunning bc r.started (omega (arith, r.short)) r.fit)
    | inr none_wait ↦ rw none_wait r
  ]
  round-IsRunning stop bc op r =
      let f = flush-IsRunning bc r.started (omega (arith, r.short)) r.fit in
      record {
        started = f.started;
        short = f.short;
        fit = f.fit;
        emptied = λ e. (flush_lem bc bc.pending refl).1;
      }

  pub received-round :
      (s : Signal O) (bc : BatchCollector O)
      → received (round s bc) ≡ received bc ++ accepted (s ∷ [])
  unfolding round
  received-round (enqueue o) bc =
      let bc' : BatchCollector O = record bc { pending = bc.pending ++ o ∷ [] } in
      let regroup = sym (append_assoc (concat bc.batches) bc.pending (o ∷ [])) in
      elim (Bool-cases (leb bc.config.min_orders (length bc'.pending))) [
        | inl full ↦ rw full (received-flush bc' ∙ regroup)
        | inr room ↦ rw room regroup
      ]
  received-round expire bc = elim (Bool-cases (ltb 0 (length bc.pending))) [
    | inl some_wait ↦ rw some_wait (received-flush bc ∙ sym (append-nil _))
    | inr none_wait ↦ rw none_wait (sym (append-nil _))
  ]
  received-round stop bc = received-flush bc ∙ sym (append-nil _)

  pub step_open :
      (s : Signal O) (bc : BatchCollector O)
      → bc.started ≡ true
      → bc.closed ≡ false
      → step s bc ≡ round s bc
  unfolding step
  step_open s bc st op = simp (st, op)

  pub step_closed : (s : Signal O) (bc : BatchCollector O) → bc.closed ≡ true → step s bc ≡ bc
  unfolding step
  step_closed s bc cl = ground arith

  step-IsRunning : (s : Signal O) (bc : BatchCollector O) → IsRunning bc → IsRunning (step s bc)
  step-IsRunning s bc r = elim (Bool-cases bc.closed) [
    | inl done ↦ rw (step_closed s bc done) r
    | inr more ↦ rw (step_open s bc r.started more) (round-IsRunning s bc more r)
  ]

  -- After any signals the collector keeps fewer orders than the threshold, has sent no empty batch
  -- and none above the threshold, and keeps nothing once it is closed.
  pub run-IsRunning :
      (ss : List (Signal O)) (bc : BatchCollector O) → IsRunning bc → IsRunning (run ss bc)
  unfolding run
  run-IsRunning [] bc r = r
  run-IsRunning (s ∷ ss) bc r = run-IsRunning ss (step s bc) (step-IsRunning s bc r)
