-- ===== src/Dispatch/Batcher/Conserve.antt =====
-- services/dispatch-service/service/batcher.go: no order is lost, doubled or reordered.
use faisalaffan_design_syste.Base.{
  ◌≡◌, refl, sym, ap, ◌∙◌, inl, inr, Bool, true, false, List, [], ◌∷◌, ◌++◌, ltb, leb, Bool-cases,
  length,
}
use mathlib.Core.List.{append_assoc, append-nil}
use faisalaffan_design_syste.Dispatch.Model.{BatchConfig}
use faisalaffan_design_syste.Dispatch.Batcher.{
  BatchCollector, Signal, enqueue, expire, stop, new, start, flush, round, run,
}
use faisalaffan_design_syste.Dispatch.Batcher.Running.{
  concat, received, IsRunning, accepted, start-IsRunning, flush_lem, round-IsRunning,
  received-round, step_open, step_closed, run-IsRunning,
}

module _ {O : Type 0} where
  run_closed : (ss : List (Signal O)) (bc : BatchCollector O) → bc.closed ≡ true → run ss bc ≡ bc
  unfolding run
  run_closed [] bc cl = refl
  run_closed (s ∷ ss) bc cl = rw (step_closed s bc cl) (run_closed ss bc cl)

  closed-flush : (bc : BatchCollector O) → (flush bc).closed ≡ bc.closed
  unfolding flush
  closed-flush bc = (flush_lem bc bc.pending refl).4

  started-flush : (bc : BatchCollector O) → (flush bc).started ≡ bc.started
  unfolding flush
  started-flush bc = (flush_lem bc bc.pending refl).3

  closed-enqueue : (o : O) (bc : BatchCollector O) → (round (enqueue o) bc).closed ≡ bc.closed
  unfolding round
  closed-enqueue o bc =
      let bc' : BatchCollector O = record bc { pending = bc.pending ++ o ∷ [] } in
      elim (Bool-cases (leb bc.config.min_orders (length bc'.pending))) [
        | inl full ↦ rw full (closed-flush bc')
        | inr room ↦ rw room
      ]

  closed-expire : (bc : BatchCollector O) → (round expire bc).closed ≡ bc.closed
  unfolding round
  closed-expire bc = elim (Bool-cases (ltb 0 (length bc.pending))) [
    | inl some_wait ↦ rw some_wait (closed-flush bc)
    | inr none_wait ↦ rw none_wait
  ]

  closed-stop : (bc : BatchCollector O) → (round stop bc).closed ≡ true
  unfolding round
  closed-stop bc = refl

  -- The orders sent on, followed by those that wait, are the orders received before the stop, each
  -- once and in order.
  pub received-run :
      (ss : List (Signal O)) (bc : BatchCollector O)
      → IsRunning bc
      → bc.closed ≡ false
      → received (run ss bc) ≡ received bc ++ accepted ss
  unfolding run
  received-run [] bc r cl = sym (append-nil _)
  received-run (enqueue o ∷ ss) bc r cl =
      ap (λ b. received (run ss b)) (step_open (enqueue o) bc r.started cl)
      ∙ (received-run ss (round (enqueue o) bc) (round-IsRunning (enqueue o) bc cl r)
            (closed-enqueue o bc ∙ cl)
          ∙ ap (λ x. x ++ accepted ss) (received-round (enqueue o) bc)
          ∙ append_assoc (received bc) (o ∷ []) (accepted ss))
  received-run (expire ∷ ss) bc r cl =
      ap (λ b. received (run ss b)) (step_open expire bc r.started cl)
      ∙ (received-run ss (round expire bc) (round-IsRunning expire bc cl r) (closed-expire bc ∙ cl)
          ∙ ap (λ x. x ++ accepted ss) (received-round expire bc ∙ append-nil _))
  received-run (stop ∷ ss) bc r cl =
      ap (λ b. received (run ss b)) (step_open stop bc r.started cl)
      ∙ ap received (run_closed ss (round stop bc) (closed-stop bc))
      ∙ received-round stop bc

  abbrev pub stops : List (Signal O) → Bool
  stops [] = false
  stops (enqueue o ∷ ss) = stops ss
  stops (expire ∷ ss) = stops ss
  stops (stop ∷ ss) = true

  started-round : (s : Signal O) (bc : BatchCollector O) → (round s bc).started ≡ bc.started
  unfolding round
  started-round (enqueue o) bc =
      let bc' : BatchCollector O = record bc { pending = bc.pending ++ o ∷ [] } in
      elim (Bool-cases (leb bc.config.min_orders (length bc'.pending))) [
        | inl full ↦ rw full (started-flush bc')
        | inr room ↦ rw room
      ]
  started-round expire bc = elim (Bool-cases (ltb 0 (length bc.pending))) [
    | inl some_wait ↦ rw some_wait (started-flush bc)
    | inr none_wait ↦ rw none_wait
  ]
  started-round stop bc = started-flush bc

  closed-run :
      (ss : List (Signal O)) (bc : BatchCollector O)
      → bc.started ≡ true
      → bc.closed ≡ false
      → stops ss ≡ true
      → (run ss bc).closed ≡ true
  unfolding run
  closed-run [] bc st cl h = cc
  closed-run (enqueue o ∷ ss) bc st cl h =
      ap (λ b. (run ss b).closed) (step_open (enqueue o) bc st cl)
      ∙ (closed-run ss (round (enqueue o) bc) (started-round (enqueue o) bc ∙ st)
          (closed-enqueue o bc ∙ cl) h)
  closed-run (expire ∷ ss) bc st cl h =
      ap (λ b. (run ss b).closed) (step_open expire bc st cl)
      ∙ (closed-run ss (round expire bc) (started-round expire bc ∙ st) (closed-expire bc ∙ cl) h)
  closed-run (stop ∷ ss) bc st cl h =
      ap (λ b. (run ss b).closed) (step_open stop bc st cl)
      ∙ ap (λ b. b.closed) (run_closed ss (round stop bc) (closed-stop bc))
      ∙ closed-stop bc

fresh :
    {O : Type 0} (c : BatchConfig)
    → ((start (new {O = O} c)).closed ≡ false) × (received (start (new {O = O} c)) ≡ [])
unfolding start new
fresh c = (refl, refl)

-- From the start, once the collector has been stopped, the batches sent hold the orders received
-- before the stop, each once and in order: none is left behind.
pub stopped_sends_all :
    {O : Type 0} (c : BatchConfig) (ss : List (Signal O))
    → stops ss ≡ true
    → concat (run ss (start (new c))).batches ≡ accepted ss
stopped_sends_all c ss h =
    let r = run-IsRunning ss (start (new c)) (start-IsRunning c) in
    let empty =
      r.emptied (closed-run ss (start (new c)) (start-IsRunning c).started (fresh c).0 h) in
    sym (append-nil _)
    ∙ ap (◌++◌ (concat (run ss (start (new c))).batches)) (sym empty)
    ∙ received-run ss (start (new c)) (start-IsRunning c) (fresh c).0
    ∙ ap (λ x. x ++ accepted ss) (fresh c).1
