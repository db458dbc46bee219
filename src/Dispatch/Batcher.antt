-- ===== src/Dispatch/Batcher.antt =====
-- services/dispatch-service/service/batcher.go. The goroutine's loop is a function on the signals it
-- selects; `batches` holds what has been sent on the output channel, oldest first. A second `Start`
-- and signals after `Stop` change nothing, since the loop has one goroutine and returns.
pub mod Running
pub mod Conserve
use faisalaffan_design_syste.Base.{
  Bool, true, false, not, ◌&&◌, List, [], ◌∷◌, ◌++◌, ltb, leb, if◌then◌else◌, length,
}
use faisalaffan_design_syste.Dispatch.Model.{BatchConfig}

pub record BatchCollector (O : Type 0) : Type 0 where
  pub config : BatchConfig
  pub pending : List O
  pub batches : List (List O)
  pub started : Bool
  pub closed : Bool

-- What `select` may receive: an order, the timer, or the close of `closeCh`.
pub data Signal (O : Type 0) : Type 0 where
  enqueue : O → Signal O
  expire : Signal O
  stop : Signal O

module _ {O : Type 0} where
  pub new : BatchConfig → BatchCollector O
  new config = record {
    config = config;
    pending = [];
    batches = [];
    started = false;
    closed = false;
  }

  pub start : BatchCollector O → BatchCollector O
  start bc = if bc.started then bc else record bc { started = true; pending = [] }

  pub flush_pending : List O → BatchCollector O → BatchCollector O
  flush_pending [] bc = bc
  flush_pending (o ∷ os) bc = record bc { pending = []; batches = bc.batches ++ (o ∷ os) ∷ [] }

  pub flush : BatchCollector O → BatchCollector O
  unfolding flush_pending
  flush bc = flush_pending bc.pending bc

  -- One round of the loop while it runs.
  pub round : Signal O → BatchCollector O → BatchCollector O
  unfolding flush
  round (enqueue o) bc =
      let bc' = record bc { pending = bc.pending ++ o ∷ [] } in
      if leb bc.config.min_orders (length bc'.pending) then flush bc' else bc'
  round expire bc = if ltb 0 (length bc.pending) then flush bc else bc
  round stop bc = let bc' = flush bc in record bc' { closed = true }

  pub step : Signal O → BatchCollector O → BatchCollector O
  unfolding round
  step s bc = if bc.started && not bc.closed then round s bc else bc

  pub run : List (Signal O) → BatchCollector O → BatchCollector O
  run [] bc = bc
  run (s ∷ ss) bc = run ss (step s bc)
