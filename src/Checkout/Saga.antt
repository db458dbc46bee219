-- ===== src/Checkout/Saga.antt =====
-- services/checkout-service/service/saga.go, the orchestrator, over any steps. `S` is the state that
-- steps share: the context's data and the world outside. `N` names steps and `E` is the type of errors.
pub mod Rollback
use faisalaffan_design_syste.Base.{Bool, true, false, Option, none, some, List, [], ◌∷◌, ◌++◌}

-- `StepHandler`
pub record StepHandler (S N E : Type 0) : Type 0 where
  pub name : N
  pub execute : S → S × Option E
  pub compensate : S → S × Option E

-- `SagaStep`, the record of one step.
pub record SagaStep (N E : Type 0) : Type 0 where
  pub name : N
  pub success : Bool
  pub error : Option E

-- `ctx.Steps` and `ctx.FailedAt` beside the shared state.
pub record SagaContext (S N E : Type 0) : Type 0 where
  pub shared : S
  pub steps : List (SagaStep N E)
  pub failed_at : Option N

-- The error that `Execute` wraps.
pub record SagaError (N E : Type 0) : Type 0 where
  pub step : N
  pub cause : E

module _ {S N E : Type 0} where
  -- Compensation runs over `completed` from its end; an error is only logged.
  pub compensate_all : List (StepHandler S N E) → S → S
  compensate_all [] s = s
  compensate_all (c ∷ cs) s = (c.compensate (compensate_all cs s)).0

  -- One step's record, and what follows: `completed` holds the steps done so far, in order.
  after_step :
      StepHandler S N E
      → List (StepHandler S N E)
      → SagaContext S N E
      → S × Option E
      → (SagaContext S N E → SagaContext S N E × Option (SagaError N E))
      → SagaContext S N E × Option (SagaError N E)
  unfolding compensate_all
  after_step step completed ctx (s', some err) rest =
      let failed : SagaStep N E = record { name = step.name; success = false; error = some err } in
      (
        record {
          shared = compensate_all completed s';
          steps = ctx.steps ++ failed ∷ [];
          failed_at = some step.name;
        },
        some (record { step = step.name; cause = err }),
      )
  after_step step completed ctx (s', none) rest =
      let done : SagaStep N E = record { name = step.name; success = true; error = none } in
      rest (record ctx { shared = s'; steps = ctx.steps ++ done ∷ [] })

  pub execute_from :
      List (StepHandler S N E)
      → List (StepHandler S N E)
      → SagaContext S N E
      → SagaContext S N E × Option (SagaError N E)
  unfolding after_step
  execute_from completed [] ctx = (ctx, none)
  execute_from completed (step ∷ steps) ctx =
      after_step step completed ctx (step.execute ctx.shared)
        (execute_from (completed ++ step ∷ []) steps)

  -- `Execute`
  unfoldable pub execute :
      List (StepHandler S N E) → SagaContext S N E → SagaContext S N E × Option (SagaError N E)
  unfolding execute_from
  execute steps ctx = execute_from [] steps ctx
