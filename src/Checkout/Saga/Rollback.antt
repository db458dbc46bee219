-- ===== src/Checkout/Saga/Rollback.antt =====
-- services/checkout-service/service/saga.go: what a saga leaves behind.
use faisalaffan_design_syste.Base.{
  ◌≡◌, refl, sym, ap, ◌∙◌, subst, ◌⊎◌, inl, inr, true, false, Option, none, some, List, [], ◌∷◌,
  ◌++◌, map, none-ne-some, All,
}
use mathlib.Core.List.{append_assoc, append-nil}
use faisalaffan_design_syste.Checkout.Saga.{
  StepHandler, SagaStep, SagaContext, SagaError, compensate_all, after_step, execute_from, execute,
}

module _ {S N E : Type 0} where
  -- Steps that succeed one after another.
  pub data Runs : List (StepHandler S N E) → S → S → Type 0 where
    nothing : {s : S} → Runs [] s s
    then :
        (step : StepHandler S N E) (rest : List (StepHandler S N E)) (s t u : S)
        → step.execute s ≡ (t, none)
        → Runs rest t u
        → Runs (step ∷ rest) s u

  -- The compensations of some steps, run from the last step to the first.
  pub data Compensated : List (StepHandler S N E) → S → S → Type 0 where
    none_left : {s : S} → Compensated [] s s
    last :
        (before : List (StepHandler S N E)) (step : StepHandler S N E) (s u : S)
        → Compensated before (step.compensate s).0 u
        → Compensated (before ++ step ∷ []) s u

  abbrev pub succeeded : StepHandler S N E → SagaStep N E
  succeeded step = record { name = step.name; success = true; error = none }

  abbrev pub failed_with : StepHandler S N E → E → SagaStep N E
  failed_with step err = record { name = step.name; success = false; error = some err }

  -- The two ends of a saga whose steps `completed` were done before.
  abbrev pub Completes :
      List (StepHandler S N E)
      → SagaContext S N E
      → SagaContext S N E × Option (SagaError N E)
      → Type 0
  Completes steps ctx r =
      (u : S) × Runs steps ctx.shared u
      × (r ≡ (record ctx { shared = u; steps = ctx.steps ++ map succeeded steps }, none))

  -- `Undo` says what has become of the shared state, from what the failing step left.
  pub record Fails (Undo : List (StepHandler S N E) → S → S → Type 0)
      (completed steps : List (StepHandler S N E)) (ctx : SagaContext S N E)
      (r : SagaContext S N E × Option (SagaError N E)) : Type 0 where
    pub done : List (StepHandler S N E)
    pub step : StepHandler S N E
    pub rest : List (StepHandler S N E)
    pub before : S
    pub after : S
    pub cause : E
    pub end : S
    pub split : steps ≡ done ++ step ∷ rest
    pub ran : Runs done ctx.shared before
    pub broke : step.execute before ≡ (after, some cause)
    pub undone : Undo (completed ++ done) after end
    pub result : r ≡ (
      record {
        shared = end;
        steps = ctx.steps ++ (map succeeded done ++ failed_with step cause ∷ []);
        failed_at = some step.name;
      },
      some (record { step = step.name; cause = cause }),
    )

  abbrev IsUndone : List (StepHandler S N E) → S → S → Type 0
  IsUndone completed s u = u ≡ compensate_all completed s

  -- The cases of one step, from the cases of the steps after it.
  after_step_cases :
      (completed steps : List (StepHandler S N E)) (step : StepHandler S N E)
      (ctx : SagaContext S N E) (r : S × Option E)
      → step.execute ctx.shared ≡ r
      → ((ctx' : SagaContext S N E)
          → Completes steps ctx' (execute_from (completed ++ step ∷ []) steps ctx')
            ⊎ Fails IsUndone
                (completed ++ step ∷ [])
                steps
                ctx'
                (execute_from (completed ++ step ∷ []) steps ctx'))
      → let r' = after_step step completed ctx r (execute_from (completed ++ step ∷ []) steps) in
        Completes (step ∷ steps) ctx r' ⊎ Fails IsUndone completed (step ∷ steps) ctx r'
  unfolding after_step
  after_step_cases completed steps step ctx (t, some err) e ih = inr (record {
    done = [];
    step = step;
    rest = steps;
    before = ctx.shared;
    after = t;
    cause = err;
    end = compensate_all completed t;
    split = refl;
    ran = nothing;
    broke = e;
    undone = ap (λ c. compensate_all c t) (sym (append-nil completed));
    result = refl;
  })
  after_step_cases completed steps step ctx (t, none) e ih =
      let ctx' : SagaContext S N E = record ctx {
        shared = t;
        steps = ctx.steps ++ succeeded step ∷ [];
      } in
      elim (ih ctx') [
        | inl (u, ran, r) ↦ inl (
          u,
          then step steps ctx.shared t u e ran,
          r
              ∙ ap (λ x. (record ctx { shared = u; steps = x }, none))
                  (append_assoc ctx.steps (succeeded step ∷ []) (map succeeded steps)),
        )
        | inr f ↦ inr (record {
          done = step ∷ f.done;
          step = f.step;
          rest = f.rest;
          before = f.before;
          after = f.after;
          cause = f.cause;
          end = f.end;
          split = ap (◌∷◌ step) f.split;
          ran = then step f.done ctx.shared t f.before e f.ran;
          broke = f.broke;
          undone =
              f.undone
              ∙ ap (λ c. compensate_all c f.after) (append_assoc completed (step ∷ []) f.done);
          result =
              f.result
              ∙ rw
                  (append_assoc ctx.steps (succeeded step ∷ [])
                    (map succeeded f.done ++ failed_with f.step f.cause ∷ []))
                  refl;
        })
      ]

  execute_from_cases :
      (completed steps : List (StepHandler S N E)) (ctx : SagaContext S N E)
      → Completes steps ctx (execute_from completed steps ctx)
        ⊎ Fails IsUndone completed steps ctx (execute_from completed steps ctx)
  unfolding execute_from
  execute_from_cases completed [] ctx = inl (ctx.shared, nothing, rw (append-nil ctx.steps))
  execute_from_cases completed (step ∷ steps) ctx =
      after_step_cases completed steps step ctx (step.execute ctx.shared) refl
        (execute_from_cases (completed ++ step ∷ []) steps)

  Compensated-first :
      (step : StepHandler S N E) (completed : List (StepHandler S N E)) (s u : S)
      → Compensated completed s u
      → Compensated (step ∷ completed) s (step.compensate u).0
  Compensated-first step [] s u none_left = last [] step s _ none_left
  Compensated-first step completed s u (last before step' s' u' h) =
      last (step ∷ before) step' s (step.compensate u).0
        (Compensated-first step before (step'.compensate s).0 u h)

  compensate_all-Compensated :
      (completed : List (StepHandler S N E)) (s : S)
      → Compensated completed s (compensate_all completed s)
  unfolding compensate_all
  compensate_all-Compensated [] s = none_left
  compensate_all-Compensated (step ∷ completed) s =
      Compensated-first step completed s (compensate_all completed s)
        (compensate_all-Compensated completed s)

  -- A saga either runs all its steps and returns no error, or stops at the first step that fails. Then
  -- it compensates exactly the steps before that one, the last first, records one success for each of
  -- them and one failure, and returns the step's error under its name.
  pub execute_cases :
      (steps : List (StepHandler S N E)) (ctx : SagaContext S N E)
      → Completes steps ctx (execute steps ctx) ⊎ Fails Compensated [] steps ctx (execute steps ctx)
  unfolding execute
  execute_cases steps ctx = elim (execute_from_cases [] steps ctx) [
    | inl done ↦ inl done
    | inr f ↦ inr (record {
      done = f.done;
      step = f.step;
      rest = f.rest;
      before = f.before;
      after = f.after;
      cause = f.cause;
      end = f.end;
      split = f.split;
      ran = f.ran;
      broke = f.broke;
      undone =
          subst (Compensated f.done f.after) (sym f.undone)
            (compensate_all-Compensated f.done f.after);
      result = f.result;
    })
  ]

  module _ {V : Type 0} (view : S → V) where
    -- A step's compensation takes its effect on the view back, whatever else has changed, and a step
    -- that fails has had no effect on it.
    pub record Undoes (step : StepHandler S N E) : Type 0 where
      pub undone :
          (s t u : S)
          → step.execute s ≡ (t, none)
          → view u ≡ view t
          → view (step.compensate u).0 ≡ view s
      pub no_effect : (s t : S) (err : E) → step.execute s ≡ (t, some err) → view t ≡ view s

    compensate_all-view :
        (steps : List (StepHandler S N E)) (s t u : S)
        → All Undoes steps
        → Runs steps s t
        → view u ≡ view t
        → view (compensate_all steps u) ≡ view s
    unfolding compensate_all
    compensate_all-view [] s t u h nothing e = e
    compensate_all-view (step ∷ steps) s t u h (then step' steps' s' m t' done ran) e =
        h.0.undone s m (compensate_all steps u) done (compensate_all-view steps m t u h.1 ran e)

    All-prefix :
        (P : StepHandler S N E → Type 0) (xs ys : List (StepHandler S N E))
        → All P (xs ++ ys)
        → All P xs
    All-prefix P [] ys h = tt
    All-prefix P (x ∷ xs) ys h = (h.0, All-prefix P xs ys h.1)

    All-last :
        (P : StepHandler S N E → Type 0) (xs ys : List (StepHandler S N E))
        → All P (xs ++ ys)
        → All P ys
    All-last P [] ys h = h
    All-last P (x ∷ xs) ys h = All-last P xs ys h.1

    -- If every step undoes its effect on a view of the state, a saga that returns an error leaves the
    -- view as it was.
    pub execute_atomic :
        (steps : List (StepHandler S N E)) (ctx : SagaContext S N E) (err : SagaError N E)
        → All Undoes steps
        → (execute steps ctx).1 ≡ some err
        → view (execute steps ctx).0.shared ≡ view ctx.shared
    unfolding execute
    execute_atomic steps ctx err h e = elim (execute_from_cases [] steps ctx) [
      | inl (u, ran, r) ↦ absurd (none-ne-some (sym (ap (λ x. x.1) r) ∙ e))
      | inr f ↦
          let h' = subst (All Undoes) f.split h in
          ap (λ x. view x.0.shared) f.result
          ∙ ap view f.undone
          ∙ compensate_all-view f.done ctx.shared f.before f.after
              (All-prefix Undoes f.done (f.step ∷ f.rest) h') f.ran
              ((All-last Undoes f.done (f.step ∷ f.rest) h').0.no_effect f.before f.after f.cause
                f.broke)
    ]
