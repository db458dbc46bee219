-- ===== src/Checkout/Samples.antt =====
-- The checkout saga at concrete inputs.
use faisalaffan_design_syste.Base.{
  ℕ, zero, suc, ◌+◌, ◌-◌, String, ◌≡◌, refl, sym, ap, ◌⊎◌, true, none, some, List, [], ◌∷◌, map,
  arith, if◌then◌else◌, none-ne-some, ◌==◌, nat_key, string_key, lookup, str_append,
}
use faisalaffan_design_syste.Checkout.Saga.{StepHandler, SagaContext, execute}
use faisalaffan_design_syste.Checkout.Saga.Rollback.{
  Completes, Fails, Compensated, Undoes, execute_cases, execute_atomic, succeeded,
}
use faisalaffan_design_syste.Checkout.Steps.{State, get_order}
use faisalaffan_design_syste.Checkout.Flow.{new_order, confirm_payment, total_from, pipeline}
use faisalaffan_design_syste.Checkout.Flow.Placed.{
  placed, announced, new_order_places, confirm_payment-new_order, total_exact,
}

-- A step that takes one seat, and one that finds none.
abbrev take_seat : StepHandler ℕ String ℕ
take_seat = record { name = "seat"; execute = λ s. (s + 1, none); compensate = λ s. (s - 1, none) }

abbrev no_seat : StepHandler ℕ String ℕ
no_seat = record { name = "none"; execute = λ s. (s, some 7); compensate = λ s. (s, none) }

abbrev seats : List (StepHandler ℕ String ℕ)
seats = take_seat ∷ take_seat ∷ no_seat ∷ take_seat ∷ []

abbrev empty_hall : SagaContext ℕ String ℕ
empty_hall = record { shared = 3; steps = []; failed_at = none }

take_seat-Undoes : Undoes {S = ℕ} (λ s. s) take_seat
take_seat-Undoes = record {
  undone = λ s t u e v. omega (arith, ap (λ r. r.0) e);
  no_effect = λ s t err e. absurd (none-ne-some (ap (λ r. r.1) e));
}

no_seat-Undoes : Undoes {S = ℕ} (λ s. s) no_seat
no_seat-Undoes = record {
  undone = λ s t u e v. absurd (none-ne-some (sym (ap (λ r. r.1) e)));
  no_effect = λ s t err e. sym (ap (λ r. r.0) e);
}

execute_cases_example :
    Completes seats empty_hall (execute seats empty_hall)
    ⊎ Fails Compensated [] seats empty_hall (execute seats empty_hall)
execute_cases_example = execute_cases seats empty_hall

execute_atomic_example : (execute seats empty_hall).0.shared ≡ 3
unfolding execute
execute_atomic_example =
    execute_atomic (λ s. s) seats empty_hall (record { step = "none"; cause = 7 })
      (take_seat-Undoes, (take_seat-Undoes, (no_seat-Undoes, (take_seat-Undoes, tt)))) refl

abbrev ids : ℕ → String
ids zero = "a"
ids (suc n) = str_append "b" (ids n)

abbrev request : State
request = record {
  order_id = "";
  user_id = "u1";
  items =
      record { product_id = "p"; name = "tea"; quantity = 3; unit_price = 20 }
      ∷ record { product_id = "q"; name = "cup"; quantity = 1; unit_price = 5 }
      ∷ [];
  total = 0;
  currency = "IDR";
  transaction_id = "";
  orders = [];
  outbox = [];
  drawn = 0;
  clock = λ n. 100 + n;
  ticks = 0;
}

request_total : total_from 0 request.items ≡ 65
request_total = (total_exact request.items).1 (omega arith)

new_order_places_example :
    let (s', r) = new_order ids request in
    (r.success ≡ true)
    × (r.order_id ≡ "a")
    × (r.order ≡ some (placed ids request))
    × (r.steps ≡ map succeeded (pipeline ids))
    × ((j : String) → get_order j s' ≡ (if "a" == j then some (placed ids request) else none))
    × (s'.outbox ≡ announced ids request)
unfolding lookup
new_order_places_example = new_order_places ids request

confirm_payment-new_order_example : (confirm_payment ids "a" (new_order ids request).0).1 ≡ none
confirm_payment-new_order_example = confirm_payment-new_order ids request
