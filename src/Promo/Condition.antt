-- ===== src/Promo/Condition.antt =====
-- services/promo-engine/model/model.go: the conditions of a rule and their evaluation.
use faisalaffan_design_syste.Base.{
  ℕ, ◌+◌, ◌*◌, String, Bool, true, false, not, ◌&&◌, ◌||◌, List, [], ◌∷◌, ltb, leb, if◌then◌else◌,
  length, ◌==◌, nat_key, string_key,
}
use faisalaffan_design_syste.Base.Ints.{ℤ, int_leb}
use faisalaffan_design_syste.Base.Floats.{Floats}
use faisalaffan_design_syste.Promo.Model.{EvalContext, Library}

abbrev pub cond_and : String
cond_and = "and"

abbrev pub cond_or : String
cond_or = "or"

abbrev pub cond_not : String
cond_not = "not"

abbrev pub cond_min_transaction : String
cond_min_transaction = "min_transaction"

abbrev pub cond_area : String
cond_area = "area"

abbrev pub cond_category : String
cond_category = "category"

abbrev pub cond_first_n_order : String
cond_first_n_order = "first_n_order"

abbrev pub cond_time_slot : String
cond_time_slot = "time_slot"

-- A condition, the children of a node, and a condition that may be nil.
mutual
  pub data Condition (F : Type 0) : Type 0 where
    composite : String → Conditions F → MaybeCondition F → Condition F
    min_transaction : F → Condition F
    area_of : List String → Condition F
    category_of : List String → Condition F
    first_n_order : ℤ → Condition F
    time_slot : String → String → List ℕ → Condition F

  pub data Conditions (F : Type 0) : Type 0 where
    nil : Conditions F
    cons : Condition F → Conditions F → Conditions F

  pub data MaybeCondition (F : Type 0) : Type 0 where
    absent : MaybeCondition F
    present : Condition F → MaybeCondition F

unfoldable pub any {ℓ} : {A : Type ℓ} → (A → Bool) → List A → Bool
any p [] = false
any p (x ∷ xs) = p x || any p xs

module _ (lib : Library) where
  unfoldable pub parse_minutes : String → ℕ
  parse_minutes hhmm = of_parts (lib.split hhmm ":")
    where
      of_parts : List String → ℕ
      of_parts (h ∷ m ∷ []) = lib.scan_int h * 60 + lib.scan_int m
      of_parts parts = 0

  -- The check of the minute of the day, for a slot that may go on past midnight.
  unfoldable pub in_interval : ℕ → ℕ → ℕ → Bool
  in_interval start finish cur =
      if leb start finish
      then not (ltb cur start || ltb finish cur)
      else not (ltb cur start && ltb finish cur)

  unfoldable pub day_matches : List ℕ → ℕ → Bool
  unfolding any
  day_matches [] now = true
  day_matches days now = any (λ d. lib.weekday now == d) days

  -- `TimeSlotCondition.Eval`, at the time that the context or the clock gives.
  unfoldable pub eval_slot : String → String → List ℕ → ℕ → Bool
  unfolding day_matches in_interval parse_minutes
  eval_slot start finish days now =
      if not (day_matches days now)
      then false
      else if not (start == "") && not (finish == "")
      then in_interval (parse_minutes start) (parse_minutes finish)
          (lib.hour now * 60 + lib.minute now)
      else true

  unfoldable pub eval_category : List String → List String → Bool
  unfolding any
  eval_category cats item_cats =
      if any (λ cat. any (λ item. lib.equal_fold cat item) item_cats) cats
      then true
      else length cats == 0

  module _ (fl : Floats) (clock : ℕ) (ctx : EvalContext fl.F) where
    unfoldable mutual
      unfolding any eval_category eval_slot

      -- `Eval` of each condition. The answer of a child is pure, so that evaluating it when the loop
      -- has returned already makes no difference.
      pub eval : Condition fl.F → Bool
      eval (composite type children single) =
          if type == cond_and
          then eval_all children
          else if type == cond_or
          then eval_any children
          else if type == cond_not
          then eval_not single
          else false
      eval (min_transaction min_amount) = fl.at_least ctx.cart_total min_amount
      eval (area_of areas) = any (λ allowed. lib.equal_fold allowed ctx.area) areas
      eval (category_of categories) = eval_category categories ctx.categories
      eval (first_n_order max_orders) = int_leb ctx.user_order_count max_orders
      eval (time_slot start finish days) =
          eval_slot start finish days (if ctx.now == 0 then clock else ctx.now)

      pub eval_all : Conditions fl.F → Bool
      eval_all nil = true
      eval_all (cons c cs) = if not (eval c) then false else eval_all cs

      pub eval_any : Conditions fl.F → Bool
      eval_any nil = false
      eval_any (cons c cs) = if eval c then true else eval_any cs

      pub eval_not : MaybeCondition fl.F → Bool
      eval_not absent = true
      eval_not (present c) = not (eval c)
