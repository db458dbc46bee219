-- ===== src/Flash/Lottery/Tokens.antt =====
-- services/flash-sale: a lottery token buys once.
use faisalaffan_design_syste.Base.{
  ℕ, ◌+◌, min, String, ◌≡◌, refl, ◌∙◌, subst, ◌≢◌, inl, inr, false, none, some, List, [], ◌∷◌,
  Bool-cases, Option-cases, All, ◌==◌, nat_key, string_key, lookup, lookup-insert,
  lookup-insert_self, lookup-insert_ne,
}
use faisalaffan_design_syste.Flash.Pipeline.{invalid_attestation, only_status}
use faisalaffan_design_syste.Flash.Lottery.{
  default_lottery_checkout_ttl, members_of, Lotteries, enter, is_drawn, entry_count_of,
  store_winners, draw, verify_lottery_token, confirm_lottery_token, lottery_checkout,
}

confirmed-verify :
    (token : String) (l : Lotteries)
    → verify_lottery_token token (confirm_lottery_token token l) ≡ none
unfolding verify_lottery_token confirm_lottery_token
confirmed-verify token l = elim (Option-cases (lookup token l.tokens)) [
  | inl e ↦ rw (lookup-insert_self token _ l.tokens) (rw e refl)
  | inr (t, e) ↦ rw (lookup-insert_self token _ l.tokens) (rw e refl)
]

other-verify :
    (token other : String) (l : Lotteries)
    → (other == token) ≡ false
    → verify_lottery_token token (confirm_lottery_token other l) ≡ verify_lottery_token token l
unfolding verify_lottery_token confirm_lottery_token
other-verify token other l t = rw (lookup-insert other token _ l.tokens) (rw t refl)

-- What else happens to the lotteries, one call of the store at a time.
pub data Event : Type 0 where
  enters : String → String → Event
  draws : (ℕ → List String → List String) → (ℕ → String) → ℕ → String → ℕ → Event
  confirms : String → Event

unfoldable pub happen : Event → Lotteries → Lotteries
unfolding enter draw confirm_lottery_token
happen (enters pid uid) l = enter pid uid l
happen (draws pick fresh now pid count) l = (draw pick fresh now pid count l).0
happen (confirms token) l = confirm_lottery_token token l

unfoldable pub happen_all : List Event → Lotteries → Lotteries
unfolding happen
happen_all [] l = l
happen_all (e ∷ es) l = happen_all es (happen e l)

-- A draw makes other tokens.
abbrev pub Spares : String → Event → Type 0
Spares token (enters pid uid) = Unit
Spares token (draws pick fresh now pid count) = (i : ℕ) → fresh i ≢ token
Spares token (confirms other) = Unit

store_winners-lookup :
    (token : String) (fresh : ℕ → String) (expires_at : ℕ) (pid : String) (i : ℕ)
    (uids : List String) (l : Lotteries)
    → ((n : ℕ) → fresh n ≢ token)
    → lookup token (store_winners fresh expires_at pid i uids l).tokens ≡ lookup token l.tokens
unfolding store_winners
store_winners-lookup token fresh expires_at pid i [] l other = refl
store_winners-lookup token fresh expires_at pid i (uid ∷ uids) l other =
    store_winners-lookup token fresh expires_at pid (i + 1) uids _ other
    ∙ lookup-insert_ne (fresh i) token _ l.tokens (other i)

verify-tokens :
    (token : String) (l l' : Lotteries)
    → lookup token l'.tokens ≡ lookup token l.tokens
    → verify_lottery_token token l' ≡ verify_lottery_token token l
unfolding verify_lottery_token
verify-tokens token l l' e = rw e refl

draw-lookup :
    (token : String) (pick : ℕ → List String → List String) (fresh : ℕ → String) (now : ℕ)
    (pid : String) (count : ℕ) (l : Lotteries)
    → ((n : ℕ) → fresh n ≢ token)
    → lookup token (draw pick fresh now pid count l).0.tokens ≡ lookup token l.tokens
unfolding draw
draw-lookup token pick fresh now pid count l other = elim (Bool-cases (is_drawn pid l)) [
  | inl t ↦ rw t refl
  | inr t ↦ rw t elim (Bool-cases (entry_count_of pid l == 0)) [
    | inl z ↦ rw z refl
    | inr z ↦ rw z (
        store_winners-lookup token fresh (now + default_lottery_checkout_ttl) pid 0
          (pick (min count (entry_count_of pid l)) (members_of pid l.entries)) l other)
  ]
]

happen-verify :
    (token : String) (e : Event) (l : Lotteries)
    → Spares token e
    → verify_lottery_token token l ≡ none
    → verify_lottery_token token (happen e l) ≡ none
unfolding happen enter
happen-verify token (enters pid uid) l spares h = verify-tokens token l (enter pid uid l) refl ∙ h
happen-verify token (draws pick fresh now pid count) l spares h =
    verify-tokens token l _ (draw-lookup token pick fresh now pid count l spares) ∙ h
happen-verify token (confirms other) l spares h = elim (Bool-cases (other == token)) [
  | inl t ↦
      subst (λ k. verify_lottery_token k (confirm_lottery_token other l) ≡ none)
        ((string_key.test_iff other token).0 t) (confirmed-verify other l)
  | inr t ↦ other-verify token other l t ∙ h
]

happen_all-verify :
    (token : String) (es : List Event) (l : Lotteries)
    → All (Spares token) es
    → verify_lottery_token token l ≡ none
    → verify_lottery_token token (happen_all es l) ≡ none
unfolding happen_all
happen_all-verify token [] l spares h = h
happen_all-verify token (e ∷ es) l spares h =
    happen_all-verify token es (happen e l) spares.1 (happen-verify token e l spares.0 h)

refused :
    (order_id token : String) (read l : Lotteries)
    → verify_lottery_token token read ≡ none
    → lottery_checkout order_id token read l ≡ (l, only_status invalid_attestation)
unfolding lottery_checkout
refused order_id token read l e = rw e refl

-- After a checkout with a lottery token has been completed, and any entries, draws that do not make the
-- token again and confirmations have happened, every checkout with it that starts then is refused and
-- changes nothing, whatever happens while it runs.
pub lottery_checkout_once :
    (first second token : String) (owner : String × String) (read l later : Lotteries)
    (es : List Event)
    → verify_lottery_token token read ≡ some owner
    → All (Spares token) es
    → lottery_checkout second token (happen_all es (lottery_checkout first token read l).0) later
      ≡ (later, only_status invalid_attestation)
unfolding lottery_checkout
lottery_checkout_once first second token owner read l later es valid spares = rw valid (
    refused second token (happen_all es (confirm_lottery_token token l)) later (
      happen_all-verify token es (confirm_lottery_token token l) spares (confirmed-verify token l)))
