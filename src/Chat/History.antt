-- ===== src/Chat/History.antt =====
-- services/chat-system/room/room.go: what a room remembers, and a client that leaves after it was
-- dropped.
use faisalaffan_design_syste.Base.{
  ℕ, zero, suc, ◌-◌, ◌≤◌, ◌<◌, String, ◌≡◌, refl, sym, ap, ◌∙◌, subst, inl, inr, Bool, true, Option,
  none, some, List, [], ◌∷◌, ◌++◌, arith, ltb, Bool-cases, length, length-append, drop, length-drop,
  nat_key, string_key, ==-refl, contains,
}
use faisalaffan_design_syste.Chat.{
  Message, Room, new_room, Signal, join, leave, broadcast, without, trimmed, deliver, step,
  and_then, run,
}

-- The messages among signals, in order.
abbrev pub messages : List Signal → List Message
messages [] = []
messages (join c ∷ ss) = messages ss
messages (leave c ∷ ss) = messages ss
messages (broadcast none full ∷ ss) = messages ss
messages (broadcast (some msg) full ∷ ss) = msg ∷ messages ss

-- The last `n` of some messages.
abbrev pub latest : ℕ → List Message → List Message
latest n ms = drop (length ms - n) ms

drop-append : (n : ℕ) (ms ns : List Message) → n ≤ length ms → drop n (ms ++ ns) ≡ drop n ms ++ ns
drop-append zero ms ns h = refl
drop-append (suc n) [] ns h = absurd (omega (arith, h))
drop-append (suc n) (x ∷ ms) ns h = drop-append n ms ns (omega (arith, h))

drop-drop_one : (n : ℕ) (ms : List Message) → drop 1 (drop n ms) ≡ drop (suc n) ms
drop-drop_one zero ms = refl
drop-drop_one (suc n) [] = refl
drop-drop_one (suc n) (x ∷ ms) = drop-drop_one n ms

trimmed-latest : (n : ℕ) (ms : List Message) → trimmed n ms ≡ latest n ms
trimmed-latest n ms = elim (Bool-cases (ltb n (length ms))) [
  | inl t ↦ rw t refl
  | inr t ↦ let e : length ms - n ≡ 0 = ground (arith, t) in rw t (sym (ap (λ k. drop k ms) e))
]

trimmed_next :
    (n : ℕ) (past : List Message) (msg : Message)
    → 0 < n
    → trimmed n (latest n past ++ msg ∷ []) ≡ latest n (past ++ msg ∷ [])
trimmed_next n past msg h =
    trimmed-latest n (latest n past ++ msg ∷ []) ∙ elim (Bool-cases (ltb (length past) n)) [
      | inl t ↦
          let e : length past - n ≡ 0 = ground (arith, t) in
          ap (λ k. latest n (drop k past ++ msg ∷ [])) e
      | inr t ↦
          let le : n ≤ length past = ground (arith, t) in
          let k = length past - n in
          let one : length (drop k past ++ msg ∷ []) - n ≡ 1 =
            omega (arith, le, length-append (drop k past) (msg ∷ []), length-drop k past) in
          let more : length (past ++ msg ∷ []) - n ≡ suc k =
            omega (arith, le, length-append past (msg ∷ [])) in
          ap (λ i. drop i (drop k past ++ msg ∷ [])) one
          ∙ drop-append 1 (drop k past) (msg ∷ []) (omega (arith, le, h, length-drop k past))
          ∙ ap (λ x. x ++ msg ∷ []) (drop-drop_one k past)
          ∙ sym (drop-append (suc k) past (msg ∷ []) (omega (arith, le, h)))
          ∙ sym (ap (λ i. drop i (past ++ msg ∷ [])) more)
    ]

-- The room holds the latest messages of `past`.
abbrev pub Holds : List Message → Room → Type 0
Holds past r = (r.history ≡ latest 100 past) × (r.max_history ≡ 100)

abbrev pub HoldsUnlessPanic : List Message → Option Room → Type 0
HoldsUnlessPanic past none = Unit
HoldsUnlessPanic past (some r) = Holds past r

deliver-Holds :
    (msg : Message) (full : ℕ → Bool) (cs : List ℕ) (past : List Message) (r : Room)
    → Holds past r
    → HoldsUnlessPanic past (deliver msg full cs r)
unfolding deliver
deliver-Holds msg full [] past r h = h
deliver-Holds msg full (c ∷ cs) past r h =
    let dropped = record r { clients = without c r.clients; closed = c ∷ r.closed } in
    let served = record r { sent = r.sent ++ (c, msg) ∷ [] } in
    elim (Bool-cases (contains c r.closed)) [
      | inl t ↦ rw t tt
      | inr t ↦ rw t (elim (Bool-cases (full c)) [
        | inl f ↦ rw f (deliver-Holds msg full cs past dropped h)
        | inr f ↦ rw f (deliver-Holds msg full cs past served h)
      ])
    ]

append-cons :
    (past : List Message) (msg : Message) (ms : List Message)
    → (past ++ msg ∷ []) ++ ms ≡ past ++ msg ∷ ms
append-cons [] msg ms = refl
append-cons (x ∷ past) msg ms = ap (◌∷◌ x) (append-cons past msg ms)

append-nil : (past : List Message) → past ++ [] ≡ past
append-nil [] = refl
append-nil (x ∷ past) = ap (◌∷◌ x) (append-nil past)

rest-Holds :
    (ss : List Signal) (past all : List Message) (o : Option Room)
    → ((r : Room) → Holds past r → HoldsUnlessPanic all (run ss r))
    → HoldsUnlessPanic past o
    → HoldsUnlessPanic all (and_then o (run ss))
rest-Holds ss past all none next h = tt
rest-Holds ss past all (some r) next h = next r h

run-Holds :
    (ss : List Signal) (past : List Message) (r : Room)
    → Holds past r
    → HoldsUnlessPanic (past ++ messages ss) (run ss r)
unfolding run step
run-Holds [] past r h = subst (λ x. Holds x r) (sym (append-nil past)) h
run-Holds (join c ∷ ss) past r h = elim (Bool-cases (contains c r.clients)) [
  | inl t ↦ rw t (run-Holds ss past r h)
  | inr t ↦ rw t (run-Holds ss past (record r { clients = c ∷ r.clients }) h)
]
run-Holds (leave c ∷ ss) past r h = elim (Bool-cases (contains c r.closed)) [
  | inl t ↦ rw t tt
  | inr t ↦
      rw t (run-Holds ss past (record r { clients = without c r.clients; closed = c ∷ r.closed }) h)
]
run-Holds (broadcast none full ∷ ss) past r h = run-Holds ss past r h
run-Holds (broadcast (some msg) full ∷ ss) past r h =
    let next = past ++ msg ∷ [] in
    let r1 = record r { history = trimmed r.max_history (r.history ++ msg ∷ []) } in
    let kept : Holds next r1 = (
      ap (λ k. trimmed k (r.history ++ msg ∷ [])) h.1
          ∙ ap (λ x. trimmed 100 (x ++ msg ∷ [])) h.0
          ∙ trimmed_next 100 past msg (omega arith),
      h.1,
    ) in
    rest-Holds ss next (past ++ msg ∷ messages ss) (deliver msg full r.clients r1)
      (λ r2 h2.
        subst (λ x. HoldsUnlessPanic x (run ss r2)) (append-cons past msg (messages ss))
          (run-Holds ss next r2 h2))
      (deliver-Holds msg full r.clients next r1 kept)

-- A new room that has taken any signals, and has not panicked, holds the last 100 of the messages
-- that were broadcast, in their order.
pub history-latest :
    (name : String) (ss : List Signal) (r : Room)
    → run ss (new_room name) ≡ some r
    → r.history ≡ latest 100 (messages ss)
history-latest name ss r e =
    (subst (HoldsUnlessPanic (messages ss)) e (run-Holds ss [] (new_room name) (refl, refl))).0

-- A room where a client is alone and its buffer is full when a message is sent drops the client; when
-- that client then leaves, as a connection that ends does, its channel is closed again: a panic.
pub leave_after_drop :
    (c : ℕ) (msg : Message) (full : ℕ → Bool) (r : Room) (rest : List Signal)
    → r.clients ≡ c ∷ []
    → full c ≡ true
    → run (broadcast (some msg) full ∷ leave c ∷ rest) r ≡ none
unfolding run step deliver contains
leave_after_drop c msg full r rest alone is_full =
    rw alone (elim (Bool-cases (contains c r.closed)) [
      | inl t ↦ rw t refl
      | inr t ↦ rw t (rw is_full (rw (==-refl c) refl))
    ])
