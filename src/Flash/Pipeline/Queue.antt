-- ===== src/Flash/Pipeline/Queue.antt =====
-- services/flash-sale/store.go: the waiting room is first come, first served.
use faisalaffan_design_syste.Base.{
  ℕ, ◌+◌, ◌<◌, String, ◌≡◌, refl, sym, ap, ◌∙◌, ◌≢◌, ◌⊎◌, inl, inr, Bool, true, false, none, some,
  [], ◌∷◌, ◌++◌, arith, ltb, Bool-cases, length, All, ◌==◌, nat_key, string_key, ==-refl, ==_of_ne,
  lookup, insert, lookup-insert_self, get_or,
}
use faisalaffan_design_syste.Flash.Pipeline.{
  State, Waiting, is_member, z_place, z_add_nx, z_rank, join_waiting_room, queue_position,
}

-- The scores in a room are below one.
abbrev pub AllBefore : ℕ → Waiting → Type 0
AllBefore now zs = All (λ z. z.1 < now) zs

z_place-last :
    (before : String → String → Bool) (member : String) (now : ℕ) (zs : Waiting)
    → AllBefore now zs
    → z_place before member now zs ≡ zs ++ ((member, now) ∷ [])
unfolding z_place
z_place-last before member now [] h = refl
z_place-last before member now (z ∷ rest) h =
    let no_tie : (now == z.1) ≡ false = ==_of_ne now z.1 (λ e. omega (arith, h.0, e)) in
    let later : ltb now z.1 ≡ false = ground (arith, h.0) in
    rw later (rw no_tie (ap (λ l. z ∷ l) (z_place-last before member now rest h.1)))

is_member-z_rank :
    (member : String) (zs : Waiting)
    → ((is_member member zs ≡ false) × (z_rank member zs ≡ none))
      ⊎ ((is_member member zs ≡ true) × (n : ℕ) × (z_rank member zs ≡ some n))
unfolding is_member z_rank
is_member-z_rank member [] = inl (refl, refl)
is_member-z_rank member (z ∷ rest) = elim (Bool-cases (z.0 == member)) [
  | inl e ↦ rw e (inr (refl, 0, refl))
  | inr e ↦ rw e elim (is_member-z_rank member rest) [
    | inl (absent, no_rank) ↦ rw absent (rw no_rank (inl (refl, refl)))
    | inr (there, n, rank) ↦ rw there (rw rank (inr (refl, n + 1, refl)))
  ]
]

-- One more at the end changes no rank, and its own is the number before it.
z_rank-end :
    (other member : String) (now : ℕ) (zs : Waiting)
    → (other ≢ member → z_rank other (zs ++ ((member, now) ∷ [])) ≡ z_rank other zs)
      × (is_member member zs ≡ false
          → z_rank member (zs ++ ((member, now) ∷ [])) ≡ some (length zs))
unfolding z_rank is_member
z_rank-end other member now [] = (
  λ ne.
      let apart : (member == other) ≡ false = ==_of_ne member other (λ e. ne (sym e)) in
      rw apart refl,
  λ fresh. rw (==-refl member) refl,
)
z_rank-end other member now (z ∷ rest) = (
  λ ne. rw ((z_rank-end other member now rest).0 ne) refl,
  λ fresh. elim (Bool-cases (z.0 == member)) [
    | inl e ↦ absurd (ground (arith, fresh, e))
    | inr e ↦
        let fresh' : is_member member rest ≡ false = ground (arith, fresh, e) in
        rw e (rw ((z_rank-end other member now rest).1 fresh') (ap some (omega arith)))
  ],
)

module _ {S T : Type 0} where
  abbrev pub room_of : String → State S T → Waiting
  room_of pid st = get_or (lookup pid st.waiting) []

  room-join :
      (pid : String) (zs : Waiting) (st : State S T)
      → room_of pid (record st { waiting = insert pid zs st.waiting }) ≡ zs
  room-join pid zs st = ap (λ o. get_or o []) (lookup-insert_self pid zs st.waiting)

  -- A user who joins when the clock's reading, converted to float64, is above every score in the room gets
  -- the place at its end, or keeps the place that there already was; and no one else's place changes.
  pub join_waiting_room-position :
      (before : String → String → Bool) (float64 : ℕ → ℕ) (now : ℕ) (pid uid : String)
      (st : State S T)
      → AllBefore (float64 now) (room_of pid st)
      → ((join_waiting_room before float64 now pid uid st).1
          ≡ get_or (queue_position pid uid st) (length (room_of pid st)))
        × ((other : String)
            → other ≢ uid
            → queue_position pid other (join_waiting_room before float64 now pid uid st).0
              ≡ queue_position pid other st)
  unfolding join_waiting_room queue_position z_add_nx
  join_waiting_room-position before float64 now pid uid st earlier =
      let room = room_of pid st in
      let last = z_place-last before uid (float64 now) room earlier in
      elim (is_member-z_rank uid room) [
        | inr (there, n, rank) ↦
            rw there (rw rank (refl, λ other ne. ap (z_rank other) (room-join pid room st)))
        | inl (fresh, no_rank) ↦ rw fresh (
            rw last (
              rw no_rank (
                ap (λ o. get_or o 0) ((z_rank-end uid uid (float64 now) room).1 fresh),
                λ other ne.
                    ap (z_rank other) (room-join pid (room ++ ((uid, float64 now) ∷ [])) st)
                    ∙ (z_rank-end other uid (float64 now) room).0 ne,
              )))
      ]
