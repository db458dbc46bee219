-- ===== src/Flash/Slots/Bound.antt =====
-- The slot pool of services/flash-sale/store.go: its bound, and what a second release does.
use faisalaffan_design_syste.Base.{
  ℕ, zero, suc, ◌+◌, String, ◌≡◌, refl, sym, ap, ◌∙◌, ◌⊎◌, inl, inr, true, false, arith, Bool-cases,
  nat_key, string_key, ==-refl,
}
use faisalaffan_design_syste.Flash.Slots.{
  succ, pred, at_most, SlotStore, available, acquire_slot, release_slot, slots_available,
}
use faisalaffan_design_syste.Base.Ints.{ℤ, pos, negsuc}

pub pred-succ : (n : ℤ) → pred (succ n) ≡ n
pred-succ (pos n) = let e : n + 1 ≡ suc n = omega arith in ap (λ x. pred (pos x)) e
pred-succ (negsuc zero) = refl
pred-succ (negsuc (suc n)) = ap negsuc (omega arith)

available-succ :
    (m : ℕ) (n : ℤ)
    → (at_most (succ n) m ≡ true → available m (succ n) + 1 ≡ available m n)
      × (at_most (succ n) m ≡ false → available m n ≡ 0)
available-succ m (pos n) = (λ h. ground (arith, h), λ h. ground (arith, h))
available-succ m (negsuc zero) = (λ h. omega arith, λ h. ground (arith, h))
available-succ m (negsuc (suc n)) = (λ h. omega arith, λ h. absurd (cc h))

available-pred :
    (m : ℕ) (n : ℤ)
    → at_most n m ≡ true
    → (available m (pred n) ≡ available m n + 1) × (at_most (pred n) m ≡ true)
available-pred m (pos zero) h = (omega arith, refl)
available-pred m (pos (suc n)) h = (ground (arith, h), ground (arith, h))
available-pred m (negsuc n) h = (omega arith, refl)

module _ (store : SlotStore) where
  open store use {R}

  -- AcquireSlot holds a slot exactly when one is available, which then is one less, and leaves the
  -- available slots of every product as they were when there is none; other products keep theirs.
  pub acquire_slot_cases :
      (pid session : String) (max_slots : ℕ) (r : R)
      → (((acquire_slot store pid session max_slots r).1 ≡ true)
          × (slots_available store pid max_slots (acquire_slot store pid session max_slots r).0 + 1
              ≡ slots_available store pid max_slots r))
        ⊎ (((acquire_slot store pid session max_slots r).1 ≡ false)
            × (slots_available store pid max_slots r ≡ 0)
            × (slots_available store pid max_slots (acquire_slot store pid session max_slots r).0
                ≡ 0))
  unfolding acquire_slot slots_available
  acquire_slot_cases pid session max_slots r =
      let r1 = store.incr pid r in
      let n = store.count pid r in
      let up : store.count pid r1 ≡ succ n = store.count-incr pid pid r ∙ rw (==-refl pid) refl in
      let down : store.count pid (store.decr pid r1) ≡ n =
        store.count-decr pid pid r1 ∙ rw (==-refl pid) (ap pred up ∙ pred-succ n) in
      elim (Bool-cases (at_most (store.count pid r1) max_slots)) [
        | inl t ↦
            let t' : at_most (succ n) max_slots ≡ true =
              sym (ap (λ x. at_most x max_slots) up) ∙ t in
            rw t (
              inl (
                refl,
                ap (λ x. available max_slots x + 1)
                      (store.count-set_session pid session (store.count pid r1) r1 ∙ up)
                    ∙ (available-succ max_slots n).0 t',
              ))
        | inr t ↦
            let t' : at_most (succ n) max_slots ≡ false =
              sym (ap (λ x. at_most x max_slots) up) ∙ t in
            let full = (available-succ max_slots n).1 t' in
            rw t (inr (refl, full, ap (available max_slots) down ∙ full))
      ]

  -- ReleaseSlot of a session, as often as `n` times.
  pub release_times : ℕ → String → String → R → R
  release_times zero pid session r = r
  release_times (suc n) pid session r =
      release_times n pid session (release_slot store pid session r)

  available-release_slot :
      (pid session : String) (max_slots : ℕ) (r : R)
      → at_most (store.count pid r) max_slots ≡ true
      → (slots_available store pid max_slots (release_slot store pid session r)
          ≡ slots_available store pid max_slots r + 1)
        × (at_most (store.count pid (release_slot store pid session r)) max_slots ≡ true)
  unfolding release_slot slots_available
  available-release_slot pid session max_slots r h =
      let less = available-pred max_slots (store.count pid r) h in
      let e : store.count pid (release_slot store pid session r) ≡ pred (store.count pid r) =
        store.count-delete_session pid session (store.decr pid r)
        ∙ store.count-decr pid pid r
        ∙ rw (==-refl pid) refl in
      (ap (available max_slots) e ∙ less.0, ap (λ x. at_most x max_slots) e ∙ less.1)

  -- Each release adds a slot, a repeated one of the same session too: after `n` releases of a session
  -- from a pool that is not over its maximum there are `n` more slots than before.
  pub available-release_times :
      (n : ℕ) (pid session : String) (max_slots : ℕ) (r : R)
      → at_most (store.count pid r) max_slots ≡ true
      → slots_available store pid max_slots (release_times n pid session r)
        ≡ slots_available store pid max_slots r + n
  unfolding release_times
  available-release_times zero pid session max_slots r h = omega arith
  available-release_times (suc n) pid session max_slots r h =
      let one = available-release_slot pid session max_slots r h in
      omega (
        arith,
        one.0,
        available-release_times n pid session max_slots (release_slot store pid session r) one.1,
      )
