-- ===== src/Flash/Slots.antt =====
-- services/flash-sale/store.go: the slot pool, a counter of the sessions that run at once. The counter
-- of a product is an integer, since a release may take it below 0. Redis is an interface: INCR and DECR
-- on counters, SETEX and DEL on the key of a session; a missing counter reads as 0.
pub mod Bound
pub mod Pools
use faisalaffan_design_syste.Base.{
  ℕ, zero, suc, ◌+◌, ◌-◌, String, ◌≡◌, Bool, true, false, leb, if◌then◌else◌, ◌==◌, nat_key,
  string_key,
}
use faisalaffan_design_syste.Base.Ints.{ℤ, pos, negsuc}

abbrev pub succ : ℤ → ℤ
succ (pos n) = pos (n + 1)
succ (negsuc zero) = pos 0
succ (negsuc (suc n)) = negsuc n

abbrev pub pred : ℤ → ℤ
pred (pos zero) = negsuc 0
pred (pos (suc n)) = pos n
pred (negsuc n) = negsuc (n + 1)

abbrev pub at_most : ℤ → ℕ → Bool
at_most (pos n) m = leb n m
at_most (negsuc n) m = true

pub record SlotStore : Type 1 where
  pub R : Type 0
  pub count : String → R → ℤ
  pub incr : String → R → R
  pub decr : String → R → R
  pub set_session : String → ℤ → R → R
  pub delete_session : String → R → R
  pub count-incr :
      (k j : String) (r : R) → count j (incr k r) ≡ (if k == j then succ (count k r) else count j r)
  pub count-decr :
      (k j : String) (r : R) → count j (decr k r) ≡ (if k == j then pred (count k r) else count j r)
  pub count-set_session : (k s : String) (n : ℤ) (r : R) → count k (set_session s n r) ≡ count k r
  pub count-delete_session : (k s : String) (r : R) → count k (delete_session s r) ≡ count k r

-- `maxSlots - used`, not below 0.
abbrev pub available : ℕ → ℤ → ℕ
available m (pos n) = m - n
available m (negsuc n) = m + n + 1

module _ (store : SlotStore) where
  open store use {R}

  -- luaSlotAcquire, as `AcquireSlot` runs it: whether the slot is held, and the count or the maximum.
  unfoldable pub acquire_slot : String → String → ℕ → R → R × Bool × ℤ
  acquire_slot pid session max_slots r =
      let r1 = store.incr pid r in
      let n = store.count pid r1 in
      if at_most n max_slots
      then (store.set_session session n r1, true, n)
      else (store.decr pid r1, false, pos max_slots)

  -- `ReleaseSlot`
  unfoldable pub release_slot : String → String → R → R
  release_slot pid session r = store.delete_session session (store.decr pid r)

  -- `SlotsAvailable`
  unfoldable pub slots_available : String → ℕ → R → ℕ
  slots_available pid max_slots r = available max_slots (store.count pid r)
