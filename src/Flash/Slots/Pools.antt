-- ===== src/Flash/Slots/Pools.antt =====
-- A store of slots that keeps the laws: two association lists.
use faisalaffan_design_syste.Base.{
  String, ◌≡◌, refl, ap, ◌∙◌, inl, inr, List, if◌then◌else◌, Bool-cases, ◌==◌, nat_key, string_key,
  lookup, insert, remove, lookup-insert, get_or,
}
use faisalaffan_design_syste.Flash.Slots.{succ, pred, SlotStore}
use faisalaffan_design_syste.Base.Ints.{ℤ, pos}

abbrev pub Pool : Type 0
Pool = List (String × ℤ) × List (String × ℤ)

abbrev pub count_in : String → List (String × ℤ) → ℤ
count_in k m = get_or (lookup k m) (pos 0)

pub count_in-insert :
    (k j : String) (n : ℤ) (m : List (String × ℤ))
    → count_in j (insert k n m) ≡ (if k == j then n else count_in j m)
count_in-insert k j n m =
    ap (λ o. get_or o (pos 0)) (lookup-insert k j n m)
    ∙ elim (Bool-cases (k == j)) [ inl t ↦ rw t refl | inr t ↦ rw t refl ]

abbrev pub store : SlotStore
store = record {
  R = Pool;
  count = λ k r. count_in k r.0;
  incr = λ k r. (insert k (succ (count_in k r.0)) r.0, r.1);
  decr = λ k r. (insert k (pred (count_in k r.0)) r.0, r.1);
  set_session = λ s n r. (r.0, insert s n r.1);
  delete_session = λ s r. (r.0, remove s r.1);
  count-incr = λ k j r. count_in-insert k j (succ (count_in k r.0)) r.0;
  count-decr = λ k j r. count_in-insert k j (pred (count_in k r.0)) r.0;
  count-set_session = λ k s n r. refl;
  count-delete_session = λ k s r. refl;
}
