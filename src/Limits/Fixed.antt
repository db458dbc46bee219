-- ===== src/Limits/Fixed.antt =====
-- services/rate-limiter/algorithm/fixed_window.go and storage/memory.go: how many calls a window admits.
use faisalaffan_design_syste.Base.{
  ℕ, ◌+◌, ◌≤◌, ◌<◌, max, min, String, ◌≡◌, refl, sym, ◌∙◌, subst, ◌≢◌, inl, inr, ◌&&◌, Option, none,
  some, List, [], ◌∷◌, arith, if◌then◌else◌, Bool-cases, ◌==◌, nat_key, string_key, lookup, insert,
  lookup-insert, lookup-insert_self, lookup-insert_ne,
}
use faisalaffan_design_syste.Limits.{
  FixedEntry, fixed_found, current_window, fixed_allow, Entry, increment, increment_found, count_of,
  count_found,
}

-- Calls as pairs of a key and a time; how many calls of a key are admitted.
unfoldable pub admitted : String → ℕ → ℕ → List (String × ℕ) → List (String × FixedEntry) → ℕ
admitted key limit window [] m = 0
admitted key limit window ((k, now) ∷ calls) m =
    let out = fixed_allow k limit window now m in
    (if k == key && out.1 then 1 else 0) + admitted key limit window calls out.0

-- The places that a window's entry has used up.
abbrev used : ℕ → Option FixedEntry → ℕ
used c none = 0
used c (some w) = if w.window == c then w.count else 0

-- Calls that all fall into the window that starts at `c`.
abbrev pub InWindow : ℕ → ℕ → List (String × ℕ) → Type 0
InWindow window c [] = Unit
InWindow window c ((k, now) ∷ calls) = (current_window window now ≡ c) × InWindow window c calls

one_call :
    (limit c n : ℕ) (o : Option FixedEntry)
    → n + min (used c (some (fixed_found limit c o).0)) (max limit 1) ≤ max limit 1
    → (if (fixed_found limit c o).1 then 1 else 0) + n + min (used c o) (max limit 1) ≤ max limit 1
unfolding fixed_found
one_call limit c n none h = ground (arith, h)
one_call limit c n (some w) h = ground (arith, h)

admitted-used :
    (key : String) (limit window c : ℕ) (calls : List (String × ℕ)) (m : List (String × FixedEntry))
    → InWindow window c calls
    → admitted key limit window calls m + min (used c (lookup key m)) (max limit 1) ≤ max limit 1
unfolding admitted fixed_allow
admitted-used key limit window c [] m h = ground arith
admitted-used key limit window c ((k, now) ∷ calls) m h =
    let out = fixed_found limit (current_window window now) (lookup k m) in
    let m' = insert k out.0 m in
    let n = admitted key limit window calls m' in
    let ih : n + min (used c (lookup key m')) (max limit 1) ≤ max limit 1 =
      admitted-used key limit window c calls m' h.1 in
    elim (Bool-cases (k == key)) [
      | inl t ↦
          let e : k ≡ key = (string_key.test_iff k key).0 t in
          let here : lookup key m' ≡ some out.0 = lookup-insert k key out.0 m ∙ rw t refl in
          rw t (
            subst
              (λ x.
                (if out.1 then 1 else 0) + n + min (used c (lookup x m)) (max limit 1)
                ≤ max limit 1)
              e
              (subst
                (λ x.
                  (if (fixed_found limit x (lookup k m)).1 then 1 else 0)
                    + n
                    + min (used c (lookup k m)) (max limit 1)
                  ≤ max limit 1)
                (sym h.0)
                (one_call limit c n (lookup k m) (
                  subst
                    (λ x.
                      n + min (used c (some (fixed_found limit x (lookup k m)).0)) (max limit 1)
                      ≤ max limit 1)
                    h.0 (subst (λ x. n + min (used c x) (max limit 1) ≤ max limit 1) here ih)))))
      | inr t ↦
          let there : lookup key m' ≡ lookup key m = lookup-insert k key out.0 m ∙ rw t refl in
          rw t (omega (arith, subst (λ x. n + min (used c x) (max limit 1) ≤ max limit 1) there ih))
    ]

-- Among any calls that fall into one window, whatever came before, a key is admitted at most as often
-- as the limit says, or once where the limit is 0.
pub admitted_bounded :
    (key : String) (limit window c : ℕ) (calls : List (String × ℕ)) (m : List (String × FixedEntry))
    → InWindow window c calls
    → admitted key limit window calls m ≤ max limit 1
admitted_bounded key limit window c calls m h =
    omega (arith, admitted-used key limit window c calls m h)

-- In storage/memory.go, what Increment answers is what Count reads for that key until the window has
-- passed, and 0 after it; Count of another key is not changed.
pub increment-count_of :
    (key other : String) (window now later : ℕ) (m : List (String × Entry))
    → ((later ≤ (increment_found window now (lookup key m)).reset_at)
        → count_of key later (increment key window now m).0 ≡ (increment key window now m).1)
      × ((increment_found window now (lookup key m)).reset_at < later
          → count_of key later (increment key window now m).0 ≡ 0)
      × (key ≢ other → count_of other later (increment key window now m).0 ≡ count_of other later m)
unfolding increment count_of count_found
increment-count_of key other window now later m =
    let e = increment_found window now (lookup key m) in
    let here : lookup key (insert key e m) ≡ some e = lookup-insert_self key e m in
    (
      λ h. rw here (ground (arith, h)),
      λ h. rw here (ground (arith, h)),
      λ ne. rw (lookup-insert_ne key other e m ne) refl,
    )
