-- ===== src/Limits/Sliding.antt =====
-- services/rate-limiter/algorithm/sliding_window.go: how many calls lie in any window that ends now.
use faisalaffan_design_syste.Base.{
  ℕ, ◌+◌, ◌≤◌, max, String, ◌≡◌, refl, sym, ap, ◌∙◌, subst, inl, inr, Bool, Option, none, some,
  List, [], ◌∷◌, ◌++◌, arith, ltb, if◌then◌else◌, ltb→lt, Bool-cases, length, length-append, keep,
  tally, tally-append, length-keep, nat_key, string_key, lookup, insert, lookup-insert_self, get_or,
}
use faisalaffan_design_syste.Limits.{sliding_found, sliding_allow}

-- Whether a call at `t` lies in the window that ends at `now`.
abbrev pub is_recent : ℕ → ℕ → ℕ → Bool
is_recent window now t = ltb now (t + window)

-- Calls of a key at the given times, one after another: the times of those that were admitted, the
-- latest last, after those in `past`, and the map.
unfoldable pub allow_all :
    String → ℕ → ℕ → List ℕ → List ℕ × List (String × List ℕ) → List ℕ × List (String × List ℕ)
allow_all key limit window [] acc = acc
allow_all key limit window (now ∷ times) acc =
    let out = sliding_allow key limit window now acc.1 in
    allow_all key limit window times ((if out.1 then acc.0 ++ now ∷ [] else acc.0), out.0)

-- Times that do not go back, from `start` on.
abbrev pub IsOrdered : ℕ → List ℕ → Type 0
IsOrdered start [] = Unit
IsOrdered start (t ∷ ts) = (start ≤ t) × IsOrdered t ts

abbrev pub last_time : ℕ → List ℕ → ℕ
last_time start [] = start
last_time start (t ∷ ts) = last_time t ts

-- What the map holds for a key answers for the admitted calls of every window that ends later, and is
-- within the limit.
abbrev pub Remembers : ℕ → ℕ → ℕ → List ℕ → List ℕ → Type 0
Remembers limit window start past stored =
    (length stored ≤ max limit 1)
    × ((now : ℕ)
        → start ≤ now
        → tally (is_recent window now) past ≡ tally (is_recent window now) stored)

tally-keep :
    (window now later : ℕ) (ts : List ℕ)
    → now ≤ later
    → tally (is_recent window later) (keep (is_recent window now) ts)
      ≡ tally (is_recent window later) ts
tally-keep window now later [] le = refl
tally-keep window now later (t ∷ ts) le = ground (arith, tally-keep window now later ts le)

tally-le-length : (p : ℕ → Bool) (ts : List ℕ) → tally p ts ≤ length ts
tally-le-length p [] = omega arith
tally-le-length p (t ∷ ts) = ground (arith, tally-le-length p ts)

sliding_found-Remembers :
    (limit window start now : ℕ) (past : List ℕ) (stored : Option (List ℕ))
    → start ≤ now
    → Remembers limit window start past (get_or stored [])
    → Remembers limit window now
        (if (sliding_found limit window now stored).1 then past ++ now ∷ [] else past)
        (sliding_found limit window now stored).0
unfolding sliding_found
sliding_found-Remembers limit window start now past none le h = (
  omega arith,
  λ later le'.
      tally-append (is_recent window later) past (now ∷ [])
      ∙ ap (λ n. n + tally (is_recent window later) (now ∷ [])) (h.1 later (omega (arith, le, le')))
      ∙ omega arith,
)
sliding_found-Remembers limit window start now past (some ts) le h =
    let valid = keep (is_recent window now) ts in
    elim (Bool-cases (ltb (length valid) limit)) [
      | inl t ↦ rw t (
        omega (arith, length-append valid (now ∷ []), ltb→lt (length valid) limit t),
        λ later le'.
            tally-append (is_recent window later) past (now ∷ [])
            ∙ ap (λ n. n + tally (is_recent window later) (now ∷ []))
                (h.1 later (omega (arith, le, le')) ∙ sym (tally-keep window now later ts le'))
            ∙ sym (tally-append (is_recent window later) valid (now ∷ [])),
      )
      | inr t ↦ rw t (
        omega (
          arith,
          length-keep (is_recent window now) ts,
          tally-le-length (is_recent window now) ts,
          h.0,
        ),
        λ later le'. h.1 later (omega (arith, le, le')) ∙ sym (tally-keep window now later ts le'),
      )
    ]

allow_all-Remembers :
    (key : String) (limit window start : ℕ) (times past : List ℕ) (m : List (String × List ℕ))
    → IsOrdered start times
    → Remembers limit window start past (get_or (lookup key m) [])
    → Remembers limit window
        (last_time start times)
        (allow_all key limit window times (past, m)).0
        (get_or (lookup key (allow_all key limit window times (past, m)).1) [])
unfolding allow_all sliding_allow
allow_all-Remembers key limit window start [] past m ord h = h
allow_all-Remembers key limit window start (now ∷ times) past m ord h =
    let out = sliding_found limit window now (lookup key m) in
    let stored : get_or (lookup key (insert key out.0 m)) [] ≡ out.0 =
      ap (λ o. get_or o []) (lookup-insert_self key out.0 m) in
    allow_all-Remembers key limit window now times (if out.1 then past ++ now ∷ [] else past)
      (insert key out.0 m) ord.1
      (subst (Remembers limit window now (if out.1 then past ++ now ∷ [] else past)) (sym stored)
        (sliding_found-Remembers limit window start now past (lookup key m) ord.0 h))

-- From a limiter that does not know the key, calls of a key at times that do not go back: in every
-- window that ends at the last call or later, at most as many of them were admitted as the limit
-- says, or one where the limit is 0.
pub allow_all_bounded :
    (key : String) (limit window start later : ℕ) (times : List ℕ) (m : List (String × List ℕ))
    → lookup key m ≡ none
    → IsOrdered start times
    → last_time start times ≤ later
    → tally (is_recent window later) (allow_all key limit window times ([], m)).0 ≤ max limit 1
allow_all_bounded key limit window start later times m fresh ord le =
    let known : get_or (lookup key m) [] ≡ [] = ap (λ o. get_or o []) fresh in
    let all =
      allow_all-Remembers key limit window start times [] m ord
        (subst (Remembers limit window start []) (sym known) (omega arith, λ now h. refl)) in
    let stored = get_or (lookup key (allow_all key limit window times ([], m)).1) [] in
    omega (arith, all.0, all.1 later le, tally-le-length (is_recent window later) stored)
