-- ===== src/Limits.antt =====
-- services/rate-limiter: algorithm/fixed_window.go, algorithm/sliding_window.go and storage/memory.go.
-- A method under its mutex is one function on the map of windows; times are in nanoseconds, and
-- the clock is an argument. A window is positive, as the source divides by it.
pub mod Fixed
pub mod Sliding
mod Samples
use faisalaffan_design_syste.Base.{
  ℕ, ◌+◌, ◌*◌, ◌/◌, String, Bool, true, false, Option, none, some, List, [], ◌∷◌, ◌++◌, ltb,
  if◌then◌else◌, length, keep, ◌==◌, nat_key, string_key, lookup, insert, remove,
}

pub record FixedEntry : Type 0 where
  pub count : ℕ
  pub window : ℕ

-- `FixedWindow.Allow` on the entry it has looked up: the entry to store and the answer.
unfoldable pub fixed_found : ℕ → ℕ → Option FixedEntry → FixedEntry × Bool
fixed_found limit current none = (record { count = 1; window = current }, true)
fixed_found limit current (some w) =
    if w.window == current
    then (if ltb w.count limit then (record w { count = w.count + 1 }, true) else (w, false))
    else (record { count = 1; window = current }, true)

abbrev pub current_window : ℕ → ℕ → ℕ
current_window window now = now / window * window

unfoldable pub fixed_allow :
    String → ℕ → ℕ → ℕ → List (String × FixedEntry) → List (String × FixedEntry) × Bool
unfolding fixed_found
fixed_allow key limit window now m =
    let out = fixed_found limit (current_window window now) (lookup key m) in
    (insert key out.0 m, out.1)

-- `SlidingWindow.Allow` on the timestamps it has looked up: those to store and the answer. A time is
-- after the cutoff when it lies less than a window before now.
unfoldable pub sliding_found : ℕ → ℕ → ℕ → Option (List ℕ) → List ℕ × Bool
sliding_found limit window now none = (now ∷ [], true)
sliding_found limit window now (some ts) =
    let valid = keep (λ t. ltb now (t + window)) ts in
    if ltb (length valid) limit then (valid ++ now ∷ [], true) else (valid, false)

unfoldable pub sliding_allow :
    String → ℕ → ℕ → ℕ → List (String × List ℕ) → List (String × List ℕ) × Bool
unfolding sliding_found
sliding_allow key limit window now m =
    let out = sliding_found limit window now (lookup key m) in (insert key out.0 m, out.1)

-- `entry` of storage/memory.go
pub record Entry : Type 0 where
  pub count : ℕ
  pub reset_at : ℕ

unfoldable pub increment_found : ℕ → ℕ → Option Entry → Entry
increment_found window now none = record { count = 1; reset_at = now + window }
increment_found window now (some e) =
    if ltb e.reset_at now
    then record { count = 1; reset_at = now + window }
    else record e { count = e.count + 1 }

-- `MemoryStore.Increment`
unfoldable pub increment : String → ℕ → ℕ → List (String × Entry) → List (String × Entry) × ℕ
unfolding increment_found
increment key window now m =
    let e = increment_found window now (lookup key m) in (insert key e m, e.count)

unfoldable pub count_found : ℕ → Option Entry → ℕ
count_found now none = 0
count_found now (some e) = if ltb e.reset_at now then 0 else e.count

-- `MemoryStore.Count`
unfoldable pub count_of : String → ℕ → List (String × Entry) → ℕ
unfolding count_found
count_of key now m = count_found now (lookup key m)

-- `MemoryStore.Reset`
unfoldable pub reset : String → List (String × Entry) → List (String × Entry)
reset key m = remove key m
