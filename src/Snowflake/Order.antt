-- ===== src/Snowflake/Order.antt =====
-- services/unique-id-generator/snowflake: the ids of a generator over any calls of Next.
use Prim.Native.Nat.{bit_and}
use faisalaffan_design_syste.Base.{
  ℕ, ◌+◌, ◌%◌, ◌≤◌, ◌<◌, ◌≡◌, refl, sym, ap, subst, ◌⊎◌, inl, inr, Option, none, some, List, [],
  ◌∷◌, arith, ltb, leb, nat_beq, nat_beq_iff, Bool-cases, none-ne-some, All, get_or,
}
use faisalaffan_design_syste.Base.Bits.{bit_and-twelve}
use faisalaffan_design_syste.Snowflake.{
  epoch, Generator, Outcome, issued, backwards, waiting, wait, id_of, issue, issue_after, next, new,
  max_worker,
}
use faisalaffan_design_syste.Snowflake.Layout.{IsInRange, id_of-sum}

-- A reading of the clock between the epoch and 2^41 milliseconds after it.
abbrev pub IsReading : ℕ → Type 0
IsReading t = (epoch ≤ t) × (t < epoch + 2199023255552)

-- The fields of a generator that are bounded from the start.
abbrev pub IsSmall : Generator → Type 0
IsSmall g = (g.worker_id < 1024) × (g.sequence < 4096)

abbrev IsLater : Generator → Generator → Type 0
IsLater g g' =
    (g.worker_id ≡ g'.worker_id)
    × ((g.last_stamp < g'.last_stamp)
        ⊎ ((g.last_stamp ≡ g'.last_stamp) × (g.sequence < g'.sequence)))

-- What a call leaves and answers.
abbrev Follows : Generator → Generator × Outcome → Type 0
Follows g (g', issued id) = (id ≡ id_of g') × IsInRange g' × IsLater g g'
Follows g (g', backwards) = g' ≡ g
Follows g (g', waiting) = Unit

wait-later :
    (last : ℕ) (readings : List ℕ) (now : ℕ)
    → All IsReading readings
    → wait last readings ≡ some now
    → (last < now) × IsReading now
unfolding wait
wait-later last [] now all e = absurd (none-ne-some e)
wait-later last (t ∷ readings) now all e = elim (Bool-cases (leb t last)) [
  | inl h ↦ wait-later last readings now all.1 (rw h at e)
  | inr h ↦
      let same : t ≡ now = ap (λ o. get_or o t) (rw h at e) in
      subst (λ x. (last < x) × IsReading x) same (ground (arith, h), all.0)
]

issue-Follows :
    (g b : Generator) (now : ℕ)
    → IsSmall b
    → IsReading now
    → IsLater g (record b { last_stamp = now })
    → Follows g (issue now b)
unfolding issue
issue-Follows g b now small ok later =
    (refl, record { worker = small.0; sequence = small.1; since = ok.0; until = ok.1 }, later)

issue_after-Follows :
    (g b : Generator) (readings : List ℕ) (o : Option ℕ)
    → IsSmall b
    → All IsReading readings
    → g.worker_id ≡ b.worker_id
    → wait g.last_stamp readings ≡ o
    → Follows g (issue_after o b)
unfolding issue_after
issue_after-Follows g b readings none small all same e = tt
issue_after-Follows g b readings (some now) small all same e =
    let far = wait-later g.last_stamp readings now all e in
    issue-Follows g b now small far.1 (same, inl far.0)

next-Follows :
    (now : ℕ) (readings : List ℕ) (g : Generator)
    → IsSmall g
    → IsReading now
    → All IsReading readings
    → Follows g (next now readings g)
unfolding next
next-Follows now readings g small ok all =
    let seq = bit_and (g.sequence + 1) 4095 in
    let masked : seq ≡ (g.sequence + 1) % 4096 = bit_and-twelve (g.sequence + 1) in
    let bumped = record g { sequence = seq } in
    let bound : IsSmall bumped = (small.0, omega (arith, masked)) in
    elim (Bool-cases (ltb now g.last_stamp)) [
      | inl h ↦ rw h refl
      | inr h ↦ rw h (elim (Bool-cases (nat_beq now g.last_stamp)) [
        | inl e ↦
            let same : now ≡ g.last_stamp = (nat_beq_iff now g.last_stamp).0 e in
            rw e (elim (Bool-cases (nat_beq seq 0)) [
              | inl z ↦ rw z (
                  issue_after-Follows g bumped readings (wait g.last_stamp readings) bound all refl
                    refl)
              | inr z ↦ rw z (
                  issue-Follows g bumped now bound ok
                    (refl, inr (sym same, ground (arith, z, masked, small.1))))
            ])
        | inr e ↦ rw e (
            issue-Follows g (record g { sequence = 0 }) now (small.0, omega arith) ok
              (refl, inl (ground (arith, e, h))))
      ])
    ]

later-id : (g g' : Generator) → IsInRange g → IsInRange g' → IsLater g g' → id_of g < id_of g'
later-id g g' r r' later = ground (
  arith,
  id_of-sum g r,
  id_of-sum g' r',
  later,
  r.since,
  r.sequence,
  r'.sequence,
  r.worker,
  r'.since,
)

-- Calls with their readings, and the ids that they issue. A call that waits for ever holds the mutex,
-- so none follows it.
abbrev pub Calls : Type 0
Calls = List (ℕ × List ℕ)

abbrev and_run : (Generator → List ℕ) → Generator × Outcome → List ℕ
and_run rest (g, issued id) = id ∷ rest g
and_run rest (g, backwards) = rest g
and_run rest (g, waiting) = []

unfoldable pub run : Calls → Generator → List ℕ
run [] g = []
run ((now, readings) ∷ calls) g = and_run (run calls) (next now readings g)

-- Each number is at least `low`, and each is above the one before.
abbrev pub IsRising : ℕ → List ℕ → Type 0
IsRising low [] = Unit
IsRising low (id ∷ ids) = (low ≤ id) × IsRising (id + 1) ids

abbrev pub AreReadings : Calls → Type 0
AreReadings [] = Unit
AreReadings ((now, readings) ∷ calls) = (IsReading now × All IsReading readings) × AreReadings calls

-- The ids to come are at least `low`.
abbrev IsAhead : ℕ → Generator → Type 0
IsAhead low g = IsSmall g × ((low ≡ 0) ⊎ ((low ≡ id_of g + 1) × IsInRange g))

low-le : (low : ℕ) (g g' : Generator) → IsAhead low g → IsInRange g' → IsLater g g' → low ≤ id_of g'
low-le low g g' (small, inl e) r' later = omega (arith, e)
low-le low g g' (small, inr (e, r)) r' later = omega (arith, e, later-id g g' r r' later)

and_run-IsRising :
    (low : ℕ) (g : Generator) (rest : Generator → List ℕ) (answer : Generator × Outcome)
    → IsAhead low g
    → ((low' : ℕ) (g' : Generator) → IsAhead low' g' → IsRising low' (rest g'))
    → Follows g answer
    → IsRising low (and_run rest answer)
and_run-IsRising low g rest (g', issued id) ahead more f =
    let le : low ≤ id = subst (λ x. low ≤ x) (sym f.0) (low-le low g g' ahead f.1 f.2) in
    (le, more (id + 1) g' ((f.1.worker, f.1.sequence), inr (ap (λ x. x + 1) f.0, f.1)))
and_run-IsRising low g rest (g', backwards) ahead more f =
    more low g' (subst (IsAhead low) (sym f) ahead)
and_run-IsRising low g rest (g', waiting) ahead more f = tt

run-IsRising_from :
    (calls : Calls) (low : ℕ) (g : Generator)
    → AreReadings calls
    → IsAhead low g
    → IsRising low (run calls g)
unfolding run
run-IsRising_from [] low g ok ahead = tt
run-IsRising_from ((now, readings) ∷ calls) low g ok ahead =
    and_run-IsRising low g (run calls) (next now readings g) ahead
      (λ low' g' h. run-IsRising_from calls low' g' ok.1 h)
      (next-Follows now readings g ahead.0 ok.0.0 ok.0.1)

new-IsSmall : (worker_id : ℕ) (g : Generator) → new worker_id ≡ some g → IsSmall g
unfolding new
new-IsSmall worker_id g e =
    let fresh : Generator = record { worker_id = worker_id; sequence = 0; last_stamp = 0 } in
    elim (Bool-cases (ltb max_worker worker_id)) [
      | inl h ↦ absurd (none-ne-some (rw h at e))
      | inr h ↦
          let same : fresh ≡ g = ap (λ o. get_or o fresh) (rw h at e) in
          subst IsSmall same (ground (arith, h), omega arith)
    ]

-- The ids that a new generator issues are strictly increasing, over any calls whose clock readings lie
-- in the 69 years from the epoch: also when the clock stands still or goes back, and when the sequence
-- of a millisecond is used up.
pub run-IsRising :
    (worker_id : ℕ) (g : Generator) (calls : Calls)
    → new worker_id ≡ some g
    → AreReadings calls
    → IsRising 0 (run calls g)
run-IsRising worker_id g calls e ok =
    run-IsRising_from calls 0 g ok (new-IsSmall worker_id g e, inl refl)
