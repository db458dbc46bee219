-- ===== src/Snowflake.antt =====
-- services/unique-id-generator/snowflake: ids of 64 bits from the time, the worker and a sequence. An
-- int64 is its bit pattern, so a difference is taken modulo 2^64. The readings of the clock that a call
-- makes are a list.
pub mod Layout
pub mod Order
mod Samples
use Prim.Native.Nat.{bit_and, bit_or}
use faisalaffan_design_syste.Base.{
  ℕ, ◌+◌, ◌-◌, ◌*◌, ◌^◌, Option, none, some, List, [], ◌∷◌, ltb, leb, if◌then◌else◌, wrap64, ◌==◌,
  nat_key, string_key,
}

abbrev pub epoch : ℕ
epoch = 1704067200000

abbrev pub max_worker : ℕ
max_worker = 1023

abbrev pub max_sequence : ℕ
max_sequence = 4095

pub record Generator : Type 0 where
  pub worker_id : ℕ
  pub sequence : ℕ
  pub last_stamp : ℕ

-- `New`; the bit pattern of a negative worker is above the maximum too.
unfoldable pub new : ℕ → Option Generator
new worker_id =
    if ltb max_worker worker_id
    then none
    else some (record { worker_id = worker_id; sequence = 0; last_stamp = 0 })

-- `a - b` and `a << k` of 64 bits.
abbrev pub minus64 : ℕ → ℕ → ℕ
minus64 a b = wrap64 (a + (18446744073709551616 - b))

abbrev pub shift64 : ℕ → ℕ → ℕ
shift64 a k = wrap64 (a * 2 ^ k)

-- What a call of `Next` ends in: an id, the error of a clock that went back, or a loop that still waits
-- when the readings end.
pub data Outcome : Type 0 where
  issued : ℕ → Outcome
  backwards : Outcome
  waiting : Outcome

-- `for now <= g.lastStamp`: the first reading after the last stamp.
unfoldable pub wait : ℕ → List ℕ → Option ℕ
wait last [] = none
wait last (now ∷ readings) =
    let rest = wait last readings in if leb now last then rest else some now

unfoldable pub id_of : Generator → ℕ
id_of g =
    bit_or (bit_or (shift64 (minus64 g.last_stamp epoch) 22) (shift64 g.worker_id 12)) g.sequence

-- The end of `Next`: the stamp is stored and the id is put together.
unfoldable pub issue : ℕ → Generator → Generator × Outcome
unfolding id_of
issue now g = let g' = record g { last_stamp = now } in (g', issued (id_of g'))

unfoldable pub issue_after : Option ℕ → Generator → Generator × Outcome
unfolding issue
issue_after none g = (g, waiting)
issue_after (some now) g = issue now g

-- `Next`, with the first reading and those of the waiting loop.
unfoldable pub next : ℕ → List ℕ → Generator → Generator × Outcome
unfolding wait issue issue_after
next now readings g =
    let seq = bit_and (g.sequence + 1) max_sequence in
    let bumped = record g { sequence = seq } in
    if ltb now g.last_stamp
    then (g, backwards)
    else if now == g.last_stamp
    then (if seq == 0 then issue_after (wait g.last_stamp readings) bumped else issue now bumped)
    else issue now (record g { sequence = 0 })
