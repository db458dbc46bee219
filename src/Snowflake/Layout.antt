-- ===== src/Snowflake/Layout.antt =====
-- services/unique-id-generator/snowflake: the fields of an id can be read back.
use Prim.Native.Nat.{bit_or}
use faisalaffan_design_syste.Base.{◌+◌, ◌-◌, ◌*◌, ◌/◌, ◌%◌, ◌≤◌, ◌<◌, ◌≡◌, ap, ◌∙◌, arith}
use faisalaffan_design_syste.Base.Bits.{bit_or-shift}
use faisalaffan_design_syste.Snowflake.{epoch, Generator, minus64, shift64, id_of}

-- A generator whose stamp is at the epoch or less than 2^41 milliseconds, 69 years, after it.
pub record IsInRange (g : Generator) : Type 0 where
  pub worker : g.worker_id < 1024
  pub sequence : g.sequence < 4096
  pub since : epoch ≤ g.last_stamp
  pub until : g.last_stamp < epoch + 2199023255552

-- The shifts and the ors of an id add its fields up.
pub id_of-sum :
    (g : Generator)
    → IsInRange g
    → id_of g ≡ (g.last_stamp - epoch) * 4194304 + g.worker_id * 4096 + g.sequence
unfolding id_of
id_of-sum g r =
    let t = g.last_stamp - epoch in
    let stamp : shift64 (minus64 g.last_stamp epoch) 22 ≡ t * 4194304 =
      omega (arith, r.since, r.until) in
    let worker : shift64 g.worker_id 12 ≡ g.worker_id * 4096 = omega (arith, r.worker) in
    let high : t * 4194304 + g.worker_id * 4096 ≡ (t * 1024 + g.worker_id) * 4096 = omega arith in
    rw stamp (
      rw worker (
        ap (λ x. bit_or x g.sequence)
          (bit_or-shift 22 t (g.worker_id * 4096) (omega (arith, r.worker)) ∙ high)
        ∙ bit_or-shift 12 (t * 1024 + g.worker_id) g.sequence (omega (arith, r.sequence))
        ∙ omega arith))

-- Of a generator whose worker is below 1024 and sequence below 4096, and whose stamp is at the epoch or
-- less than 2^41 milliseconds after it, an id holds its three fields: the milliseconds since the epoch from
-- bit 22 on, the worker in the ten bits below, the sequence in the last twelve; and it fits into 63 bits,
-- so as an int64 it is not negative.
pub id_of-fields :
    (g : Generator)
    → IsInRange g
    → (id_of g / 4194304 ≡ g.last_stamp - epoch)
      × (id_of g / 4096 % 1024 ≡ g.worker_id)
      × (id_of g % 4096 ≡ g.sequence)
      × (id_of g < 9223372036854775808)
id_of-fields g r =
    let e = id_of-sum g r in
    (
      omega (arith, e, r.worker, r.sequence),
      omega (arith, e, r.worker, r.sequence),
      omega (arith, e, r.worker, r.sequence),
      omega (arith, e, r.worker, r.sequence, r.since, r.until),
    )
