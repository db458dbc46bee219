-- ===== src/Base/Redis.antt =====
-- The Redis commands that the services' scripts call, as an interface: counters (GET, SET, DECRBY,
-- INCRBY, EXPIRE on keys of type `K`) and hashes of type `H` (HGETALL, HSET on names). The laws are what the
-- commands document, at the time of the call: a key that is given a time to live is still there, a write is read back, and leaves the other keys alone. DECRBY is only used on
-- a counter that is large enough, so that amounts stay natural numbers.
use Prim.Native.Nat.{ℕ, ◌+◌, ◌-◌, ◌≤◌, ◌<◌}
use Prim.Native.String.{String}
use mathlib.Core.Path.{◌≡◌, refl}
use mathlib.Core.Option.{Option, some, get_or}
use mathlib.Core.List.{List, []}
use faisalaffan_design_syste.Base.Tests.{if◌then◌else◌}
use faisalaffan_design_syste.Base.Keys.{HasEq, ◌==◌, string_key}
use faisalaffan_design_syste.Base.Maps.{lookup, insert, lookup-insert}

pub record Redis (K H : Type 0) ⦃e : HasEq K⦄ : Type 1 where
  pub R : Type 0
  pub get : K → R → Option ℕ
  pub set : K → ℕ → R → R
  pub decr_by : K → ℕ → R → R
  pub incr_by : K → ℕ → R → R
  pub expire : K → ℕ → R → R
  pub hgetall : String → R → Option H
  pub hset : String → H → R → R
  pub get-set : (k j : K) (n : ℕ) (r : R) → get j (set k n r) ≡ (if k == j then some n else get j r)
  pub get-decr_by :
      (k j : K) (q : ℕ) (r : R)
      → q ≤ get_or (get k r) 0
      → get j (decr_by k q r) ≡ (if k == j then some (get_or (get k r) 0 - q) else get j r)
  pub get-incr_by :
      (k j : K) (q : ℕ) (r : R)
      → get j (incr_by k q r) ≡ (if k == j then some (get_or (get k r) 0 + q) else get j r)
  pub get-expire :
      (k j : K) (seconds : ℕ) (r : R) → 0 < seconds → get j (expire k seconds r) ≡ get j r
  pub get-hset : (j : K) (id : String) (h : H) (r : R) → get j (hset id h r) ≡ get j r
  pub hgetall-hset :
      (id other : String) (h : H) (r : R)
      → hgetall other (hset id h r) ≡ (if id == other then some h else hgetall other r)
  pub hgetall-set : (id : String) (k : K) (n : ℕ) (r : R) → hgetall id (set k n r) ≡ hgetall id r
  pub hgetall-decr_by :
      (id : String) (k : K) (n : ℕ) (r : R) → hgetall id (decr_by k n r) ≡ hgetall id r
  pub hgetall-incr_by :
      (id : String) (k : K) (n : ℕ) (r : R) → hgetall id (incr_by k n r) ≡ hgetall id r

-- A store that keeps the laws: two association lists.
pub record Maps (K H : Type 0) : Type 0 where
  pub counters : List (K × ℕ)
  pub lives : List (K × ℕ)
  pub hashes : List (String × H)

abbrev pub no_maps : {K H : Type 0} → Maps K H
no_maps = record { counters = []; lives = []; hashes = [] }

module _ {K H : Type 0} ⦃e : HasEq K⦄ where
  abbrev pub maps_redis : Redis K H
  maps_redis = record {
    R = Maps K H;
    get = λ k r. lookup k r.counters;
    set = λ k n r. record r { counters = insert k n r.counters };
    decr_by =
        λ k q r. record r { counters = insert k (get_or (lookup k r.counters) 0 - q) r.counters };
    incr_by =
        λ k q r. record r { counters = insert k (get_or (lookup k r.counters) 0 + q) r.counters };
    expire = λ k seconds r. record r { lives = insert k seconds r.lives };
    hgetall = λ id r. lookup id r.hashes;
    hset = λ id h r. record r { hashes = insert id h r.hashes };
    get-set = λ k j n r. lookup-insert k j n r.counters;
    get-decr_by = λ k j q r le. lookup-insert k j (get_or (lookup k r.counters) 0 - q) r.counters;
    get-incr_by = λ k j q r. lookup-insert k j (get_or (lookup k r.counters) 0 + q) r.counters;
    get-expire = λ k j seconds r pos. refl;
    get-hset = λ j id h r. refl;
    hgetall-hset = λ id other h r. lookup-insert id other h r.hashes;
    hgetall-set = λ id k n r. refl;
    hgetall-decr_by = λ id k n r. refl;
    hgetall-incr_by = λ id k n r. refl;
  }
