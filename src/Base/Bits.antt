-- ===== src/Base/Bits.antt =====
-- The binary operations `|` and `&` on natural numbers: a shifted number or'd with what fits below it
-- is their sum, and a mask of ones is a remainder.
use Prim.Native.Nat.{
  ℕ, zero, suc, ◌+◌, ◌*◌, ◌/◌, ◌%◌, ◌^◌, ◌≤◌, ◌<◌, min, max, bit_and, bit_or, digits,
  bit_and-bitwise, bit_or-bitwise,
}
use mathlib.Core.Path.{◌≡◌, refl, sym, ap, ◌∙◌}
use native.Mathlib.Nat.{pow-suc, mul_assoc}
use native.Mathlib.Omega.{arith}

-- The digits of `a | b`, on fuel, do not depend on fuel of at least `a`.
abbrev or_on : ℕ → ℕ → ℕ → ℕ
or_on fuel a b = digits (λ y. y) max fuel a b

or_on_enough : (fuel more a b : ℕ) → a ≤ fuel → a ≤ more → or_on fuel a b ≡ or_on more a b
or_on_enough zero zero a b le le' = refl
or_on_enough zero (suc more) zero b le le' = refl
or_on_enough zero (suc more) (suc a) b le le' = absurd (omega arith)
or_on_enough (suc fuel) zero zero b le le' = refl
or_on_enough (suc fuel) zero (suc a) b le le' = absurd (omega arith)
or_on_enough (suc fuel) (suc more) zero b le le' = refl
or_on_enough (suc fuel) (suc more) (suc a) b le le' =
    omega (arith, or_on_enough fuel more (suc a / 2) (b / 2) (omega arith) (omega arith))

pub zero-bit_or : (b : ℕ) → bit_or 0 b ≡ b
zero-bit_or b = bit_or-bitwise 0 b

pub bit_or-halves : (a b : ℕ) → bit_or a b ≡ bit_or (a / 2) (b / 2) * 2 + max (a % 2) (b % 2)
bit_or-halves zero b = omega (arith, zero-bit_or b, zero-bit_or (b / 2))
bit_or-halves (suc a) b = omega (
  arith,
  bit_or-bitwise (suc a) b,
  bit_or-bitwise (suc a / 2) (b / 2),
  or_on_enough a (suc a / 2) (suc a / 2) (b / 2) (omega arith) (omega arith),
)

bit_or-zero_on : (n a : ℕ) → a ≤ n → bit_or a 0 ≡ a
bit_or-zero_on n zero le = zero-bit_or 0
bit_or-zero_on zero (suc a) le = absurd (omega (arith, le))
bit_or-zero_on (suc n) (suc a) le =
    omega (arith, bit_or-halves (suc a) 0, bit_or-zero_on n (suc a / 2) (omega (arith, le)))

-- `x << k | y`, for a `y` of at most `k` digits.
pub bit_or-shift : (k x y : ℕ) → y < 2 ^ k → bit_or (x * 2 ^ k) y ≡ x * 2 ^ k + y
bit_or-shift zero x y lt =
    let none : y ≡ 0 = omega (arith, lt) in
    ap (bit_or (x * 1)) none ∙ bit_or-zero_on (x * 1) (x * 1) (omega arith) ∙ omega (arith, none)
bit_or-shift (suc k) x y lt =
    let twice : x * 2 ^ suc k ≡ x * 2 ^ k * 2 =
      ap (λ p. x * p) (pow-suc 2 k) ∙ sym (mul_assoc x (2 ^ k) 2) in
    let low : y < 2 ^ k * 2 = omega (arith, lt, pow-suc 2 k) in
    let halves = bit_or-halves (x * 2 ^ k * 2) y in
    let rest = bit_or-shift k x (y / 2) (omega (arith, low)) in
    let half : x * 2 ^ k * 2 / 2 ≡ x * 2 ^ k = omega arith in
    ap (λ z. bit_or z y) twice ∙ omega (arith, halves, rest, twice, ap (λ z. bit_or z (y / 2)) half)

and_on : ℕ → ℕ → ℕ → ℕ
and_on fuel a b = digits (λ y. 0) min fuel a b

and_on_enough : (fuel more a b : ℕ) → a ≤ fuel → a ≤ more → and_on fuel a b ≡ and_on more a b
unfolding and_on
and_on_enough zero zero a b le le' = refl
and_on_enough zero (suc more) zero b le le' = refl
and_on_enough zero (suc more) (suc a) b le le' = absurd (omega arith)
and_on_enough (suc fuel) zero zero b le le' = refl
and_on_enough (suc fuel) zero (suc a) b le le' = absurd (omega arith)
and_on_enough (suc fuel) (suc more) zero b le le' = refl
and_on_enough (suc fuel) (suc more) (suc a) b le le' =
    omega (arith, and_on_enough fuel more (suc a / 2) (b / 2) (omega arith) (omega arith))

pub bit_and-halves : (a b : ℕ) → bit_and a b ≡ bit_and (a / 2) (b / 2) * 2 + min (a % 2) (b % 2)
unfolding and_on
bit_and-halves zero b = omega (arith, bit_and-bitwise 0 b, bit_and-bitwise 0 (b / 2))
bit_and-halves (suc a) b = omega (
  arith,
  bit_and-bitwise (suc a) b,
  bit_and-bitwise (suc a / 2) (b / 2),
  and_on_enough a (suc a / 2) (suc a / 2) (b / 2) (omega arith) (omega arith),
)

bit_and-zero_on : (n a : ℕ) → a ≤ n → bit_and a 0 ≡ 0
bit_and-zero_on n zero le = bit_and-bitwise 0 0
bit_and-zero_on zero (suc a) le = absurd (omega (arith, le))
bit_and-zero_on (suc n) (suc a) le =
    omega (arith, bit_and-halves (suc a) 0, bit_and-zero_on n (suc a / 2) (omega (arith, le)))

-- A mask that ends in a one, and one that ends in four.
and_odd : (a m : ℕ) → bit_and a (m * 2 + 1) ≡ bit_and (a / 2) m * 2 + a % 2
and_odd a m =
    let half : (m * 2 + 1) / 2 ≡ m = omega arith in
    omega (arith, bit_and-halves a (m * 2 + 1), ap (bit_and (a / 2)) half)

and_hex : (a m : ℕ) → bit_and a (m * 16 + 15) ≡ bit_and (a / 16) m * 16 + a % 16
and_hex a m =
    let mask : m * 16 + 15 ≡ (((m * 2 + 1) * 2 + 1) * 2 + 1) * 2 + 1 = omega arith in
    let rest : a / 2 / 2 / 2 / 2 ≡ a / 16 = omega arith in
    omega (
      arith,
      ap (bit_and a) mask,
      and_odd a (((m * 2 + 1) * 2 + 1) * 2 + 1),
      and_odd (a / 2) ((m * 2 + 1) * 2 + 1),
      and_odd (a / 2 / 2) (m * 2 + 1),
      and_odd (a / 2 / 2 / 2) m,
      ap (λ x. bit_and x m) rest,
    )

-- The mask of twelve ones.
pub bit_and-twelve : (a : ℕ) → bit_and a 4095 ≡ a % 4096
bit_and-twelve a =
    let none = bit_and-zero_on (a / 16 / 16 / 16) (a / 16 / 16 / 16) (omega arith) in
    omega (arith, and_hex a 255, and_hex (a / 16) 15, and_hex (a / 16 / 16) 0, none)
