-- ===== src/Prelude/Bits.antt =====
-- `&` with a mask of low bits is the remainder by a power of two, at every width.
use Prim.Native.Nat.{
  ℕ, zero, suc, ◌+◌, ◌-◌, ◌*◌, ◌/◌, ◌%◌, ◌^◌, ◌≤◌, ◌<◌, min, bit_and, digits, bit_and-bitwise,
}
use mathlib.Core.Path.{◌≡◌, refl, ap, ◌∙◌}
use native.Mathlib.Nat.{pow-suc, mod-eq_of_lt, mod-lt, div-add-mod, add-mul-mod_self_left}
use native.Mathlib.Omega.{arith}

-- What `bit_and` computes: `rounds` digits of both numbers, the lowest first.
abbrev common : ℕ → ℕ → ℕ → ℕ
common rounds p q = digits (λ _. zero) min rounds p q

-- More rounds than the first number has digits change nothing.
common_rounds : (k l p q : ℕ) → p ≤ l → p ≤ k → common k p q ≡ common l p q
common_rounds (suc k) (suc l) (suc p) q to_l to_k =
    omega (arith, common_rounds k l (suc p / 2) (q / 2) (omega arith) (omega arith))
common_rounds (suc k) (suc l) zero q to_l to_k = refl
common_rounds (suc k) zero zero q to_l to_k = refl
common_rounds (suc k) zero (suc p) q to_l to_k = absurd (omega arith)
common_rounds zero (suc l) zero q to_l to_k = refl
common_rounds zero (suc l) (suc p) q to_l to_k = absurd (omega arith)
common_rounds zero zero p q to_l to_k = refl

no_digits : (q : ℕ) → bit_and 0 q ≡ 0
no_digits = bit_and-bitwise 0

bit_and_low : (p q : ℕ) → bit_and p q ≡ bit_and (p / 2) (q / 2) * 2 + min (p % 2) (q % 2)
bit_and_low (suc p) q =
    let lost_none = common_rounds p (suc p / 2) (suc p / 2) (q / 2) (omega arith) (omega arith) in
    let halves = bit_and-bitwise (suc p / 2) (q / 2) in
    omega (arith, lost_none, halves, bit_and-bitwise (suc p) q)
bit_and_low zero q = omega (arith, no_digits (q / 2), no_digits q)

-- Induction on a bound of the first number.
bit_and-zero_below : (bound p : ℕ) → p ≤ bound → bit_and p 0 ≡ 0
bit_and-zero_below (suc bound) (suc p) within =
    let upper = bit_and-zero_below bound (suc p / 2) (omega arith) in
    omega (arith, upper, bit_and_low (suc p) 0)
bit_and-zero_below zero (suc p) within = absurd (omega arith)
bit_and-zero_below bound zero within = refl

-- `k` one bits
abbrev ones : ℕ → ℕ
ones zero = 0
ones (suc k) = ones k * 2 + 1

pow_eq_ones : (k : ℕ) → 2 ^ k ≡ ones k + 1
pow_eq_ones zero = refl
pow_eq_ones (suc k) = omega (arith, pow-suc 2 k, pow_eq_ones k)

pub pow_pos : (k : ℕ) → 0 < 2 ^ k
pow_pos k = omega (arith, pow_eq_ones k)

mod_double : (a m : ℕ) → 0 < m → a % (m * 2) ≡ (a / 2 % m) * 2 + a % 2
mod_double a m h =
    ap (λ (t : ℕ). t % (m * 2)) split ∙ add-mul-mod_self_left low (m * 2) q ∙ mod-eq_of_lt small
  where
    q : ℕ
    q = a / 2 / m

    low : ℕ
    low = a / 2 % m * 2 + a % 2

    split : a ≡ low + m * 2 * q
    split = omega (arith, ap (λ (t : ℕ). t * 2) (div-add-mod (a / 2) m), div-add-mod a 2)

    small : low < m * 2
    small = omega (arith, mod-lt (a / 2) h)

bit_and-ones : (k a : ℕ) → bit_and a (ones k) ≡ a % (ones k + 1)
bit_and-ones zero a = omega (arith, bit_and-zero_below a a)
bit_and-ones (suc k) a =
    bit_and_low a (ones k * 2 + 1)
    ∙ rw (halves, twice, bit_and-ones k (a / 2))
        (omega (arith, mod_double a (ones k + 1) (omega arith)))
  where
    halves : (ones k * 2 + 1) / 2 ≡ ones k
    halves = omega arith

    twice : ones k * 2 + 1 + 1 ≡ (ones k + 1) * 2
    twice = omega arith

-- A mask of `k` one bits.
pub bit_and_mask : (k a : ℕ) → bit_and a (2 ^ k - 1) ≡ a % 2 ^ k
bit_and_mask k a = rw (pow_eq_ones k) (rw e (bit_and-ones k a))
  where
    e : ones k + 1 - 1 ≡ ones k
    e = omega arith
