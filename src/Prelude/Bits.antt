-- ===== src/Prelude/Bits.antt =====
-- The mask `x & (size - 1)` of the ring buffer: at a power of two it is the remainder.
use Prim.Native.Nat.{
  ℕ, zero, suc, ◌+◌, ◌-◌, ◌*◌, ◌/◌, ◌%◌, ◌^◌, ◌≤◌, ◌<◌, min, digits, bit_and, bit_and-bitwise,
}
use mathlib.Core.Path.{◌≡◌, refl, sym, ap, ◌∙◌}
use native.Mathlib.Omega.{arith}
use native.Mathlib.Nat.{pow-suc, mod-lt, add-mod_right, mod-eq_of_lt, div-add-mod'}

-- The digit recursion of the native operation does not depend on its fuel.
meet_fuel :
    (n m a b : ℕ) → a ≤ n → a ≤ m → digits (λ y. zero) min n a b ≡ digits (λ y. zero) min m a b
meet_fuel zero zero a b p q = refl
meet_fuel zero (suc m) zero b p q = refl
meet_fuel zero (suc m) (suc a) b p q = absurd (omega arith)
meet_fuel (suc n) zero zero b p q = refl
meet_fuel (suc n) zero (suc a) b p q = absurd (omega arith)
meet_fuel (suc n) (suc m) zero b p q = refl
meet_fuel (suc n) (suc m) (suc a) b p q =
    omega (arith, meet_fuel n m (suc a / 2) (b / 2) (omega arith) (omega arith))

bit_and_halves : (a b : ℕ) → bit_and a b ≡ bit_and (a / 2) (b / 2) * 2 + min (a % 2) (b % 2)
bit_and_halves zero b = omega (arith, bit_and-bitwise 0 b, bit_and-bitwise 0 (b / 2))
bit_and_halves (suc a) b = omega (
  arith,
  bit_and-bitwise (suc a) b,
  bit_and-bitwise (suc a / 2) (b / 2),
  meet_fuel a (suc a / 2) (suc a / 2) (b / 2) (omega arith) (omega arith),
)

bit_and-zero : (n a : ℕ) → a ≤ n → bit_and a 0 ≡ 0
bit_and-zero n zero h = refl
bit_and-zero zero (suc a) h = absurd (omega arith)
bit_and-zero (suc n) (suc a) h =
    omega (arith, bit_and_halves (suc a) 0, bit_and-zero n (suc a / 2) (omega arith))

-- A remainder is known by its quotient.
pub mod_unique : (q m r : ℕ) {x : ℕ} → r < m → x ≡ q * m + r → x % m ≡ r
mod_unique zero m r {x} h e = let e' : x ≡ r = omega arith in ap (λ t. t % m) e' ∙ mod-eq_of_lt h
mod_unique (suc q) m r {x} h e =
    let e' : x ≡ q * m + r + m = omega arith in
    ap (λ t. t % m) e' ∙ add-mod_right (q * m + r) m ∙ mod_unique q m r h refl

-- One step of the remainder by an even number.
mod-double : (a m : ℕ) → 0 < m → a % (2 * m) ≡ (a / 2 % m) * 2 + a % 2
mod-double a m h =
    mod_unique (a / 2 / m) (2 * m) ((a / 2 % m) * 2 + a % 2) (omega (arith, mod-lt (a / 2) h))
      (omega (arith, ap (λ t. t * 2) (div-add-mod' (a / 2) m)))

pub one-le-pow : (k : ℕ) → 1 ≤ 2 ^ k
one-le-pow zero = omega arith
one-le-pow (suc k) = omega (arith, pow-suc 2 k, one-le-pow k)

-- The mask of `k` ones keeps the remainder by `2 ^ k`.
pub bit_and_mask : (k a : ℕ) → bit_and a (2 ^ k - 1) ≡ a % 2 ^ k
bit_and_mask zero a = omega (arith, bit_and-zero a a (omega arith))
bit_and_mask (suc k) a =
    let double : 2 ^ suc k ≡ 2 * 2 ^ k = omega (arith, pow-suc 2 k) in
    let half : (2 ^ suc k - 1) / 2 ≡ 2 ^ k - 1 = omega (arith, one-le-pow k) in
    let odd : (2 ^ suc k - 1) % 2 ≡ 1 = omega (arith, one-le-pow k) in
    let step : bit_and (a / 2) ((2 ^ suc k - 1) / 2) ≡ a / 2 % 2 ^ k =
      ap (λ t. bit_and (a / 2) t) half ∙ bit_and_mask k (a / 2) in
    bit_and_halves a (2 ^ suc k - 1)
    ∙ omega (arith, step, odd, mod-double a (2 ^ k) (one-le-pow k))
    ∙ ap (λ t. a % t) (sym double)
