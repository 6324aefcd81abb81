-- ===== src/Prelude/Bits.antt =====
-- The bitwise or of native numbers: its lowest digit, its bounds, and numbers without a common digit.
use Prim.Native.Nat.{digits, max, bit_or-bitwise}
use Prim.Native.Nat.{ℕ, zero, suc, ◌+◌, ◌*◌, ◌/◌, ◌%◌, ◌^◌, ◌≤◌, ◌<◌, bit_or}
use mathlib.Core.Path.{◌≡◌, refl}
use native.Mathlib.Nat.{mul-add, two-pow-succ}
use native.Mathlib.Omega.{arith}

or_digits : ℕ → ℕ → ℕ → ℕ
or_digits n a b = digits (λ b. b) max n a b

-- More digits to go than the first number has make no difference.
or_digits_enough : (n m a b : ℕ) → a ≤ n → a ≤ m → or_digits n a b ≡ or_digits m a b
unfolding or_digits
or_digits_enough zero zero a b p q = refl
or_digits_enough zero (suc m) zero b p q = refl
or_digits_enough zero (suc m) (suc a) b p q = absurd (omega arith)
or_digits_enough (suc n) zero zero b p q = refl
or_digits_enough (suc n) zero (suc a) b p q = absurd (omega arith)
or_digits_enough (suc n) (suc m) zero b p q = refl
or_digits_enough (suc n) (suc m) (suc a) b p q =
    omega (arith, or_digits_enough n m (suc a / 2) (b / 2) (omega arith) (omega arith))

bit_or_step : (a b : ℕ) → bit_or a b ≡ bit_or (a / 2) (b / 2) * 2 + max (a % 2) (b % 2)
unfolding or_digits
bit_or_step zero b = omega (arith, bit_or-bitwise 0 b, bit_or-bitwise 0 (b / 2))
bit_or_step (suc a) b = omega (
  arith,
  bit_or-bitwise (suc a) b,
  bit_or-bitwise (suc a / 2) (b / 2),
  or_digits_enough a (suc a / 2) (suc a / 2) (b / 2) (omega arith) (omega arith),
)

digits-le : (n a b : ℕ) → a ≤ n → (a ≤ or_digits n a b) × (b ≤ or_digits n a b)
unfolding or_digits
digits-le zero a b h = (omega arith, omega arith)
digits-le (suc n) zero b h = (omega arith, omega arith)
digits-le (suc n) (suc a) b h =
    let (p, q) = digits-le n (suc a / 2) (b / 2) (omega arith) in
    (omega (arith, p), omega (arith, q))

pub bit_or-le : (a b : ℕ) → (a ≤ bit_or a b) × (b ≤ bit_or a b)
unfolding or_digits
bit_or-le a b =
    let (p, q) = digits-le a a b (omega arith) in
    (omega (arith, p, bit_or-bitwise a b), omega (arith, q, bit_or-bitwise a b))

even_step : (a c : ℕ) → bit_or (a / 2) c ≡ a / 2 + c → bit_or a (c + c) ≡ a + (c + c)
even_step a c h =
    let half : (c + c) / 2 ≡ c = omega arith in
    let same : bit_or (a / 2) ((c + c) / 2) ≡ a / 2 + c = rw (half) h in
    omega (arith, bit_or_step a (c + c), same)

-- Below the lowest digit of the second number, the bitwise or is the sum.
pub bit_or-disjoint : (k a b : ℕ) → a < 2 ^ k → bit_or a (b * 2 ^ k) ≡ a + b * 2 ^ k
bit_or-disjoint zero zero b h = omega (arith, bit_or-bitwise 0 (b * 2 ^ 0))
bit_or-disjoint zero (suc a) b h = absurd (omega arith)
bit_or-disjoint (suc k) a b h =
    let c = b * 2 ^ k in
    let twice : b * 2 ^ suc k ≡ c + c = rw (two-pow-succ k) (mul-add b (2 ^ k) (2 ^ k)) in
    rw (twice) (even_step a c (bit_or-disjoint k (a / 2) b (omega arith)))
