-- ===== src/EntryPoint/Bundle/Bounds.antt =====
-- What the AA94 check of contracts/core/EntryPoint.sol gives: each gas value is below 2 ^ 120, and
-- the prefund is computed without overflow.
use native.Mathlib.Nat.{mul-le-mul}
use falcon_smart_account.Prelude.{ℕ, ◌+◌, ◌-◌, ◌*◌, ◌%◌, ◌^◌, ◌≤◌, ◌<◌, ◌≡◌, bit_or, arith}
use falcon_smart_account.Prelude.Bits.{bit_or-le}
use falcon_smart_account.EntryPoint.Memory.{MemoryUserOp, get_required_prefund}
use falcon_smart_account.EntryPoint.Bundle.Validate.{max_gas_values}

-- Every gas value is below a bound.
pub record IsBelow (bound : ℕ) (m : MemoryUserOp) : Type 0 where
  pub pre_verification_gas : m.pre_verification_gas < bound
  pub verification_gas_limit : m.verification_gas_limit < bound
  pub call_gas_limit : m.call_gas_limit < bound
  pub paymaster_verification_gas_limit : m.paymaster_verification_gas_limit < bound
  pub paymaster_post_op_gas_limit : m.paymaster_post_op_gas_limit < bound
  pub max_fee_per_gas : m.max_fee_per_gas < bound
  pub max_priority_fee_per_gas : m.max_priority_fee_per_gas < bound

or_below : (bound a b : ℕ) → bit_or a b < bound → (a < bound) × (b < bound)
or_below bound a b h = let (p, q) = bit_or-le a b in (omega (arith, p, h), omega (arith, q, h))

max_gas_values-IsBelow : (m : MemoryUserOp) (bound : ℕ) → max_gas_values m < bound → IsBelow bound m
max_gas_values-IsBelow m bound h =
    let (h1, priority) = or_below bound _ m.max_priority_fee_per_gas h in
    let (h2, fee) = or_below bound _ m.max_fee_per_gas h1 in
    let (h3, post_op) = or_below bound _ m.paymaster_post_op_gas_limit h2 in
    let (h4, paymaster) = or_below bound _ m.paymaster_verification_gas_limit h3 in
    let (h5, call) = or_below bound _ m.call_gas_limit h4 in
    let (pre, verification) = or_below bound m.pre_verification_gas m.verification_gas_limit h5 in
    record {
      pre_verification_gas = pre;
      verification_gas_limit = verification;
      call_gas_limit = call;
      paymaster_verification_gas_limit = paymaster;
      paymaster_post_op_gas_limit = post_op;
      max_fee_per_gas = fee;
      max_priority_fee_per_gas = priority;
    }

-- The gas of all limits, without wrap-around.
abbrev pub required_gas : MemoryUserOp → ℕ
required_gas m =
    m.verification_gas_limit + m.call_gas_limit + m.paymaster_verification_gas_limit
    + m.paymaster_post_op_gas_limit + m.pre_verification_gas

product_exact :
    (gas fee : ℕ)
    → gas < 5 * 2 ^ 120
    → fee < 2 ^ 120
    → (gas % 2 ^ 256 * fee % 2 ^ 256 ≡ gas * fee) × (gas * fee < 2 ^ 243)
product_exact gas fee g f =
    let small : gas * fee ≤ 5 * 2 ^ 120 * 2 ^ 120 =
      mul-le-mul {n₂ = 5 * 2 ^ 120} {m₂ = 2 ^ 120} (omega arith) (omega arith) in
    let same : gas % 2 ^ 256 ≡ gas = omega arith in
    (rw (same) (omega (arith, small)), omega (arith, small))

-- When the bitwise or of an operation's gas values passes the AA94 check, each of the seven values
-- is below 2 ^ 120, and the prefund that the unchecked block computes is the exact product of the
-- sum of the five limits and the maximal fee, which is below 2 ^ 243.
pub max_gas_values-IsSafe :
    (m : MemoryUserOp)
    → max_gas_values m ≤ 2 ^ 120 - 1
    → IsBelow (2 ^ 120) m
      × (get_required_prefund m ≡ required_gas m * m.max_fee_per_gas)
      × (get_required_prefund m < 2 ^ 243)
unfolding get_required_prefund
max_gas_values-IsSafe m h =
    let below = max_gas_values-IsBelow m (2 ^ 120) (omega (arith, h)) in
    let (exact, small) =
      product_exact (required_gas m) m.max_fee_per_gas
        (omega (
          arith, below.verification_gas_limit, below.call_gas_limit,
          below.paymaster_verification_gas_limit, below.paymaster_post_op_gas_limit,
          below.pre_verification_gas,
        ))
        below.max_fee_per_gas in
    (below, exact, omega (arith, exact, small))
