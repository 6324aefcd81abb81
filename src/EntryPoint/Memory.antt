-- ===== src/EntryPoint/Memory.antt =====
-- `unpackUints` and `unpackPaymasterStaticFields` of contracts/core/UserOperationLib.sol, and
-- `_copyUserOpToMemory` and `_getRequiredPrefund` of contracts/core/EntryPoint.sol. Bytes are
-- lists of numbers, an address is a number.
use falcon_smart_account.Prelude.{
  ℕ, ◌+◌, ◌*◌, ◌%◌, ◌^◌, List, length, take, drop, ltb, leb, if◌then◌else◌,
}
use falcon_smart_account.Prelude.Digits.{be_value}
use falcon_smart_account.Outcome.{Outcome, ok, throws, ◌>>=◌, invalid_paymaster_and_data}

-- The calldata struct `PackedUserOperation` (contracts/interfaces/PackedUserOperation.sol).
pub record CalldataUserOp : Type 0 where
  pub sender : ℕ
  pub nonce : ℕ
  pub init_code : List ℕ
  pub call_data : List ℕ
  pub account_gas_limits : List ℕ
  pub pre_verification_gas : ℕ
  pub gas_fees : List ℕ
  pub paymaster_and_data : List ℕ
  pub signature : List ℕ

pub record MemoryUserOp : Type 0 where
  pub sender : ℕ
  pub nonce : ℕ
  pub verification_gas_limit : ℕ
  pub call_gas_limit : ℕ
  pub paymaster_verification_gas_limit : ℕ
  pub paymaster_post_op_gas_limit : ℕ
  pub pre_verification_gas : ℕ
  pub paymaster : ℕ
  pub max_fee_per_gas : ℕ
  pub max_priority_fee_per_gas : ℕ

-- The high and the low uint128 of a bytes32.
unfoldable pub unpack_uints : List ℕ → ℕ × ℕ
unpack_uints packed = (be_value 0 (take 16 packed), be_value 0 packed % 2 ^ 128)

-- The paymaster, its verification gas limit and its post-op gas limit.
unfoldable pub unpack_paymaster_static_fields : List ℕ → ℕ × ℕ × ℕ
unpack_paymaster_static_fields d =
    (be_value 0 (take 20 d), be_value 0 (take 16 (drop 20 d)), be_value 0 (take 16 (drop 36 d)))

unfoldable pub paymaster_fields : List ℕ → Outcome (ℕ × ℕ × ℕ)
unfolding unpack_paymaster_static_fields
paymaster_fields d =
    if ltb 0 (length d)
    then (if leb 52 (length d)
        then ok (unpack_paymaster_static_fields d)
        else throws invalid_paymaster_and_data)
    else ok (0, 0, 0)

unfoldable pub memory_op : CalldataUserOp → ℕ × ℕ × ℕ → MemoryUserOp
memory_op op (paymaster, verification, post_op) = record {
  sender = op.sender;
  nonce = op.nonce;
  verification_gas_limit = (unpack_uints op.account_gas_limits).0;
  call_gas_limit = (unpack_uints op.account_gas_limits).1;
  paymaster_verification_gas_limit = verification;
  paymaster_post_op_gas_limit = post_op;
  pre_verification_gas = op.pre_verification_gas;
  paymaster = paymaster;
  max_fee_per_gas = (unpack_uints op.gas_fees).1;
  max_priority_fee_per_gas = (unpack_uints op.gas_fees).0;
}

-- `_copyUserOpToMemory`
unfoldable pub copy_user_op_to_memory : CalldataUserOp → Outcome MemoryUserOp
copy_user_op_to_memory op = do
  fields ← paymaster_fields op.paymaster_and_data
  ok (memory_op op fields)

-- `_getRequiredPrefund`, in an unchecked block of uint256.
unfoldable pub get_required_prefund : MemoryUserOp → ℕ
get_required_prefund m =
    (m.verification_gas_limit + m.call_gas_limit + m.paymaster_verification_gas_limit
      + m.paymaster_post_op_gas_limit + m.pre_verification_gas)
    % 2 ^ 256
    * m.max_fee_per_gas
    % 2 ^ 256
