-- ===== src/EntryPoint/Hash.antt =====
-- The hash of an operation in the contract: `encode` and `hash` of contracts/core/UserOperationLib.sol
-- and `getUserOpHash` of contracts/core/EntryPoint.sol. Keccak is a parameter.
pub mod Agrees
use falcon_smart_account.Prelude.{ℕ, List, [], ◌∷◌, ◌++◌}
use falcon_smart_account.Prelude.Digits.{be_bytes}
use falcon_smart_account.Js.{codes}
use falcon_smart_account.Ethers.{flatten}
use falcon_smart_account.EntryPoint.Memory.{CalldataUserOp}

-- The text that `PACKED_USEROP_TYPEHASH` is the hash of.
abbrev pub packed_userop_type : List ℕ
packed_userop_type =
    codes
      "PackedUserOperation(address sender,uint256 nonce,bytes initCode,bytes callData,bytes32 accountGasLimits,uint256 preVerificationGas,bytes32 gasFees,bytes paymasterAndData)"

module _ (keccak : List ℕ → List ℕ) where
  -- `PACKED_USEROP_TYPEHASH`
  unfoldable pub packed_userop_typehash : List ℕ
  packed_userop_typehash = keccak packed_userop_type

  -- `encode`: `abi.encode` of values of one word each, which are put one after the other.
  unfoldable pub encode : CalldataUserOp → List ℕ
  encode op = flatten (
      packed_userop_typehash
      ∷ be_bytes 32 op.sender
      ∷ be_bytes 32 op.nonce
      ∷ keccak op.init_code
      ∷ keccak op.call_data
      ∷ op.account_gas_limits
      ∷ be_bytes 32 op.pre_verification_gas
      ∷ op.gas_fees
      ∷ keccak op.paymaster_and_data
      ∷ [])

  -- `hash`
  unfoldable pub hash : CalldataUserOp → List ℕ
  unfolding encode
  hash op = keccak (encode op)

  -- `getUserOpHash`, with OpenZeppelin's domain separator and `toTypedDataHash`, which hashes the
  -- bytes 0x19 and 0x01 with the separator and the hash.
  unfoldable pub get_user_op_hash : List ℕ → CalldataUserOp → List ℕ
  unfolding hash
  get_user_op_hash domain_separator op = keccak (25 ∷ 1 ∷ (domain_separator ++ hash op))
