-- ===== src/UserOp/Bytes.antt =====
-- The bytes that `packUserOp` of test/UserOp.ts makes of an operation whose limits fit their
-- words.
use falcon_smart_account.Prelude.{
  ℕ, ◌^◌, ◌<◌, ◌≡◌, true, false, List, [], ◌∷◌, ◌++◌, append-nil, length, AllBytes,
}
use falcon_smart_account.Prelude.Digits.{be_bytes, be_bytes-AllBytes}
use falcon_smart_account.Js.{data_hex}
use falcon_smart_account.Outcome.{ok}
use falcon_smart_account.Ethers.{Ethers}
use falcon_smart_account.UserOp.Types.{UserOperation, PackedUserOperation}
use falcon_smart_account.UserOp.Pack.{pack_paymaster_data, has_paymaster, pack_user_op}
use falcon_smart_account.UserOp.RoundTrip.{two_words, pad16-ok, pack_account_gas_limits_lem}

-- Every limit fits its 128 bits, and the paymaster fields are data strings of the bytes given.
pub record IsPackable (op : UserOperation) (paymaster rest : List ℕ) : Type 0 where
  pub call_gas : op.call_gas_limit < 2 ^ 128
  pub verification_gas : op.verification_gas_limit < 2 ^ 128
  pub max_fee : op.max_fee_per_gas < 2 ^ 128
  pub priority_fee : op.max_priority_fee_per_gas < 2 ^ 128
  pub paymaster_verification_gas : op.paymaster_verification_gas_limit < 2 ^ 128
  pub post_op_gas : op.paymaster_post_op_gas_limit < 2 ^ 128
  pub paymaster_hex : op.paymaster ≡ data_hex paymaster
  pub paymaster_bytes : AllBytes paymaster
  pub paymaster_length : length paymaster ≡ 20
  pub rest_hex : op.paymaster_data ≡ data_hex rest
  pub rest_bytes : AllBytes rest

abbrev pub paymaster_and_data_bytes : UserOperation → List ℕ → List ℕ → List ℕ
paymaster_and_data_bytes op paymaster rest =
    paymaster
    ++ (be_bytes 16 op.paymaster_verification_gas_limit
        ++ (be_bytes 16 op.paymaster_post_op_gas_limit ++ rest))

abbrev pub packed_bytes : UserOperation → List ℕ → PackedUserOperation
packed_bytes op paymaster_and_data = record {
  sender = op.sender;
  nonce = op.nonce;
  init_code = op.init_code;
  call_data = op.call_data;
  account_gas_limits = data_hex (two_words op.verification_gas_limit op.call_gas_limit);
  pre_verification_gas = op.pre_verification_gas;
  gas_fees = data_hex (two_words op.max_priority_fee_per_gas op.max_fee_per_gas);
  paymaster_and_data = data_hex paymaster_and_data;
  signature = op.signature;
}

module _ (e : Ethers) (op : UserOperation) (paymaster rest : List ℕ) where
  pack_paymaster_data_lem :
      IsPackable op paymaster rest
      → pack_paymaster_data e op.paymaster op.paymaster_verification_gas_limit
          op.paymaster_post_op_gas_limit op.paymaster_data
        ≡ ok (data_hex (paymaster_and_data_bytes op paymaster rest))
  unfolding pack_paymaster_data
  pack_paymaster_data_lem h = rw (
    pad16-ok e op.paymaster_verification_gas_limit h.paymaster_verification_gas,
    pad16-ok e op.paymaster_post_op_gas_limit h.post_op_gas,
    h.paymaster_hex,
    h.rest_hex,
    e.concat_data
        (paymaster
          ∷ be_bytes 16 op.paymaster_verification_gas_limit
          ∷ be_bytes 16 op.paymaster_post_op_gas_limit
          ∷ rest
          ∷ [])
        (
          h.paymaster_bytes,
          (
            be_bytes-AllBytes 16 op.paymaster_verification_gas_limit h.paymaster_verification_gas,
            (be_bytes-AllBytes 16 op.paymaster_post_op_gas_limit h.post_op_gas, (h.rest_bytes, tt)),
          ),
        ),
    append-nil,
  )

  pub pack_user_op-paymaster :
      IsPackable op paymaster rest
      → has_paymaster e op ≡ true
      → pack_user_op e op ≡ ok (packed_bytes op (paymaster_and_data_bytes op paymaster rest))
  unfolding pack_user_op
  pack_user_op-paymaster h has = rw (
    pack_account_gas_limits_lem e op.verification_gas_limit op.call_gas_limit h.verification_gas
        h.call_gas,
    pack_account_gas_limits_lem e op.max_priority_fee_per_gas op.max_fee_per_gas h.priority_fee
        h.max_fee,
    has,
    pack_paymaster_data_lem h,
  )

  pub pack_user_op-no_paymaster :
      IsPackable op paymaster rest
      → has_paymaster e op ≡ false
      → pack_user_op e op ≡ ok (packed_bytes op [])
  unfolding pack_user_op
  pack_user_op-no_paymaster h has = rw (
    pack_account_gas_limits_lem e op.verification_gas_limit op.call_gas_limit h.verification_gas
        h.call_gas,
    pack_account_gas_limits_lem e op.max_priority_fee_per_gas op.max_fee_per_gas h.priority_fee
        h.max_fee,
    has,
  )
