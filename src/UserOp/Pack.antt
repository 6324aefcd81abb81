-- ===== src/UserOp/Pack.antt =====
-- `packAccountGasLimits`, `unpackAccountGasLimits` and `packPaymasterData` of test/testutils.ts,
-- and `packUserOp` of test/UserOp.ts.
use mathlib.Core.Option
use falcon_smart_account.Prelude.{
  ℕ, Option, Bool, ◌&&◌, not, [], ◌∷◌, leb, text_eq, if◌then◌else◌, length,
}
use falcon_smart_account.Js.{Str, slice, slice_from, parse_int_16}
use falcon_smart_account.Js.Number.{to_number}
use falcon_smart_account.Outcome.{Outcome, ok, ◌>>=◌, or_throw, value_too_long}
use falcon_smart_account.Ethers.{Ethers}
use falcon_smart_account.UserOp.Types.{UserOperation, PackedUserOperation, empty_hex, address_zero}

module _ (e : Ethers) where
  -- `hexZeroPad(hexlify(value, { hexPad: 'left' }), 16)`
  unfoldable pub pad16 : ℕ → Outcome Str
  pad16 n = or_throw (e.hex_zero_pad (e.hexlify n) 16) value_too_long

  unfoldable pub pack_account_gas_limits : ℕ → ℕ → Outcome Str
  pack_account_gas_limits verification_gas_limit call_gas_limit = do
    high ← pad16 verification_gas_limit
    low ← pad16 call_gas_limit
    ok (e.hex_concat (high ∷ low ∷ []))

  unfoldable pub pack_paymaster_data : Str → ℕ → ℕ → Str → Outcome Str
  pack_paymaster_data paymaster verification_gas_limit post_op_gas_limit paymaster_data = do
    verification ← pad16 verification_gas_limit
    post_op ← pad16 post_op_gas_limit
    ok (e.hex_concat (paymaster ∷ verification ∷ post_op ∷ paymaster_data ∷ []))

  -- The length is that of the string: 42 for an address.
  unfoldable pub has_paymaster : UserOperation → Bool
  has_paymaster op = leb 20 (length op.paymaster) && not (text_eq op.paymaster address_zero)

  unfoldable pub pack_user_op : UserOperation → Outcome PackedUserOperation
  pack_user_op op = do
    account_gas_limits ← pack_account_gas_limits op.verification_gas_limit op.call_gas_limit
    gas_fees ← pack_account_gas_limits op.max_priority_fee_per_gas op.max_fee_per_gas
    paymaster_and_data ←
        (if has_paymaster op
          then pack_paymaster_data op.paymaster op.paymaster_verification_gas_limit
              op.paymaster_post_op_gas_limit op.paymaster_data
          else ok empty_hex)
    ok (record {
      sender = op.sender;
      nonce = op.nonce;
      init_code = op.init_code;
      call_data = op.call_data;
      account_gas_limits = account_gas_limits;
      pre_verification_gas = op.pre_verification_gas;
      gas_fees = gas_fees;
      paymaster_and_data = paymaster_and_data;
      signature = op.signature;
    })

-- `unpackAccountGasLimits`: a limit is `none` where `parseInt` gives NaN.
unfoldable pub unpack_account_gas_limits : Str → Option ℕ × Option ℕ
unpack_account_gas_limits limits = (
  Option.map to_number (parse_int_16 (slice limits 2 34)),
  Option.map to_number (parse_int_16 (slice_from limits 34)),
)
