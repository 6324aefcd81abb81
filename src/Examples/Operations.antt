-- ===== src/Examples/Operations.antt =====
-- The theorems on packing, filling and signing at concrete operations.
use falcon_smart_account.Prelude.{ℕ, ◌≡◌, refl, Option, some, [], ◌∷◌, arith, replicate}
use falcon_smart_account.Prelude.Digits.{be_bytes, be_value}
use falcon_smart_account.Js.{data_hex, hex_digits, hex_digit, digit_value}
use falcon_smart_account.Js.Number.{to_number}
use falcon_smart_account.Outcome.{Outcome, ok, ◌>>=◌}
use falcon_smart_account.Ethers.Reference.{
  reference, hex_zero_pad, hex_data_slice, bytes_of, digits_concat,
}
use falcon_smart_account.UserOp.Types.{UserOperation, PackedUserOperation, defaults_for_user_op}
use falcon_smart_account.UserOp.Pack.{
  pack_paymaster_data, pack_account_gas_limits, unpack_account_gas_limits, pack_user_op,
  has_paymaster, pad16,
}
use falcon_smart_account.UserOp.Bytes.{packed_bytes}
use falcon_smart_account.UserOp.RoundTrip.{unpack-pack_account_gas_limits}
use falcon_smart_account.UserOp.Fill.{
  EntryPointClient, fill_user_op, fill_user_op_defaults, fill_pre_verification_gas, fill_init_code,
  fill_nonce, fill_call_gas, fill_fees, fill_paymaster, call_data_cost, encode_user_op,
}
use falcon_smart_account.UserOp.Cost.{bytes_cost}
use falcon_smart_account.UserOp.Keeps.{Honours, fill_user_op-Honours}
use falcon_smart_account.UserOp.Sign.{
  get_erc4337_typed_data_domain, fill_and_sign, sign_user_op, get_user_op_hash, fill_sign_and_pack,
}
use falcon_smart_account.UserOp.Signed.{fill_sign_and_pack_lem}
use falcon_smart_account.Examples.Values.{alice, given, client, wallet, sponsored}

unpack-pack_account_gas_limits_example :
    (pack_account_gas_limits reference 150000 30000 >>= λ s. ok (unpack_account_gas_limits s))
    ≡ ok (some 150000, some 30000)
unfolding to_number
unpack-pack_account_gas_limits_example =
    unpack-pack_account_gas_limits reference 150000 30000 (omega arith) (omega arith)

abbrev filled : UserOperation
filled = record defaults_for_user_op {
  sender = alice;
  nonce = 3;
  max_fee_per_gas = 5;
  pre_verification_gas = 16;
  call_data = data_hex (1 ∷ 0 ∷ []);
  call_gas_limit = 40000;
}

fills : fill_user_op reference (some client) given ≡ ok filled
unfolding fill_user_op fill_init_code fill_nonce fill_call_gas fill_fees fill_paymaster
    fill_user_op_defaults fill_pre_verification_gas call_data_cost encode_user_op pack_user_op
    has_paymaster pack_account_gas_limits pad16 bytes_cost reference hex_zero_pad hex_data_slice
    bytes_of digits_concat hex_digits hex_digit be_bytes be_value digit_value
fills = refl

fill_user_op-Honours_example : Honours given filled
fill_user_op-Honours_example = fill_user_op-Honours reference (some client) given fills

abbrev signed : UserOperation
signed = record sponsored { signature = data_hex (replicate 32 7) }

signs : sign_user_op reference sponsored wallet client.address 1 ≡ ok signed
unfolding sign_user_op get_user_op_hash encode_user_op pack_user_op has_paymaster
    pack_account_gas_limits pack_paymaster_data pad16 reference hex_zero_pad hex_data_slice bytes_of
    digits_concat hex_digits hex_digit be_bytes be_value digit_value
signs = refl

abbrev sent : PackedUserOperation
sent = record (packed_bytes filled []) { signature = data_hex (27 ∷ []) }

sends : fill_sign_and_pack reference given wallet (some client) (ok 1) ≡ ok sent
unfolding fill_sign_and_pack fill_and_sign fill_user_op fill_init_code fill_nonce fill_call_gas
    fill_fees fill_paymaster fill_user_op_defaults fill_pre_verification_gas call_data_cost
    encode_user_op pack_user_op has_paymaster pack_account_gas_limits pad16 bytes_cost reference
    hex_zero_pad hex_data_slice bytes_of digits_concat hex_digits hex_digit be_bytes be_value
    digit_value
sends = refl

fill_sign_and_pack_lem_example :
    (op : UserOperation) × (packed : PackedUserOperation) × (ep : EntryPointClient) × (chain_id : ℕ)
    × (fill_user_op reference (some client) given ≡ ok op)
    × (◌≡◌ {A = Option EntryPointClient} (some client) (some ep))
    × (◌≡◌ {A = Outcome ℕ} (ok 1) (ok chain_id))
    × (pack_user_op reference op ≡ ok packed)
    × (wallet.sign_typed_data (get_erc4337_typed_data_domain ep.address chain_id) packed
        ≡ ok sent.signature)
    × (sent ≡ record packed { signature = sent.signature })
fill_sign_and_pack_lem_example =
    fill_sign_and_pack_lem reference given wallet (some client) (ok 1) sends
