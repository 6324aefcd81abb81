-- ===== src/Examples/Accounts.antt =====
-- The theorems on the account signer at concrete inputs.
use falcon_smart_account.Prelude.{◌≡◌, refl, true, none, some, [], ◌∷◌}
use falcon_smart_account.Prelude.Digits.{be_bytes, be_value}
use falcon_smart_account.Js.{data_hex, hex_digits, hex_digit, digit_value}
use falcon_smart_account.Outcome.{ok}
use falcon_smart_account.Ethers.Reference.{
  reference, hex_zero_pad, hex_data_slice, bytes_of, digits_concat,
}
use falcon_smart_account.UserOp.Pack.{pack_user_op, pack_account_gas_limits, has_paymaster, pad16}
use falcon_smart_account.UserOp.Fill.{
  fill_user_op, fill_init_code, verification_gas_of_init_code, fill_nonce, fill_call_gas, fill_fees,
  fill_paymaster, fill_pre_verification_gas, fill_user_op_defaults,
}
use falcon_smart_account.UserOp.Sign.{fill_and_sign}
use falcon_smart_account.UserOp.Types.{UserOperation, defaults_for_user_op}
use falcon_smart_account.Signer.Account.{
  Backend, AaSigner, TransactionRequest, new_signer, sync_account, create_user_operation,
  get_account_init_code, recheck, find_address, get_account_address, keys_of, init_code_of,
  operation_keys, fee_with_gas_price, big_number,
}
use falcon_smart_account.Signer.Account.Deployment.{Carries, create_user_operation-Carries}
use falcon_smart_account.Examples.Values.{alice, bob, client, wallet}

-- The account is not deployed for the underlying signer's provider.
abbrev pub backend : Backend
backend = record {
  owner = ok bob;
  factory_get_address = λ owner salt. ok alice;
  factory_address = data_hex (8 ∷ []);
  encode_create_account = λ owner salt. data_hex (salt ∷ []);
  encode_execute = λ to value call_data. call_data;
  get_code = λ address. ok (data_hex (96 ∷ []));
  signer_get_code = some (λ address. ok (data_hex []));
  network = some (ok 1);
}

abbrev pub transaction : TransactionRequest
transaction = record {
  to = bob;
  value = none;
  call_data = data_hex (1 ∷ []);
  nonce = none;
  gas_limit = some 50000;
  gas_price = some (big_number 7);
  max_fee_per_gas = none;
  max_priority_fee_per_gas = none;
}

abbrev synced : AaSigner
synced = record { account = some alice; is_phantom = true; chain_id = some (ok 1); index = 2 }

abbrev created : UserOperation
created = record defaults_for_user_op {
  sender = alice;
  nonce = 2;
  init_code = data_hex (8 ∷ 0 ∷ []);
  call_data = data_hex (1 ∷ []);
  call_gas_limit = 50000;
  verification_gas_limit = 210000;
  max_fee_per_gas = 7;
  max_priority_fee_per_gas = 7;
  signature = data_hex (27 ∷ []);
}

creates :
    create_user_operation reference backend wallet client (ok 1) transaction (new_signer 2)
    ≡ (ok created, synced)
unfolding create_user_operation new_signer sync_account recheck find_address get_account_address
    keys_of init_code_of get_account_init_code operation_keys fee_with_gas_price fill_and_sign
    fill_user_op fill_init_code verification_gas_of_init_code fill_nonce fill_call_gas fill_fees
    fill_paymaster fill_pre_verification_gas fill_user_op_defaults pack_user_op
    pack_account_gas_limits has_paymaster pad16 reference hex_zero_pad hex_data_slice bytes_of
    digits_concat hex_digits hex_digit be_bytes be_value digit_value
creates = refl

create_user_operation-Carries_example : Carries reference backend transaction synced created
create_user_operation-Carries_example =
    create_user_operation-Carries reference backend transaction wallet client (ok 1) (new_signer 2)
      synced creates
