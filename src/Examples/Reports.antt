-- ===== src/Examples/Reports.antt =====
-- The theorems on the report's accounts, on sent transactions and on spent signatures at concrete
-- inputs.
use falcon_smart_account.Prelude.{
  ℕ, ◌+◌, ◌≡◌, refl, none, [], ◌∷◌, arith, replicate, All, text_eq, if◌then◌else◌,
}
use falcon_smart_account.Prelude.Digits.{be_bytes, be_value}
use falcon_smart_account.Js.{Str, data_hex, hex_digits, hex_digit, digit_value}
use falcon_smart_account.Outcome.{Outcome, ok}
use falcon_smart_account.Ethers.Reference.{
  reference, hex_zero_pad, hex_data_slice, bytes_of, digits_concat,
}
use falcon_smart_account.UserOp.Types.{UserOperation}
use falcon_smart_account.UserOp.Pack.{pack_user_op, pack_account_gas_limits, has_paymaster, pad16}
use falcon_smart_account.UserOp.Fill.{
  fill_user_op, fill_init_code, fill_nonce, fill_call_gas, fill_fees, fill_paymaster,
  fill_pre_verification_gas, fill_user_op_defaults, verification_gas_of_init_code, encode_user_op,
}
use falcon_smart_account.UserOp.Sign.{sign_user_op, get_user_op_hash, fill_and_sign}
use falcon_smart_account.Create2.Address.{get_deployed_address, salt_bytes32}
use falcon_smart_account.Create2.Deploy.{
  Chain, has_code, is_factory_deployed, deploy_factory, deploy_code, deploy,
}
use falcon_smart_account.Signer.Account.{
  new_signer, create_user_operation, sync_account, recheck, find_address, get_account_address,
  keys_of, init_code_of, get_account_init_code, operation_keys, fee_with_gas_price,
}
use falcon_smart_account.Signer.Transaction.{
  TransactionResponse, big_to_number, user_event_response, send_transaction, send_transaction_lem,
}
use falcon_smart_account.GasCheck.Accounts.{
  GasBackend, Checker, range, range_from, creation_op, account_init_code, creation_ops, top_up,
  with_account, create_loop, send_ops, after_factory, create_accounts,
}
use falcon_smart_account.GasCheck.Created.{IsKnown, deploy_account_factory, create_accounts-IsKnown}
use falcon_smart_account.Falcon.Signature.{decompress_s2}
use falcon_smart_account.Falcon.Signature.Endless.{decompress_s2-endless}
use falcon_smart_account.Examples.Values.{alice, client, wallet}
use falcon_smart_account.Examples.Accounts.{backend, transaction}

decompress_s2-endless_example : (decompress_s2 1000 (replicate 42 57)).0 ≡ none
decompress_s2-endless_example = decompress_s2-endless 1000 (replicate 42 57) (omega arith)

abbrev response : TransactionResponse
response = record {
  hash = data_hex (replicate 32 7);
  from = alice;
  nonce = 2;
  gas_limit = 50000;
  call_data = data_hex (1 ∷ []);
  chain_id = 1;
}

sends_transaction :
    (send_transaction reference
      (λ s. s)
      client
      backend
      wallet
      (ok 1)
      (λ op. ok tt)
      transaction
      (new_signer 2)).0
    ≡ ok response
unfolding send_transaction user_event_response big_to_number get_user_op_hash encode_user_op
    create_user_operation new_signer sync_account recheck find_address get_account_address keys_of
    init_code_of get_account_init_code operation_keys fee_with_gas_price fill_and_sign fill_user_op
    fill_init_code verification_gas_of_init_code fill_nonce fill_call_gas fill_fees fill_paymaster
    fill_pre_verification_gas fill_user_op_defaults pack_user_op pack_account_gas_limits
    has_paymaster pad16 reference hex_zero_pad hex_data_slice bytes_of digits_concat hex_digits
    hex_digit be_bytes be_value digit_value
sends_transaction = refl

send_transaction_lem_example :
    (op : UserOperation) × ((create_user_operation reference backend wallet client
        (ok 1)
        transaction
        (new_signer 2)).0
      ≡ ok op)
    × (get_user_op_hash reference op client.address response.chain_id ≡ ok response.hash)
    × (response.from ≡ op.sender)
    × (response.nonce ≡ op.nonce)
    × (◌≡◌ {A = Outcome (Unit {0})} (ok tt) (ok tt))
send_transaction_lem_example =
    send_transaction_lem reference (λ s. s) client backend wallet (ok 1) (λ op. ok tt) transaction
      (new_signer 2) sends_transaction

abbrev account_of : ℕ → Str
account_of salt = data_hex (replicate 20 (salt + 1))

-- Every address but one account has code; a deposit adds to the state, which is every balance.
abbrev chain : Chain ℕ
chain = record {
  get_code =
      λ w address. if text_eq address (account_of 0) then data_hex [] else data_hex (96 ∷ []);
  estimate_gas = λ w to call_data. ok 90000;
  send_transaction = λ tx w. (ok tt, w + 1);
  send_value = λ to value w. (ok tt, w);
  send_raw = λ tx w. (ok tt, w + 1);
}

abbrev pub gas_backend : GasBackend ℕ
gas_backend = record {
  chain = chain;
  owner = wallet;
  entry_point = client.address;
  network = ok 1;
  factory_bytecode = data_hex (96 ∷ []);
  account_address = λ w factory salt. ok (account_of salt);
  encode_create_account = λ owner salt. data_hex (salt ∷ []);
  balance_of = λ w account. w;
  deposit_to = λ account value w. (ok tt, w + value);
  handle_ops = λ ops w. (ok tt, w);
}

abbrev pub no_accounts : Checker
no_accounts = record { created_accounts = []; accounts = [] }

creates_two : (create_accounts reference gas_backend 2 no_accounts 0).0 ≡ ok tt
unfolding create_accounts after_factory send_ops create_loop range range_from creation_ops top_up
    with_account deploy deploy_factory is_factory_deployed deploy_code has_code get_deployed_address
    salt_bytes32 creation_op account_init_code sign_user_op get_user_op_hash encode_user_op
    fill_user_op fill_init_code fill_nonce fill_call_gas fill_fees fill_paymaster
    fill_pre_verification_gas fill_user_op_defaults pack_user_op pack_account_gas_limits
    has_paymaster pad16 reference hex_zero_pad hex_data_slice bytes_of digits_concat hex_digits
    hex_digit be_bytes be_value digit_value
creates_two = refl

abbrev deployed_factory : Str
deployed_factory = data_hex (replicate 20 7)

factory_deployed : (deploy_account_factory reference gas_backend 0).0 ≡ ok deployed_factory
unfolding deploy deploy_factory is_factory_deployed deploy_code has_code get_deployed_address
    salt_bytes32 reference hex_zero_pad hex_data_slice bytes_of digits_concat hex_digits hex_digit
    be_bytes be_value digit_value
factory_deployed = refl

create_accounts-IsKnown_example :
    All
      (λ (salt : ℕ).
        IsKnown (create_accounts reference gas_backend 2 no_accounts 0).1 (account_of salt))
      (range 2)
create_accounts-IsKnown_example =
    create_accounts-IsKnown reference gas_backend account_of deployed_factory (λ w. Unit)
      (record { answers = λ w salt there. refl; stays = λ account value w there. tt }) 2 no_accounts
      0 factory_deployed tt creates_two
