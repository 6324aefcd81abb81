-- ===== src/Examples/Bundled.antt =====
-- Bundles with concrete operations.
use falcon_smart_account.Prelude.{
  ℕ, ◌+◌, ◌*◌, ◌^◌, ◌≤◌, ◌<◌, ◌≡◌, ◌⊎◌, refl, List, [], ◌∷◌, ◌++◌, some, true, false, arith,
}
use falcon_smart_account.Prelude.Digits.{be_bytes, be_value}
use falcon_smart_account.Outcome.{ok, throws, failed_op, panic}
use falcon_smart_account.TestUtils.Validation.{contract_parse_validation_data}
use falcon_smart_account.EntryPoint.Memory.{
  CalldataUserOp, MemoryUserOp, copy_user_op_to_memory, paymaster_fields, memory_op, unpack_uints,
  get_required_prefund,
}
use falcon_smart_account.EntryPoint.Nonce.{
  Sequences, increment, validate_and_update_nonce, get_nonce, key_of, seq_of,
}
use falcon_smart_account.EntryPoint.Nonce.Next.{validate-get_nonce}
use falcon_smart_account.EntryPoint.Stake.{
  DepositInfo, deposits_of, write, deposit_to, deposits_to, deployed, called,
}
use falcon_smart_account.EntryPoint.Stake.Solvent.{Calls-IsSolvent}
use falcon_smart_account.EntryPoint.Stake.Owed.{IsCovered, IsSolvent}
use falcon_smart_account.EntryPoint.Bundle.Outside.{
  Chain, Outside, Meter, returned, deposits_for, skips_nonce, forces_ether, after_call, perform,
  forced_by, calling, asking, expect, return, lift, ◌>>=◌,
}
use falcon_smart_account.EntryPoint.Bundle.Validate.{
  UserOpInfo, validate_prepayment, validate_copied, validate_account_prepayment,
  create_sender_if_needed, take_prefund, take_nonce, check_validation_data, get_validation_data,
}
use falcon_smart_account.EntryPoint.Bundle.Execute.{
  has_inner_gas, execute_user_op, finish_inner, inner_handle_op, inner_call_data, exec_sender,
  attempted, post_execution, get_user_op_gas_price, with_penalty, settle, increment_deposit,
}
use falcon_smart_account.EntryPoint.Bundle.Handle.{
  UserOpsPerAggregator, handle_aggregated_ops, check_aggregators, signature_checked,
  validate_groups, handle_ops, validate_ops, validate_one, execute_ops, compensate, send_ether,
}
use falcon_smart_account.EntryPoint.Bundle.Solvent.{handle_ops-IsSolvent}
use falcon_smart_account.EntryPoint.Bundle.Groups.{total_ops, handle_aggregated_ops-IsSolvent}
use falcon_smart_account.EntryPoint.Bundle.Once.{uses}
use falcon_smart_account.EntryPoint.Bundle.Replay.{begins, handles, serves, History, History-Once}
use falcon_smart_account.EntryPoint.Bundle.Reverts.{execute_user_op-Ends}
use falcon_smart_account.EntryPoint.Bundle.Bounds.{IsBelow, required_gas, max_gas_values-IsSafe}

-- An account that adds a deposit while it validates, and accepts everything; the beneficiary forces
-- ether on the contract.
abbrev world : Outside Unit
world = record {
  timestamp = 1000;
  base_fee = 0;
  user_op_hash = λ op. 99;
  code_length = λ account s. 5;
  create_sender = λ gas init_code s. returned (some 0) [] tt;
  validate_user_op =
      λ sender gas op hash missing s. returned (some 0) (deposits_for 7 1000 ∷ []) tt;
  validate_paymaster_user_op = λ paymaster gas op hash prefund s. returned (some ([], 0)) [] tt;
  execute_user_op_selector = 1;
  encode_execute_user_op = λ op hash. [];
  exec_call = λ sender call_data gas s. returned tt [] tt;
  post_op = λ paymaster gas mode context cost price s. returned tt [] tt;
  validate_signatures = λ aggregator ops signature s. some true;
  receive = λ beneficiary amount s. returned tt (forces_ether 3 ∷ []) tt;
}

abbrev plain_op : CalldataUserOp
plain_op = record {
  sender = 7;
  nonce = 0;
  init_code = [];
  call_data = 1 ∷ [];
  account_gas_limits = be_bytes 16 1000 ++ be_bytes 16 2000;
  pre_verification_gas = 500;
  gas_fees = be_bytes 16 1 ++ be_bytes 16 2;
  paymaster_and_data = [];
  signature = [];
}

abbrev plain_meter : Meter
plain_meter = record {
  verification = 300;
  prepayment = 400;
  paymaster_verification = 0;
  inner_gas_left = 20000;
  inner = 1500;
  inner_post = 100;
  inner_dies = false;
  outer = 1700;
  outer_post = 50;
}

abbrev unused : Sequences
unused = λ sender key. 0

abbrev info_with : ℕ → DepositInfo
info_with deposit = record {
  deposit = deposit;
  staked = false;
  stake = 0;
  unstake_delay_sec = 0;
  withdraw_time = 0;
}

abbrev chain_with : ℕ → ℕ → Sequences → Chain Unit
chain_with deposit forced m = record {
  contract = record { deposits = (7, info_with deposit) ∷ []; ether = deposit + forced };
  forced = forced;
  sequences = m;
  world = tt;
}

-- A cost of 2540: 900 of gas before, 1600 for the call and after it, and a tenth of the unused 400.
plain_bundle :
    handle_ops world ((plain_op, plain_meter) ∷ []) 9 (chain_with 10000 0 unused)
    ≡ ok (tt, chain_with 8460 3 (increment 7 0 unused))
unfolding handle_ops validate_ops validate_one validate_prepayment validate_copied
    copy_user_op_to_memory paymaster_fields memory_op unpack_uints be_value be_bytes
    get_required_prefund validate_account_prepayment create_sender_if_needed take_prefund take_nonce
    validate_and_update_nonce increment check_validation_data get_validation_data execute_ops
    execute_user_op finish_inner inner_handle_op inner_call_data exec_sender attempted
    post_execution get_user_op_gas_price with_penalty settle increment_deposit compensate send_ether
    deposits_of write deposit_to perform forced_by calling asking expect return lift ◌>>=◌
plain_bundle = refl

-- The account's deposit, before any bundle.
before-IsSolvent : IsSolvent (chain_with 10000 0 unused).contract
unfolding deposit_to write deposits_of
before-IsSolvent = Calls-IsSolvent (called deployed (deposits_to 7 10000 refl))

handle_ops-IsSolvent_example : IsCovered 3 (chain_with 8460 3 (increment 7 0 unused)).contract
handle_ops-IsSolvent_example =
    handle_ops-IsSolvent world ((plain_op, plain_meter) ∷ []) 9 (chain_with 10000 0 unused)
      (chain_with 8460 3 (increment 7 0 unused)) (omega arith) plain_bundle before-IsSolvent

-- The same account with an aggregator.
abbrev aggregated : Outside Unit
aggregated = record world {
  validate_user_op =
      λ sender gas op hash missing s. returned (some 5) (deposits_for 7 1000 ∷ []) tt;
}

abbrev one_group : List UserOpsPerAggregator
one_group = record { user_ops = (plain_op, plain_meter) ∷ []; aggregator = 5; signature = [] } ∷ []

aggregated_bundle :
    handle_aggregated_ops aggregated one_group 9 (chain_with 10000 0 unused)
    ≡ ok (tt, chain_with 8460 3 (increment 7 0 unused))
unfolding handle_aggregated_ops check_aggregators signature_checked validate_groups validate_ops
    validate_one validate_prepayment validate_copied copy_user_op_to_memory paymaster_fields
    memory_op unpack_uints be_value be_bytes get_required_prefund validate_account_prepayment
    create_sender_if_needed take_prefund take_nonce validate_and_update_nonce increment
    check_validation_data get_validation_data contract_parse_validation_data execute_ops
    execute_user_op finish_inner inner_handle_op inner_call_data exec_sender attempted
    post_execution get_user_op_gas_price with_penalty settle increment_deposit compensate send_ether
    deposits_of write deposit_to perform forced_by calling asking expect return lift ◌>>=◌
aggregated_bundle = refl

handle_aggregated_ops-IsSolvent_example :
    IsCovered 3 (chain_with 8460 3 (increment 7 0 unused)).contract
unfolding total_ops
handle_aggregated_ops-IsSolvent_example =
    handle_aggregated_ops-IsSolvent aggregated one_group 9 (chain_with 10000 0 unused)
      (chain_with 8460 3 (increment 7 0 unused)) (omega arith) aggregated_bundle before-IsSolvent

-- The bundle, and a nonce skipped after it.
abbrev skipped : Chain Unit
skipped = after_call 1000 (skips_nonce 7 0 ∷ []) tt (chain_with 8460 3 (increment 7 0 unused))

once_used : History (chain_with 10000 0 unused) ((plain_op, plain_meter) ∷ []) skipped
once_used =
    serves 1000 (skips_nonce 7 0 ∷ []) tt
      (handles world ((plain_op, plain_meter) ∷ []) 9 begins plain_bundle)

History-Once_example :
    (uses 7 0 ((plain_op, plain_meter) ∷ []) ≤ 1)
    × (uses 7 0 ((plain_op, plain_meter) ∷ []) * (seq_of 0 + 1) ≤ skipped.sequences 7 (key_of 0))
History-Once_example = History-Once 7 0 once_used

-- The info that the validation of the operation fills, and a meter with too little gas.
abbrev plain_memory : MemoryUserOp
plain_memory = record {
  sender = 7;
  nonce = 0;
  verification_gas_limit = 1000;
  call_gas_limit = 2000;
  paymaster_verification_gas_limit = 0;
  paymaster_post_op_gas_limit = 0;
  pre_verification_gas = 500;
  paymaster = 0;
  max_fee_per_gas = 2;
  max_priority_fee_per_gas = 1;
}

abbrev plain_info : UserOpInfo
plain_info = record {
  m_user_op = plain_memory;
  user_op_hash = 99;
  prefund = 7000;
  context = [];
  pre_op_gas = 900;
}

abbrev starved : Meter
starved = record plain_meter { inner_gas_left = 12000 }

execute_user_op-Ends_example :
    let r = execute_user_op world 3 plain_op plain_info starved (chain_with 4000 0 unused) in
    ((has_inner_gas plain_info starved ≡ false) × (r ≡ throws (failed_op 3 95)))
    ⊎ ((has_inner_gas plain_info starved ≡ true)
        × (((cost : ℕ) × (s' : Chain Unit) × (r ≡ ok (cost, s'))) ⊎ (r ≡ throws panic)))
execute_user_op-Ends_example =
    execute_user_op-Ends world 3 plain_op plain_info starved (chain_with 4000 0 unused)

max_gas_values-IsSafe_example :
    IsBelow (2 ^ 120) plain_memory
    × (get_required_prefund plain_memory ≡ required_gas plain_memory * 2)
    × (get_required_prefund plain_memory < 2 ^ 243)
max_gas_values-IsSafe_example = max_gas_values-IsSafe plain_memory (omega arith)

validate-get_nonce_example :
    let nonce = get_nonce 7 3 unused in
    let (accepted, m') = validate_and_update_nonce 7 nonce unused in
    (key_of nonce ≡ 3) × (seq_of nonce ≡ 0) × (accepted ≡ true) × (get_nonce 7 3 m' ≡ nonce + 1)
validate-get_nonce_example = validate-get_nonce 7 3 unused (omega arith) (omega arith)
