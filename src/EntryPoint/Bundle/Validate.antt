-- ===== src/EntryPoint/Bundle/Validate.antt =====
-- The validation of an operation in contracts/core/EntryPoint.sol, up to `_validatePrepayment` and
-- `_validateAccountAndPaymasterValidationData`.
use falcon_smart_account.Prelude.{
  ℕ, ◌+◌, ◌-◌, ◌%◌, ◌^◌, bit_or, Bool, false, ◌||◌, not, List, [], length, ltb, leb, ◌==◌,
  if◌then◌else◌,
}
use falcon_smart_account.Outcome.{
  Error, ok, throws, failed_op, failed_op_with_revert, refused, call_reverted, panic,
}
use falcon_smart_account.TestUtils.Validation.{contract_parse_validation_data}
use falcon_smart_account.EntryPoint.Memory.{
  CalldataUserOp, MemoryUserOp, copy_user_op_to_memory, get_required_prefund,
}
use falcon_smart_account.EntryPoint.Nonce.{validate_and_update_nonce}
use falcon_smart_account.EntryPoint.Stake.{deposits_of, write}
use falcon_smart_account.EntryPoint.Bundle.Outside.{
  Chain, Outside, Meter, Code, ◌>>=◌, return, lift, expect, asking,
}

-- `UserOpInfo`, with the context itself for its place in memory
pub record UserOpInfo : Type 0 where
  pub m_user_op : MemoryUserOp
  pub user_op_hash : ℕ
  pub prefund : ℕ
  pub context : List ℕ
  pub pre_op_gas : ℕ

abbrev pub max_gas_values : MemoryUserOp → ℕ
max_gas_values m =
    bit_or
      (bit_or
        (bit_or
          (bit_or (bit_or (bit_or m.pre_verification_gas m.verification_gas_limit) m.call_gas_limit)
            m.paymaster_verification_gas_limit)
          m.paymaster_post_op_gas_limit)
        m.max_fee_per_gas)
      m.max_priority_fee_per_gas

-- `deposits[account].deposit -= prefund`, or a refusal
unfoldable pub take_prefund : {W : Type 0} → ℕ → ℕ → Error → Code W Unit
take_prefund account prefund e s =
    let info = deposits_of s.contract.deposits account in
    if ltb info.deposit prefund
    then throws e
    else ok (
      tt,
      record s {
        contract = record {
          deposits =
              write account (record info { deposit = info.deposit - prefund }) s.contract.deposits;
          ether = s.contract.ether;
        };
      },
    )

-- `_validateAndUpdateNonce`, in the state
unfoldable pub take_nonce : {W : Type 0} → ℕ → ℕ → Code W Bool
take_nonce sender nonce s =
    let (accepted, m) = validate_and_update_nonce sender nonce s.sequences in
    ok (accepted, record s { sequences = m })

-- `_getValidationData`: the aggregator, and whether it is out of its time
unfoldable pub get_validation_data : ℕ → ℕ → ℕ × Bool
get_validation_data now validation_data =
    if validation_data == 0
    then (0, false)
    else (let (aggregator, after, until) = contract_parse_validation_data validation_data in
        (aggregator, ltb until now || ltb now after))

module _ {W : Type 0} (o : Outside W) where
  unfoldable pub code_length : ℕ → Code W ℕ
  code_length account s = ok (o.code_length account s, s)

  -- `_createSenderIfNeeded`
  unfoldable pub create_sender_if_needed : ℕ → MemoryUserOp → List ℕ → Code W Unit
  unfolding code_length
  create_sender_if_needed index m init_code = if length init_code == 0 then return tt else do
    before ← code_length m.sender
    _ ← expect (before == 0) (failed_op index 10)
    sender1 ← asking o call_reverted (o.create_sender m.verification_gas_limit init_code)
    _ ← expect (not (sender1 == 0)) (failed_op index 13)
    _ ← expect (sender1 == m.sender) (failed_op index 14)
    after ← code_length sender1
    _ ← expect (not (after == 0)) (failed_op index 15)
    expect (leb 20 (length init_code)) panic

  -- What the account is asked to add to its deposit: nothing with a paymaster.
  abbrev pub missing_account_funds : MemoryUserOp → ℕ → Chain W → ℕ
  missing_account_funds m prefund s =
      if m.paymaster == 0
      then (let bal = (deposits_of s.contract.deposits m.sender).deposit in
          if ltb prefund bal then 0 else prefund - bal)
      else 0

  -- `_validateAccountPrepayment`
  unfoldable pub validate_account_prepayment : ℕ → CalldataUserOp → MemoryUserOp → ℕ → ℕ → Code W ℕ
  unfolding create_sender_if_needed take_prefund
  validate_account_prepayment index op m hash prefund = do
    _ ← create_sender_if_needed index m op.init_code
    validation_data ← asking o (failed_op_with_revert index 23) (λ s.
        o.validate_user_op m.sender m.verification_gas_limit op hash
          (missing_account_funds m prefund s) s)
    _ ← if m.paymaster == 0 then take_prefund m.sender prefund (failed_op index 21) else return tt
    return validation_data

  -- `_validatePaymasterPrepayment`: the context and the validation data
  unfoldable pub validate_paymaster_prepayment :
      ℕ → CalldataUserOp → MemoryUserOp → ℕ → ℕ → Meter → Code W (List ℕ × ℕ)
  unfolding take_prefund
  validate_paymaster_prepayment index op m hash prefund meter = do
    _ ← take_prefund m.paymaster prefund (failed_op index 31)
    answer ← asking o (failed_op_with_revert index 33) (
        o.validate_paymaster_user_op m.paymaster m.paymaster_verification_gas_limit op hash prefund)
    _ ←
        expect (leb meter.paymaster_verification m.paymaster_verification_gas_limit)
          (failed_op index 36)
    return answer

  -- `_validatePrepayment` of a copied operation: the two validation data and the operation's info
  unfoldable pub validate_copied :
      ℕ → CalldataUserOp → Meter → MemoryUserOp → Code W (ℕ × ℕ × UserOpInfo)
  unfolding validate_account_prepayment validate_paymaster_prepayment take_nonce
  validate_copied index op meter m =
      let hash = o.user_op_hash op in
      let prefund = get_required_prefund m in
      do
        _ ← expect (leb (max_gas_values m) (2 ^ 120 - 1)) (refused 94)
        validation_data ← validate_account_prepayment index op m hash prefund
        accepted ← take_nonce m.sender m.nonce
        _ ← expect accepted (failed_op index 25)
        _ ← expect (leb meter.verification m.verification_gas_limit) (failed_op index 26)
        answer ←
            if m.paymaster == 0
            then return ([], 0)
            else validate_paymaster_prepayment index op m hash prefund meter
        return (
          validation_data,
          answer.1,
          record {
            m_user_op = m;
            user_op_hash = hash;
            prefund = prefund;
            context = answer.0;
            pre_op_gas = (meter.prepayment + op.pre_verification_gas) % 2 ^ 256;
          },
        )

  -- `_validatePrepayment`
  unfoldable pub validate_prepayment : ℕ → CalldataUserOp → Meter → Code W (ℕ × ℕ × UserOpInfo)
  unfolding validate_copied
  validate_prepayment index op meter = do
    m ← lift (copy_user_op_to_memory op)
    validate_copied index op meter m

  -- `_validateAccountAndPaymasterValidationData`
  unfoldable pub check_validation_data : ℕ → ℕ → ℕ → ℕ → Code W Unit
  unfolding get_validation_data
  check_validation_data index validation_data paymaster_data expected =
      let (aggregator, out_of_time) = get_validation_data o.timestamp validation_data in
      let (pm_aggregator, pm_out_of_time) = get_validation_data o.timestamp paymaster_data in
      do
        _ ← expect (expected == aggregator) (failed_op index 24)
        _ ← expect (not out_of_time) (failed_op index 22)
        _ ← expect (pm_aggregator == 0) (failed_op index 34)
        expect (not pm_out_of_time) (failed_op index 32)
