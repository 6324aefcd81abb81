-- ===== src/EntryPoint/Bundle/Execute.antt =====
-- The execution of an operation in contracts/core/EntryPoint.sol: `_executeUserOp`,
-- `innerHandleOp` and `_postExecution`.
use falcon_smart_account.Prelude.{
  ℕ, ◌+◌, ◌-◌, ◌*◌, ◌/◌, ◌%◌, ◌^◌, Bool, true, false, List, length, take, ltb, leb, ◌==◌,
  if◌then◌else◌,
}
use falcon_smart_account.Prelude.Digits.{be_value}
use falcon_smart_account.Outcome.{
  Error, Outcome, ok, throws, failed_op, panic, inner_out_of_gas, inner_revert_low_prefund,
  post_op_reverted_error, dead_call,
}
use falcon_smart_account.EntryPoint.Memory.{CalldataUserOp, MemoryUserOp}
use falcon_smart_account.EntryPoint.Stake.{deposits_of, write}
use falcon_smart_account.EntryPoint.Bundle.Outside.{
  Chain, PostOpMode, op_succeeded, op_reverted, post_op_reverted, Ended, returned, reverted_call,
  Outside, Meter, Code, ◌>>=◌, return, expect, after_call, calling,
}
use falcon_smart_account.EntryPoint.Bundle.Validate.{UserOpInfo}

-- `INNER_GAS_OVERHEAD` and `PENALTY_PERCENT`
abbrev pub inner_gas_overhead : ℕ
inner_gas_overhead = 10000

abbrev pub penalty_percent : ℕ
penalty_percent = 10

-- `getUserOpGasPrice`, at a block's base fee
unfoldable pub get_user_op_gas_price : ℕ → MemoryUserOp → ℕ
get_user_op_gas_price base_fee m =
    let with_base = (m.max_priority_fee_per_gas + base_fee) % 2 ^ 256 in
    if m.max_fee_per_gas == m.max_priority_fee_per_gas
    then m.max_fee_per_gas
    else (if ltb m.max_fee_per_gas with_base then m.max_fee_per_gas else with_base)

-- The gas with the penalty for unused execution gas.
unfoldable pub with_penalty : UserOpInfo → ℕ → ℕ
with_penalty info actual_gas =
    let m = info.m_user_op in
    let limit = (m.call_gas_limit + m.paymaster_post_op_gas_limit) % 2 ^ 256 in
    let used = (actual_gas + (2 ^ 256 - info.pre_op_gas)) % 2 ^ 256 in
    if ltb used limit
    then (actual_gas + (limit - used) * penalty_percent % 2 ^ 256 / 100) % 2 ^ 256
    else actual_gas

-- `_incrementDeposit`, whose addition is checked
unfoldable pub increment_deposit : {W : Type 0} → ℕ → ℕ → Code W Unit
increment_deposit account amount s =
    let info = deposits_of s.contract.deposits account in
    if ltb (info.deposit + amount) (2 ^ 256)
    then ok (
      tt,
      record s {
        contract = record {
          deposits =
              write account (record info { deposit = info.deposit + amount }) s.contract.deposits;
          ether = s.contract.ether;
        };
      },
    )
    else throws panic

-- A cost above the prefund: all of it after a failed `postOp`, else the inner call reverts.
abbrev pub low_prefund : {W : Type 0} → PostOpMode → ℕ → Code W ℕ
low_prefund op_succeeded prefund s = throws inner_revert_low_prefund
low_prefund op_reverted prefund s = throws inner_revert_low_prefund
low_prefund post_op_reverted prefund s = ok (prefund, s)

unfoldable pub settle : {W : Type 0} → PostOpMode → UserOpInfo → ℕ → ℕ → Code W ℕ
unfolding increment_deposit
settle mode info actual_gas gas_price =
    let m = info.m_user_op in
    let cost = actual_gas * gas_price % 2 ^ 256 in
    if ltb info.prefund cost then low_prefund mode info.prefund else do
      _ ←
          increment_deposit (if m.paymaster == 0 then m.sender else m.paymaster)
            (info.prefund - cost)
      return cost

-- The first four bytes of the call data, 0 if there are fewer.
abbrev pub method_sig : List ℕ → ℕ
method_sig call_data = if ltb 3 (length call_data) then be_value 0 (take 4 call_data) else 0

-- The first word of a reverted inner call, as far as it matters.
pub data InnerRevertCode : Type 0 where
  out_of_gas low_prefund_code another_code : InnerRevertCode

abbrev pub inner_revert_code : Error → InnerRevertCode
inner_revert_code e = elim e [
  | inner_out_of_gas ↦ out_of_gas
  | inner_revert_low_prefund ↦ low_prefund_code
  | _ ↦ another_code
]

-- Enough gas is left for the inner call: `gasleft() * 63 / 64` against what it may use.
abbrev pub has_inner_gas : UserOpInfo → Meter → Bool
has_inner_gas info meter =
    let m = info.m_user_op in
    leb ((m.call_gas_limit + m.paymaster_post_op_gas_limit + inner_gas_overhead) % 2 ^ 256)
      (meter.inner_gas_left * 63 % 2 ^ 256 / 64)

module _ {W : Type 0} (o : Outside W) where
  unfoldable pub call_post_op : PostOpMode → UserOpInfo → ℕ → ℕ → Code W Unit
  call_post_op mode info cost gas_price = calling o post_op_reverted_error (
      o.post_op info.m_user_op.paymaster info.m_user_op.paymaster_post_op_gas_limit mode
        info.context cost gas_price)

  -- The call of `postOp`: not again after it reverted.
  unfoldable pub post_op_of : PostOpMode → UserOpInfo → ℕ → ℕ → Code W Unit
  unfolding call_post_op
  post_op_of op_succeeded info cost gas_price = call_post_op op_succeeded info cost gas_price
  post_op_of op_reverted info cost gas_price = call_post_op op_reverted info cost gas_price
  post_op_of post_op_reverted info cost gas_price = return tt

  -- `_postExecution`, with the gas that it used itself
  unfoldable pub post_execution : PostOpMode → UserOpInfo → ℕ → ℕ → Code W ℕ
  unfolding get_user_op_gas_price post_op_of with_penalty settle
  post_execution mode info actual_gas own_gas =
      let gas_price = get_user_op_gas_price o.base_fee info.m_user_op in
      do
        _ ←
            if info.m_user_op.paymaster == 0
            then return tt
            else (if length info.context == 0
                then return tt
                else post_op_of mode info (actual_gas * gas_price % 2 ^ 256) gas_price)
        settle mode info (with_penalty info ((actual_gas + own_gas) % 2 ^ 256)) gas_price

  unfoldable pub attempted : Ended W Unit → Chain W → PostOpMode × Chain W
  attempted (returned a requests w) s = (op_succeeded, after_call o.timestamp requests w s)
  attempted reverted_call s = (op_reverted, s)

  -- `Exec.call` of the sender, if there is call data
  unfoldable pub exec_sender : List ℕ → UserOpInfo → Code W PostOpMode
  unfolding attempted
  exec_sender call_data info s =
      let m = info.m_user_op in
      if length call_data == 0
      then ok (op_succeeded, s)
      else ok (attempted (o.exec_call m.sender call_data m.call_gas_limit s) s)

  -- `innerHandleOp`
  unfoldable pub inner_handle_op : List ℕ → UserOpInfo → Meter → Code W ℕ
  unfolding exec_sender post_execution
  inner_handle_op call_data info meter = do
    _ ← expect (has_inner_gas info meter) inner_out_of_gas
    mode ← exec_sender call_data info
    _ ← expect (if meter.inner_dies then false else true) dead_call
    post_execution mode info ((meter.inner + info.pre_op_gas) % 2 ^ 256) meter.inner_post

  -- The data of the inner call: the call data, or a call of `executeUserOp`.
  unfoldable pub inner_call_data : CalldataUserOp → UserOpInfo → List ℕ
  inner_call_data op info =
      if method_sig op.call_data == o.execute_user_op_selector
      then o.encode_execute_user_op op info.user_op_hash
      else op.call_data

  -- What follows an inner call that reverted, in the state before it.
  unfoldable pub after_revert : ℕ → UserOpInfo → Meter → InnerRevertCode → Code W ℕ
  unfolding post_execution
  after_revert index info meter out_of_gas s = throws (failed_op index 95)
  after_revert index info meter low_prefund_code s =
      if ltb (meter.outer + info.pre_op_gas) (2 ^ 256) then ok (info.prefund, s) else throws panic
  after_revert index info meter another_code s =
      if ltb (meter.outer + info.pre_op_gas) (2 ^ 256)
      then post_execution post_op_reverted info (meter.outer + info.pre_op_gas) meter.outer_post s
      else throws panic

  unfoldable pub finish_inner :
      ℕ → UserOpInfo → Meter → Chain W → Outcome (ℕ × Chain W) → Outcome (ℕ × Chain W)
  unfolding after_revert
  finish_inner index info meter s (ok (cost, s')) = ok (cost, s')
  finish_inner index info meter s (throws e) = after_revert index info meter (inner_revert_code e) s

  -- `_executeUserOp`
  unfoldable pub execute_user_op : ℕ → CalldataUserOp → UserOpInfo → Meter → Code W ℕ
  unfolding finish_inner inner_handle_op inner_call_data
  execute_user_op index op info meter s =
      finish_inner index info meter s (inner_handle_op (inner_call_data op info) info meter s)
