-- ===== src/EntryPoint/Bundle/Spends.antt =====
-- The execution of an operation in contracts/core/EntryPoint.sol spends at most the prefund that is
-- kept for it: its cost stays kept, the rest is owed to its payer again.
use falcon_smart_account.Prelude.{
  ℕ, ◌+◌, ◌-◌, ◌*◌, ◌%◌, ◌^◌, ◌≤◌, ◌≡◌, refl, List, length, arith, ltb, ◌==◌,
}
use falcon_smart_account.Outcome.{Outcome, ok, throws}
use falcon_smart_account.EntryPoint.Memory.{CalldataUserOp}
use falcon_smart_account.EntryPoint.Stake.{deposits_of}
use falcon_smart_account.EntryPoint.Bundle.Outside.{
  Chain, Ended, returned, reverted_call, Outside, Meter, ◌>>=◌, return, PostOpMode, op_succeeded,
  op_reverted, post_op_reverted,
}
use falcon_smart_account.EntryPoint.Bundle.Validate.{UserOpInfo}
use falcon_smart_account.EntryPoint.Bundle.Execute.{
  increment_deposit, low_prefund, settle, call_post_op, post_op_of, post_execution, attempted,
  exec_sender, inner_handle_op, InnerRevertCode, out_of_gas, low_prefund_code, another_code,
  inner_revert_code, inner_call_data, after_revert, finish_inner, execute_user_op,
}
use falcon_smart_account.EntryPoint.Bundle.Rules.{
  Holds, ended, thrown, >>=-Holds, return-Holds, if-Holds, calling-Holds, decided, Preserves,
  return-Preserves, expect-Preserves, IsStable, Keeps, Keeps-IsStable,
}
use falcon_smart_account.EntryPoint.Bundle.Keeps.{written-Keeps}

-- The calls of `postOp` and of the sender keep what code of others keeps.
module _ {W : Type 0} (o : Outside W) (P : Chain W → Type 0) (stable : IsStable P) where
  call_post_op-Preserves :
      (mode : PostOpMode) (info : UserOpInfo) (cost gas_price : ℕ)
      → Preserves P (call_post_op o mode info cost gas_price)
  unfolding call_post_op
  call_post_op-Preserves mode info cost gas_price = calling-Holds P o _ _ stable

  pub post_op_of-Preserves :
      (mode : PostOpMode) (info : UserOpInfo) (cost gas_price : ℕ)
      → Preserves P (post_op_of o mode info cost gas_price)
  unfolding post_op_of
  post_op_of-Preserves op_succeeded info cost gas_price =
      call_post_op-Preserves op_succeeded info cost gas_price
  post_op_of-Preserves op_reverted info cost gas_price =
      call_post_op-Preserves op_reverted info cost gas_price
  post_op_of-Preserves post_op_reverted info cost gas_price = return-Preserves P tt

  attempted-Preserves : (r : Ended W Unit) (s : Chain W) → P s → P (attempted o r s).1
  unfolding attempted
  attempted-Preserves (returned a rs w) s p = stable o.timestamp rs w s p
  attempted-Preserves reverted_call s p = p

  pub exec_sender-Preserves :
      (call_data : List ℕ) (info : UserOpInfo) → Preserves P (exec_sender o call_data info)
  unfolding exec_sender
  exec_sender-Preserves call_data info s p mode s' eq =
      decided (length call_data == 0) eq (λ _ made. ended (λ _ s1. P s1) made p)
        (λ _ made. ended (λ _ s1. P s1) made (attempted-Preserves _ s p))

module _ {W : Type 0} where
  -- A cost is kept, which is at most the prefund.
  abbrev pub Spent : ℕ → ℕ → ℕ → Chain W → Type 0
  Spent kept prefund cost s = Keeps (kept + cost) s × (cost ≤ prefund)

  increment_deposit-Keeps :
      (kept kept' account amount : ℕ)
      → kept' + amount ≡ kept
      → Holds (Keeps {W = W} kept) (increment_deposit account amount) (λ _. Keeps kept')
  unfolding increment_deposit
  increment_deposit-Keeps kept kept' account amount split s h a s' eq =
      let deposit = (deposits_of s.contract.deposits account).deposit in
      decided (ltb (deposit + amount) (2 ^ 256)) eq
        (λ _ made.
          ended (λ _. Keeps kept') made
            (written-Keeps kept kept' account (deposit + amount) s h (omega arith)))
        (λ _ failed. thrown failed)

  low_prefund-Keeps :
      (kept prefund : ℕ) (mode : PostOpMode)
      → Holds (Keeps {W = W} (kept + prefund)) (low_prefund mode prefund) (Spent kept prefund)
  low_prefund-Keeps kept prefund op_succeeded s h cost s' eq = thrown eq
  low_prefund-Keeps kept prefund op_reverted s h cost s' eq = thrown eq
  low_prefund-Keeps kept prefund post_op_reverted s h cost s' eq =
      ended (Spent kept prefund) eq (h, omega arith)

  refund-Keeps :
      (kept prefund cost account : ℕ)
      → cost ≤ prefund
      → Holds
          (Keeps {W = W} (kept + prefund))
          (increment_deposit account (prefund - cost) >>= λ _. return cost)
          (Spent kept prefund)
  refund-Keeps kept prefund cost account le =
      >>=-Holds (λ _. Keeps (kept + cost))
        (increment_deposit-Keeps (kept + prefund) (kept + cost) account (prefund - cost)
          (omega arith))
        (λ _. return-Holds (Spent kept prefund) cost (λ s1 h1. (h1, le)))

  pub settle-Keeps :
      (kept : ℕ) (mode : PostOpMode) (info : UserOpInfo) (gas gas_price : ℕ)
      → Holds
          (Keeps {W = W} (kept + info.prefund))
          (settle mode info gas gas_price)
          (Spent kept info.prefund)
  unfolding settle
  settle-Keeps kept mode info gas gas_price =
      let cost = gas * gas_price % 2 ^ 256 in
      if-Holds (ltb info.prefund cost) (λ _. low_prefund-Keeps kept info.prefund mode)
        (λ enough. refund-Keeps kept info.prefund cost _ (ground arith))

  module _ (o : Outside W) (kept : ℕ) where
    post_execution-Keeps :
        (mode : PostOpMode) (info : UserOpInfo) (gas own_gas : ℕ)
        → Holds
            (Keeps (kept + info.prefund))
            (post_execution o mode info gas own_gas)
            (Spent kept info.prefund)
    unfolding post_execution
    post_execution-Keeps mode info gas own_gas =
        let before = Keeps {W = W} (kept + info.prefund) in
        >>=-Holds (λ _. before)
          (if-Holds (info.m_user_op.paymaster == 0) (λ _. return-Preserves before tt)
            (λ _.
              if-Holds (length info.context == 0) (λ _. return-Preserves before tt)
                (λ _.
                  post_op_of-Preserves o before (Keeps-IsStable (kept + info.prefund)) mode info _
                    _)))
          (λ _. settle-Keeps kept mode info _ _)

    inner_handle_op-Keeps :
        (call_data : List ℕ) (info : UserOpInfo) (meter : Meter)
        → Holds
            (Keeps (kept + info.prefund))
            (inner_handle_op o call_data info meter)
            (Spent kept info.prefund)
    unfolding inner_handle_op
    inner_handle_op-Keeps call_data info meter =
        let before = Keeps {W = W} (kept + info.prefund) in
        >>=-Holds (λ _. before) (expect-Preserves before _ _)
          (λ _.
            >>=-Holds (λ _. before)
              (exec_sender-Preserves o before (Keeps-IsStable (kept + info.prefund)) call_data info)
              (λ mode.
                >>=-Holds (λ _. before) (expect-Preserves before _ _)
                  (λ _. post_execution-Keeps mode info _ _)))

    after_revert-Keeps :
        (index : ℕ) (info : UserOpInfo) (meter : Meter) (code : InnerRevertCode)
        → Holds
            (Keeps (kept + info.prefund))
            (after_revert o index info meter code)
            (Spent kept info.prefund)
    unfolding after_revert
    after_revert-Keeps index info meter out_of_gas s h cost s' eq = thrown eq
    after_revert-Keeps index info meter low_prefund_code s h cost s' eq =
        decided (ltb (meter.outer + info.pre_op_gas) (2 ^ 256)) eq
          (λ _ made. ended (Spent kept info.prefund) made (h, omega arith))
          (λ _ failed. thrown failed)
    after_revert-Keeps index info meter another_code s h cost s' eq =
        decided (ltb (meter.outer + info.pre_op_gas) (2 ^ 256)) eq
          (λ _ made. post_execution-Keeps post_op_reverted info _ _ s h cost s' made)
          (λ _ failed. thrown failed)

    finish_inner-Keeps :
        (index : ℕ) (info : UserOpInfo) (meter : Meter) (s : Chain W) (r : Outcome (ℕ × Chain W))
        → Keeps (kept + info.prefund) s
        → ((cost : ℕ) (s1 : Chain W) → r ≡ ok (cost, s1) → Spent kept info.prefund cost s1)
        → (cost : ℕ) (s' : Chain W) → finish_inner o index info meter s r ≡ ok (cost, s')
        → Spent kept info.prefund cost s'
    unfolding finish_inner
    finish_inner-Keeps index info meter s (ok (c, s1)) h inner cost s' eq =
        ended (Spent kept info.prefund) eq (inner c s1 refl)
    finish_inner-Keeps index info meter s (throws e) h inner cost s' eq =
        after_revert-Keeps index info meter (inner_revert_code e) s h cost s' eq

    pub execute_user_op-Keeps :
        (index : ℕ) (op : CalldataUserOp) (info : UserOpInfo) (meter : Meter)
        → Holds
            (Keeps (kept + info.prefund))
            (execute_user_op o index op info meter)
            (Spent kept info.prefund)
    unfolding execute_user_op
    execute_user_op-Keeps index op info meter s h cost s' eq =
        finish_inner-Keeps index info meter s _ h
          (inner_handle_op-Keeps (inner_call_data o op info) info meter s h) cost s' eq
