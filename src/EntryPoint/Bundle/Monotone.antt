-- ===== src/EntryPoint/Bundle/Monotone.antt =====
-- No code of contracts/core/EntryPoint.sol lowers a sequence number: what holds of the sequence
-- numbers, and of all higher ones, is kept.
use falcon_smart_account.Prelude.{
  ℕ, ◌+◌, ◌*◌, ◌%◌, ◌^◌, ◌≤◌, ◌≡◌, refl, List, [], ◌∷◌, length, arith, ltb, leb, ◌==◌,
}
use falcon_smart_account.Outcome.{Error, Outcome, ok, throws}
use falcon_smart_account.EntryPoint.Memory.{CalldataUserOp, MemoryUserOp}
use falcon_smart_account.EntryPoint.Stake.{Contract, deposits_of}
use falcon_smart_account.EntryPoint.Bundle.Outside.{
  Chain, Outside, Meter, Code, PostOpMode, op_succeeded, op_reverted, post_op_reverted,
}
use falcon_smart_account.EntryPoint.Bundle.Validate.{
  UserOpInfo, take_prefund, validate_account_prepayment, validate_paymaster_prepayment,
}
use falcon_smart_account.EntryPoint.Bundle.Execute.{
  increment_deposit, low_prefund, settle, post_execution, inner_handle_op, InnerRevertCode,
  out_of_gas, low_prefund_code, another_code, inner_revert_code, inner_call_data, after_revert,
  finish_inner, execute_user_op,
}
use falcon_smart_account.EntryPoint.Bundle.Handle.{Prepared, send_ether, execute_ops, compensate}
use falcon_smart_account.EntryPoint.Bundle.Rules.{
  ended, thrown, if-Holds, calling-Holds, asking-Holds, decided, Preserves, >>=-Preserves,
  return-Preserves, expect-Preserves, IsStable, perform-le,
}
use falcon_smart_account.EntryPoint.Bundle.Created.{create_sender_if_needed-Preserves}
use falcon_smart_account.EntryPoint.Bundle.Spends.{post_op_of-Preserves, exec_sender-Preserves}

-- What holds of some sequence numbers holds of higher ones.
abbrev pub IsMonotone : {W : Type 0} → (Chain W → Type 0) → Type 0
IsMonotone {W} P =
    (s s' : Chain W)
    → ((account key : ℕ) → s.sequences account key ≤ s'.sequences account key)
    → P s
    → P s'

pub monotone-IsStable : {W : Type 0} (P : Chain W → Type 0) → IsMonotone P → IsStable P
monotone-IsStable P mono now rs w s p =
    mono s _ (λ account key. perform-le now rs s.contract s.sequences account key) p

module _ {W : Type 0} (o : Outside W) (P : Chain W → Type 0) (mono : IsMonotone P) where
  same_sequences : (s : Chain W) (c : Contract) → P s → P (record s { contract = c })
  same_sequences s c p = mono s _ (λ account key. omega arith) p

  take_prefund-Preserves :
      (account prefund : ℕ) (e : Error) → Preserves P (take_prefund account prefund e)
  unfolding take_prefund
  take_prefund-Preserves account prefund e s p a s' eq =
      decided (ltb (deposits_of s.contract.deposits account).deposit prefund) eq
        (λ _ failed. thrown failed) (λ _ made. ended (λ _ s1. P s1) made (same_sequences s _ p))

  increment_deposit-Preserves :
      (account amount : ℕ) → Preserves P (increment_deposit account amount)
  unfolding increment_deposit
  increment_deposit-Preserves account amount s p a s' eq =
      decided (ltb ((deposits_of s.contract.deposits account).deposit + amount) (2 ^ 256)) eq
        (λ _ made. ended (λ _ s1. P s1) made (same_sequences s _ p)) (λ _ failed. thrown failed)

  send_ether-Preserves : (amount : ℕ) → Preserves P (send_ether amount)
  unfolding send_ether
  send_ether-Preserves amount s p a s' eq =
      decided (leb amount s.contract.ether) eq
        (λ _ made. ended (λ _ s1. P s1) made (same_sequences s _ p)) (λ _ failed. thrown failed)

  pub validate_account-Preserves :
      (index : ℕ) (op : CalldataUserOp) (m : MemoryUserOp) (hash prefund : ℕ)
      → Preserves P (validate_account_prepayment o index op m hash prefund)
  unfolding validate_account_prepayment
  validate_account-Preserves index op m hash prefund =
      >>=-Preserves P
        (create_sender_if_needed-Preserves o P (monotone-IsStable P mono) index m op.init_code)
        (λ _. >>=-Preserves P (asking-Holds P o _ _ (monotone-IsStable P mono)) (λ answer.
          >>=-Preserves P
            (if-Holds (m.paymaster == 0) (λ _. take_prefund-Preserves m.sender prefund _)
              (λ _. return-Preserves P tt))
            (λ _. return-Preserves P answer)))

  pub validate_paymaster-Preserves :
      (index : ℕ) (op : CalldataUserOp) (m : MemoryUserOp) (hash prefund : ℕ) (meter : Meter)
      → Preserves P (validate_paymaster_prepayment o index op m hash prefund meter)
  unfolding validate_paymaster_prepayment
  validate_paymaster-Preserves index op m hash prefund meter =
      >>=-Preserves P (take_prefund-Preserves m.paymaster prefund _) (λ _.
        >>=-Preserves P (asking-Holds P o _ _ (monotone-IsStable P mono))
          (λ answer. >>=-Preserves P (expect-Preserves P _ _) (λ _. return-Preserves P answer)))

  low_prefund-Preserves : (mode : PostOpMode) (prefund : ℕ) → Preserves P (low_prefund mode prefund)
  low_prefund-Preserves op_succeeded prefund s p cost s' eq = thrown eq
  low_prefund-Preserves op_reverted prefund s p cost s' eq = thrown eq
  low_prefund-Preserves post_op_reverted prefund s p cost s' eq = ended (λ _ s1. P s1) eq p

  settle-Preserves :
      (mode : PostOpMode) (info : UserOpInfo) (gas gas_price : ℕ)
      → Preserves P (settle mode info gas gas_price)
  unfolding settle
  settle-Preserves mode info gas gas_price =
      if-Holds (ltb info.prefund (gas * gas_price % 2 ^ 256))
        (λ _. low_prefund-Preserves mode info.prefund)
        (λ _. >>=-Preserves P (increment_deposit-Preserves _ _) (λ _. return-Preserves P _))

  post_execution-Preserves :
      (mode : PostOpMode) (info : UserOpInfo) (gas own_gas : ℕ)
      → Preserves P (post_execution o mode info gas own_gas)
  unfolding post_execution
  post_execution-Preserves mode info gas own_gas =
      >>=-Preserves P
        (if-Holds (info.m_user_op.paymaster == 0) (λ _. return-Preserves P tt)
          (λ _.
            if-Holds (length info.context == 0) (λ _. return-Preserves P tt)
              (λ _. post_op_of-Preserves o P (monotone-IsStable P mono) mode info _ _)))
        (λ _. settle-Preserves mode info _ _)

  inner_handle_op-Preserves :
      (call_data : List ℕ) (info : UserOpInfo) (meter : Meter)
      → Preserves P (inner_handle_op o call_data info meter)
  unfolding inner_handle_op
  inner_handle_op-Preserves call_data info meter = >>=-Preserves P (expect-Preserves P _ _) (λ _.
      >>=-Preserves P (exec_sender-Preserves o P (monotone-IsStable P mono) call_data info) (λ mode.
        >>=-Preserves P (expect-Preserves P _ _) (λ _. post_execution-Preserves mode info _ _)))

  after_revert-Preserves :
      (index : ℕ) (info : UserOpInfo) (meter : Meter) (code : InnerRevertCode)
      → Preserves P (after_revert o index info meter code)
  unfolding after_revert
  after_revert-Preserves index info meter out_of_gas s p cost s' eq = thrown eq
  after_revert-Preserves index info meter low_prefund_code s p cost s' eq =
      decided (ltb (meter.outer + info.pre_op_gas) (2 ^ 256)) eq
        (λ _ made. ended (λ _ s1. P s1) made p) (λ _ failed. thrown failed)
  after_revert-Preserves index info meter another_code s p cost s' eq =
      decided (ltb (meter.outer + info.pre_op_gas) (2 ^ 256)) eq
        (λ _ made. post_execution-Preserves post_op_reverted info _ _ s p cost s' made)
        (λ _ failed. thrown failed)

  finish_inner-Preserves :
      (index : ℕ) (info : UserOpInfo) (meter : Meter) (s : Chain W) (r : Outcome (ℕ × Chain W))
      → P s
      → ((cost : ℕ) (s1 : Chain W) → r ≡ ok (cost, s1) → P s1)
      → (cost : ℕ) (s' : Chain W) → finish_inner o index info meter s r ≡ ok (cost, s')
      → P s'
  unfolding finish_inner
  finish_inner-Preserves index info meter s (ok (c, s1)) p inner cost s' eq =
      ended (λ _ s2. P s2) eq (inner c s1 refl)
  finish_inner-Preserves index info meter s (throws e) p inner cost s' eq =
      after_revert-Preserves index info meter (inner_revert_code e) s p cost s' eq

  execute_user_op-Preserves :
      (index : ℕ) (op : CalldataUserOp) (info : UserOpInfo) (meter : Meter)
      → Preserves P (execute_user_op o index op info meter)
  unfolding execute_user_op
  execute_user_op-Preserves index op info meter s p cost s' eq =
      finish_inner-Preserves index info meter s _ p
        (inner_handle_op-Preserves (inner_call_data o op info) info meter s p) cost s' eq

  pub execute_ops-Preserves :
      (sum : ℕ → ℕ → Code W ℕ)
      → ((a b : ℕ) → Preserves P (sum a b))
      → (index collected : ℕ) (ps : List Prepared)
      → Preserves P (execute_ops o sum index collected ps)
  unfolding execute_ops
  execute_ops-Preserves sum adds index collected [] = return-Preserves P collected
  execute_ops-Preserves sum adds index collected (p ∷ ps) =
      >>=-Preserves P (execute_user_op-Preserves index p.op p.info p.meter) (λ cost.
        >>=-Preserves P (adds collected cost)
          (λ total. execute_ops-Preserves sum adds (index + 1) total ps))

  pub compensate-Preserves :
      (beneficiary amount : ℕ) → Preserves P (compensate o beneficiary amount)
  unfolding compensate
  compensate-Preserves beneficiary amount = >>=-Preserves P (expect-Preserves P _ _) (λ _.
      >>=-Preserves P (send_ether-Preserves amount)
        (λ _. calling-Holds P o _ _ (monotone-IsStable P mono)))
