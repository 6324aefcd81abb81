-- ===== src/EntryPoint/Bundle/Reverts.antt =====
-- What can revert the execution of a validated operation (`_executeUserOp` of
-- contracts/core/EntryPoint.sol), and so a bundle.
use falcon_smart_account.Prelude.{
  ℕ, ◌+◌, ◌*◌, ◌%◌, ◌^◌, ◌≡◌, ◌≢◌, ◌⊎◌, refl, ap, sym, ◌∙◌, inl, inr, true, false, Bool-cases, List,
  length, ltb, ◌==◌,
}
use falcon_smart_account.Outcome.{
  Error, Outcome, ok, throws, failed_op, panic, inner_out_of_gas, inner_revert_low_prefund,
  post_op_reverted_error,
}
use falcon_smart_account.EntryPoint.Memory.{CalldataUserOp}
use falcon_smart_account.EntryPoint.Stake.{deposits_of}
use falcon_smart_account.EntryPoint.Bundle.Outside.{
  Chain, Outside, Meter, ◌>>=◌, expect, calling, PostOpMode, op_succeeded, op_reverted,
  post_op_reverted,
}
use falcon_smart_account.EntryPoint.Bundle.Validate.{UserOpInfo}
use falcon_smart_account.EntryPoint.Bundle.Execute.{
  increment_deposit, low_prefund, settle, call_post_op, post_op_of, post_execution, exec_sender,
  has_inner_gas, inner_handle_op, InnerRevertCode, out_of_gas, low_prefund_code, another_code,
  inner_revert_code, inner_call_data, after_revert, finish_inner, execute_user_op,
}
use falcon_smart_account.EntryPoint.Bundle.Rules.{decided}
use falcon_smart_account.EntryPoint.Bundle.Raises.{
  Raises, not_thrown, throws-injective, raised, >>=-Raises, return-Raises, expect-Raises,
  answered-Raises, if-Raises,
}

true-ne : true ≢ false
true-ne h = cc

module _ {W : Type 0} where
  increment_deposit-Raises :
      (E : Error → Type 0) (account amount : ℕ)
      → E panic
      → Raises {W = W} E (increment_deposit account amount)
  unfolding increment_deposit
  increment_deposit-Raises E account amount h s e eq =
      decided (ltb ((deposits_of s.contract.deposits account).deposit + amount) (2 ^ 256)) eq
        (λ _ made. not_thrown made) (λ _ failed. raised {A = Unit} E failed h)

  -- With a low prefund, the inner call reverts so, but not the settlement after it.
  low_prefund-Raises :
      (E : Error → Type 0) (mode : PostOpMode) (prefund : ℕ)
      → (mode ≢ post_op_reverted → E inner_revert_low_prefund)
      → Raises {W = W} E (low_prefund mode prefund)
  low_prefund-Raises E op_succeeded prefund h s e eq = raised {A = ℕ} E eq (h (λ same. cc))
  low_prefund-Raises E op_reverted prefund h s e eq = raised {A = ℕ} E eq (h (λ same. cc))
  low_prefund-Raises E post_op_reverted prefund h s e eq = not_thrown eq

  settle-Raises :
      (E : Error → Type 0) (mode : PostOpMode) (info : UserOpInfo) (gas gas_price : ℕ)
      → E panic
      → (mode ≢ post_op_reverted → E inner_revert_low_prefund)
      → Raises {W = W} E (settle mode info gas gas_price)
  unfolding settle
  settle-Raises E mode info gas gas_price h low =
      if-Raises E (ltb info.prefund (gas * gas_price % 2 ^ 256))
        (low_prefund-Raises E mode info.prefund low)
        (>>=-Raises E (increment_deposit-Raises E _ _ h) (λ _. return-Raises E _))

  module _ (o : Outside W) where
    post_op_of-Raises :
        (E : Error → Type 0) (mode : PostOpMode) (info : UserOpInfo) (cost gas_price : ℕ)
        → (mode ≢ post_op_reverted → E post_op_reverted_error)
        → Raises E (post_op_of o mode info cost gas_price)
    unfolding post_op_of call_post_op calling
    post_op_of-Raises E op_succeeded info cost gas_price h s e eq =
        answered-Raises E o.timestamp post_op_reverted_error _ s (h (λ same. cc)) e eq
    post_op_of-Raises E op_reverted info cost gas_price h s e eq =
        answered-Raises E o.timestamp post_op_reverted_error _ s (h (λ same. cc)) e eq
    post_op_of-Raises E post_op_reverted info cost gas_price h s e eq = return-Raises E tt s e eq

    post_execution-Raises :
        (E : Error → Type 0) (mode : PostOpMode) (info : UserOpInfo) (gas own_gas : ℕ)
        → E panic
        → (mode ≢ post_op_reverted → E inner_revert_low_prefund × E post_op_reverted_error)
        → Raises E (post_execution o mode info gas own_gas)
    unfolding post_execution
    post_execution-Raises E mode info gas own_gas h more =
        >>=-Raises E
          (if-Raises E (info.m_user_op.paymaster == 0) (return-Raises E tt) (
            if-Raises E (length info.context == 0) (return-Raises E tt)
              (post_op_of-Raises E mode info _ _ (λ other. (more other).1))))
          (λ _. settle-Raises E mode info _ _ h (λ other. (more other).0))

    exec_sender-Raises :
        (E : Error → Type 0) (call_data : List ℕ) (info : UserOpInfo)
        → Raises E (exec_sender o call_data info)
    unfolding exec_sender
    exec_sender-Raises E call_data info s e eq =
        decided (length call_data == 0) eq (λ _ made. not_thrown made) (λ _ made. not_thrown made)

    -- The inner call says that it is out of gas only if it has too little from the start.
    InnerError : UserOpInfo → Meter → Error → Type 0
    InnerError info meter e = inner_revert_code e ≡ out_of_gas → has_inner_gas info meter ≡ false

    inner_handle_op-Raises :
        (call_data : List ℕ) (info : UserOpInfo) (meter : Meter)
        → Raises (InnerError info meter) (inner_handle_op o call_data info meter)
    unfolding inner_handle_op InnerError
    inner_handle_op-Raises call_data info meter =
        let E = InnerError info meter in
        >>=-Raises E (expect-Raises E _ _ (λ few _. few)) (λ _.
          >>=-Raises E (exec_sender-Raises E call_data info) (λ mode.
            >>=-Raises E (expect-Raises E _ _ (λ _ impossible. cc)) (λ _.
              post_execution-Raises E mode info _ _ (λ impossible. cc)
                (λ _. (λ impossible. cc, λ impossible. cc)))))

    after_revert-lem :
        (index : ℕ) (info : UserOpInfo) (meter : Meter) (code : InnerRevertCode) (s : Chain W)
        (e : Error)
        → after_revert o index info meter code s ≡ throws e
        → ((code ≡ out_of_gas) × (e ≡ failed_op index 95)) ⊎ (e ≡ panic)
    unfolding after_revert
    after_revert-lem index info meter out_of_gas s e eq =
        inl (refl, sym (throws-injective {A = ℕ} eq))
    after_revert-lem index info meter low_prefund_code s e eq =
        decided (ltb (meter.outer + info.pre_op_gas) (2 ^ 256)) eq (λ _ made. not_thrown made)
          (λ _ failed. inr (sym (throws-injective {A = ℕ} failed)))
    after_revert-lem index info meter another_code s e eq =
        decided (ltb (meter.outer + info.pre_op_gas) (2 ^ 256)) eq
          (λ _ failed. inr (
            post_execution-Raises (λ e1. e1 ≡ panic) post_op_reverted info _ _ refl
              (λ other. absurd (other refl)) s e failed))
          (λ _ failed. inr (sym (throws-injective {A = ℕ} failed)))

    finish_inner-lem :
        (index : ℕ) (info : UserOpInfo) (meter : Meter) (s : Chain W) (r : Outcome (ℕ × Chain W))
        (e : Error)
        → ((e1 : Error) → r ≡ throws e1 → InnerError info meter e1)
        → finish_inner o index info meter s r ≡ throws e
        → ((e ≡ failed_op index 95) × (has_inner_gas info meter ≡ false)) ⊎ (e ≡ panic)
    unfolding finish_inner InnerError
    finish_inner-lem index info meter s (ok (c, s1)) e inner eq = not_thrown eq
    finish_inner-lem index info meter s (throws e1) e inner eq =
        elim (after_revert-lem index info meter (inner_revert_code e1) s e eq) [
          | inl (code, aa95) ↦ inl (aa95, inner e1 refl code)
          | inr overflow ↦ inr overflow
        ]

    too_little_gas :
        (call_data : List ℕ) (info : UserOpInfo) (meter : Meter) (s : Chain W)
        → has_inner_gas info meter ≡ false
        → inner_handle_op o call_data info meter s ≡ throws inner_out_of_gas
    unfolding inner_handle_op ◌>>=◌ expect
    too_little_gas call_data info meter s few = rw (few) refl

    enough_gas :
        (index : ℕ) (op : CalldataUserOp) (info : UserOpInfo) (meter : Meter) (s : Chain W)
        → has_inner_gas info meter ≡ true
        → (r : Outcome (ℕ × Chain W)) → execute_user_op o index op info meter s ≡ r
        → ((cost : ℕ) × (s' : Chain W) × (r ≡ ok (cost, s'))) ⊎ (r ≡ throws panic)
    unfolding execute_user_op
    enough_gas index op info meter s enough (ok (cost, s')) eq = inl (cost, s', refl)
    enough_gas index op info meter s enough (throws e) eq =
        elim (finish_inner-lem index info meter s _ e
          (λ e1 eq1. inner_handle_op-Raises (inner_call_data o op info) info meter s e1 eq1) eq) [
            | inl (_, few) ↦ absurd (true-ne (sym enough ∙ few))
            | inr overflow ↦ inr (ap throws overflow)
          ]

    -- The execution of an operation reverts the bundle with AA95 when too little gas is left for its
    -- inner call; otherwise it returns a cost, or a checked addition (of the refund to a deposit, or
    -- of the gas) overflows. What the sender and the paymaster do cannot revert it.
    pub execute_user_op-Ends :
        (index : ℕ) (op : CalldataUserOp) (info : UserOpInfo) (meter : Meter) (s : Chain W)
        → let r = execute_user_op o index op info meter s in
          ((has_inner_gas info meter ≡ false) × (r ≡ throws (failed_op index 95)))
          ⊎ ((has_inner_gas info meter ≡ true)
              × (((cost : ℕ) × (s' : Chain W) × (r ≡ ok (cost, s'))) ⊎ (r ≡ throws panic)))
    unfolding execute_user_op finish_inner after_revert
    execute_user_op-Ends index op info meter s = elim (Bool-cases (has_inner_gas info meter)) [
      | inl enough ↦ inr (enough, enough_gas index op info meter s enough _ refl)
      | inr few ↦ inl (
        few,
        rw (too_little_gas (inner_call_data o op info) info meter s few, finish_inner, after_revert)
            refl,
      )
    ]
