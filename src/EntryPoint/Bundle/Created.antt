-- ===== src/EntryPoint/Bundle/Created.antt =====
-- The deployment of a sender (`_createSenderIfNeeded` of contracts/core/EntryPoint.sol) keeps what
-- code of others keeps.
use falcon_smart_account.Prelude.{ℕ, List, length, ◌==◌}
use falcon_smart_account.EntryPoint.Memory.{MemoryUserOp}
use falcon_smart_account.EntryPoint.Bundle.Outside.{Chain, Outside}
use falcon_smart_account.EntryPoint.Bundle.Validate.{
  code_length, create_sender_if_needed, check_validation_data,
}
use falcon_smart_account.EntryPoint.Bundle.Rules.{
  ended, if-Holds, asking-Holds, IsStable, Preserves, >>=-Preserves, return-Preserves,
  expect-Preserves,
}

module _ {W : Type 0} (o : Outside W) (P : Chain W → Type 0) (stable : IsStable P) where
  code_length-Preserves : (account : ℕ) → Preserves P (code_length o account)
  unfolding code_length
  code_length-Preserves account s p a s' eq = ended (λ _ s1. P s1) eq p

  pub create_sender_if_needed-Preserves :
      (index : ℕ) (m : MemoryUserOp) (init_code : List ℕ)
      → Preserves P (create_sender_if_needed o index m init_code)
  unfolding create_sender_if_needed
  create_sender_if_needed-Preserves index m init_code =
      if-Holds (length init_code == 0) (λ _. return-Preserves P tt)
        (λ _. >>=-Preserves P (code_length-Preserves m.sender) (λ before.
          >>=-Preserves P (expect-Preserves P _ _) (λ _.
            >>=-Preserves P (asking-Holds P o _ _ stable) (λ sender1.
              >>=-Preserves P (expect-Preserves P _ _) (λ _.
                >>=-Preserves P (expect-Preserves P _ _) (λ _.
                  >>=-Preserves P (code_length-Preserves sender1) (λ after.
                    >>=-Preserves P (expect-Preserves P _ _) (λ _. expect-Preserves P _ _))))))))

  -- So do the checks of the validation data, which change nothing.
  pub check_validation_data-Preserves :
      (index validation_data paymaster_data expected : ℕ)
      → Preserves P (check_validation_data o index validation_data paymaster_data expected)
  unfolding check_validation_data
  check_validation_data-Preserves index validation_data paymaster_data expected =
      >>=-Preserves P (expect-Preserves P _ _) (λ _.
        >>=-Preserves P (expect-Preserves P _ _)
          (λ _. >>=-Preserves P (expect-Preserves P _ _) (λ _. expect-Preserves P _ _)))
