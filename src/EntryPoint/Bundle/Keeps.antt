-- ===== src/EntryPoint/Bundle/Keeps.antt =====
-- The ether that the entry point keeps besides what it owes, through the validation and the
-- execution of one operation (contracts/core/EntryPoint.sol): the prefund is kept from its payer,
-- and what it did not cost is owed again.
use falcon_smart_account.Prelude.{
  ℕ, ◌+◌, ◌-◌, ◌^◌, ◌<◌, ◌≡◌, true, [], arith, leb, ltb, ◌==◌, if◌then◌else◌,
}
use falcon_smart_account.Outcome.{Error}
use falcon_smart_account.EntryPoint.Memory.{CalldataUserOp, MemoryUserOp, get_required_prefund}
use falcon_smart_account.EntryPoint.Stake.{deposits_of, write}
use falcon_smart_account.EntryPoint.Stake.Owed.{
  total_owed-write, write-InPhase, IsCovered, deposit-InPhase,
}
use falcon_smart_account.EntryPoint.Bundle.Outside.{Chain, Outside, Meter}
use falcon_smart_account.EntryPoint.Bundle.Validate.{
  UserOpInfo, max_gas_values, take_prefund, take_nonce, validate_account_prepayment,
  validate_paymaster_prepayment, validate_copied, validate_prepayment,
}
use falcon_smart_account.EntryPoint.Bundle.Bounds.{max_gas_values-IsSafe}
use falcon_smart_account.EntryPoint.Bundle.Created.{create_sender_if_needed-Preserves}
use falcon_smart_account.EntryPoint.Bundle.Rules.{
  Holds, ended, thrown, >>=-Holds, return-Holds, expect-Holds, lift-Holds, if-Holds, asking-Holds,
  Keeps, Keeps-IsStable, decided, Preserves, >>=-Preserves, return-Preserves, expect-Preserves,
}

-- A deposit is written anew, and as much more or less is kept.
pub written-Keeps :
    {W : Type 0} (kept kept' account d : ℕ) (s : Chain W)
    → Keeps kept s
    → kept + (deposits_of s.contract.deposits account).deposit ≡ kept' + d
    → IsCovered (kept' + s.forced) (record {
      deposits =
          write account
            (record (deposits_of s.contract.deposits account) { deposit = d })
            s.contract.deposits;
      ether = s.contract.ether;
    })
written-Keeps kept kept' account d s h eq =
    let info = deposits_of s.contract.deposits account in
    record {
      phase =
          write-InPhase account (record info { deposit = d }) s.contract.deposits h.phase
            (deposit-InPhase info d (h.phase account));
      covered = omega (
        arith,
        total_owed-write account (record info { deposit = d }) s.contract.deposits,
        h.covered,
        eq,
      );
    }

module _ {W : Type 0} where
  take_prefund-Keeps :
      (kept account prefund : ℕ) (e : Error)
      → Holds
          (Keeps {W = W} kept)
          (take_prefund account prefund e)
          (λ _ s. Keeps (kept + prefund) s)
  unfolding take_prefund
  take_prefund-Keeps kept account prefund e s h a s' eq =
      let deposit = (deposits_of s.contract.deposits account).deposit in
      decided (ltb deposit prefund) eq (λ _ failed. thrown failed)
        (λ enough made.
          ended (λ _ s1. Keeps (kept + prefund) s1) made
            (written-Keeps kept (kept + prefund) account (deposit - prefund) s h (ground arith)))

  take_nonce-Keeps :
      (kept sender nonce : ℕ) → Preserves (Keeps {W = W} kept) (take_nonce sender nonce)
  unfolding take_nonce
  take_nonce-Keeps kept sender nonce s h _ s' eq = ended (λ _ s1. Keeps kept s1) eq h

  module _ (o : Outside W) where
    validate_account-Keeps :
        (kept index : ℕ) (op : CalldataUserOp) (m : MemoryUserOp) (hash prefund : ℕ)
        → Holds
            (Keeps kept)
            (validate_account_prepayment o index op m hash prefund)
            (λ _ s. Keeps (if m.paymaster == 0 then kept + prefund else kept) s)
    unfolding validate_account_prepayment
    validate_account-Keeps kept index op m hash prefund =
        let paid = λ (s : Chain W). Keeps (if m.paymaster == 0 then kept + prefund else kept) s in
        >>=-Holds (λ _ s. Keeps kept s)
          (create_sender_if_needed-Preserves o (Keeps kept) (Keeps-IsStable kept) index m
            op.init_code)
          (λ _.
            >>=-Holds (λ _ s. Keeps kept s) (asking-Holds (Keeps kept) o _ _ (Keeps-IsStable kept))
              (λ answer.
                >>=-Holds (λ _. paid)
                  (if-Holds (m.paymaster == 0)
                    (λ none. rw (none) (take_prefund-Keeps kept m.sender prefund _))
                    (λ one. rw (one) (return-Preserves (Keeps kept) tt)))
                  (λ _. return-Preserves paid answer)))

    validate_paymaster-Keeps :
        (kept index : ℕ) (op : CalldataUserOp) (m : MemoryUserOp) (hash prefund : ℕ) (meter : Meter)
        → Holds
            (Keeps kept)
            (validate_paymaster_prepayment o index op m hash prefund meter)
            (λ _ s. Keeps (kept + prefund) s)
    unfolding validate_paymaster_prepayment
    validate_paymaster-Keeps kept index op m hash prefund meter =
        let paid = Keeps {W = W} (kept + prefund) in
        >>=-Holds (λ _. paid) (take_prefund-Keeps kept m.paymaster prefund _)
          (λ _.
            >>=-Preserves paid (asking-Holds paid o _ _ (Keeps-IsStable (kept + prefund)))
              (λ answer.
                >>=-Preserves paid (expect-Preserves paid _ _) (λ _. return-Preserves paid answer)))

    -- The prefund of a validated operation is kept, and it is small.
    abbrev pub Funded : ℕ → ℕ × ℕ × UserOpInfo → Chain W → Type 0
    Funded kept v s = Keeps (kept + v.2.prefund) s × (v.2.prefund < 2 ^ 243)

    validate_copied-Keeps :
        (kept index : ℕ) (op : CalldataUserOp) (meter : Meter) (m : MemoryUserOp)
        → Holds (Keeps kept) (validate_copied o index op meter m) (Funded kept)
    unfolding validate_copied
    validate_copied-Keeps kept index op meter m =
        let prefund = get_required_prefund m in
        let paid = λ (s : Chain W). Keeps (if m.paymaster == 0 then kept + prefund else kept) s in
        let full = λ (s : Chain W). Keeps (kept + prefund) s in
        >>=-Holds (λ _ s. (leb (max_gas_values m) (2 ^ 120 - 1) ≡ true) × Keeps kept s)
          (expect-Holds (Keeps kept) _ _)
          (λ _ s safe.
            (>>=-Holds (λ _. paid) (validate_account-Keeps kept index op m _ prefund)
                (λ data1.
                  >>=-Holds (λ _. paid) (take_nonce-Keeps _ m.sender m.nonce)
                    (λ accepted.
                      >>=-Holds (λ _. paid) (expect-Preserves paid _ _)
                        (λ _.
                          >>=-Holds (λ _. paid) (expect-Preserves paid _ _)
                            (λ _.
                              >>=-Holds (λ _. full)
                                (if-Holds (m.paymaster == 0)
                                  (λ none. rw (none) (return-Preserves full ([], 0)))
                                  (λ one.
                                    rw (one)
                                      (validate_paymaster-Keeps kept index op m _ prefund meter)))
                                (λ answer.
                                  return-Holds (Funded kept) _
                                    (λ s1 h. (h, ground (arith, max_gas_values-IsSafe m)))))))))
              s safe.1)

    pub validate_prepayment-Keeps :
        (kept index : ℕ) (op : CalldataUserOp) (meter : Meter)
        → Holds (Keeps kept) (validate_prepayment o index op meter) (Funded kept)
    unfolding validate_prepayment
    validate_prepayment-Keeps kept index op meter =
        >>=-Holds (λ _. Keeps kept) (λ s h m s' eq. (lift-Holds (Keeps kept) _ s h m s' eq).1)
          (validate_copied-Keeps kept index op meter)
