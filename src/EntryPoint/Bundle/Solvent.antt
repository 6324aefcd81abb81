-- ===== src/EntryPoint/Bundle/Solvent.antt =====
-- `handleOps` and `handleAggregatedOps` of contracts/core/EntryPoint.sol pay the beneficiary from
-- the prefunds alone: the contract owes after them exactly the ether that it has.
use falcon_smart_account.Prelude.{
  ℕ, suc, ◌+◌, ◌-◌, ◌*◌, ◌^◌, ◌≤◌, ◌<◌, ◌≡◌, refl, List, [], ◌∷◌, length, arith, ltb, leb,
}
use falcon_smart_account.Outcome.{ok}
use falcon_smart_account.EntryPoint.Memory.{CalldataUserOp}
use falcon_smart_account.EntryPoint.Stake.Owed.{IsCovered}
use falcon_smart_account.EntryPoint.Bundle.Outside.{Chain, Outside, Meter, Code, ◌>>=◌}
use falcon_smart_account.EntryPoint.Bundle.Handle.{
  Ops, Prepared, unchecked_sum, checked_sum, send_ether, validate_one, validate_ops, execute_ops,
  compensate, handle_ops,
}
use falcon_smart_account.EntryPoint.Bundle.Rules.{
  Holds, ended, thrown, >>=-Holds, return-Holds, calling-Holds, decided, expect-Preserves, Keeps,
  Keeps-IsStable, Keeps-eq, Keeps-zero, zero-Keeps,
}
use falcon_smart_account.EntryPoint.Bundle.Created.{check_validation_data-Preserves}
use falcon_smart_account.EntryPoint.Bundle.Keeps.{Funded, validate_prepayment-Keeps}
use falcon_smart_account.EntryPoint.Bundle.Spends.{Spent, execute_user_op-Keeps}

-- What is kept for validated operations.
unfoldable pub prefunds : List Prepared → ℕ
prefunds [] = 0
prefunds (p ∷ ps) = p.info.prefund + prefunds ps

module _ {W : Type 0} where
  -- What validated operations leave: their prefunds are kept, each of them small.
  abbrev pub Validated : ℕ → ℕ → List Prepared → Chain W → Type 0
  Validated kept count ps s = Keeps (kept + prefunds ps) s × (prefunds ps ≤ count * 2 ^ 243)

  module _ (o : Outside W) where
    validate_one-Keeps :
        (kept expected op_index i : ℕ) (op : CalldataUserOp) (meter : Meter)
        → Holds
            (Keeps kept)
            (validate_one o expected op_index i op meter)
            (λ p s. Keeps (kept + p.info.prefund) s × (p.info.prefund < 2 ^ 243))
    unfolding validate_one
    validate_one-Keeps kept expected op_index i op meter =
        >>=-Holds (Funded o kept) (validate_prepayment-Keeps o kept op_index op meter) (λ v.
          >>=-Holds (λ _. Funded o kept v)
            (λ s h a s' eq. (
              check_validation_data-Preserves o (Keeps (kept + v.2.prefund))
                  (Keeps-IsStable (kept + v.2.prefund)) _ _ _ _ s h.0 a s' eq,
              h.1,
            ))
            (λ _.
              return-Holds (λ p s. Keeps (kept + p.info.prefund) s × (p.info.prefund < 2 ^ 243)) _
                (λ s h. h)))

    pub validate_ops-Keeps :
        (kept expected op_index i : ℕ) (ops : Ops)
        → Holds (Keeps kept) (validate_ops o expected op_index i ops) (Validated kept (length ops))
    unfolding validate_ops prefunds
    validate_ops-Keeps kept expected op_index i [] =
        return-Holds (Validated kept 0) []
          (λ s h. (Keeps-eq kept (kept + 0) s (omega arith) h, omega arith))
    validate_ops-Keeps kept expected op_index i ((op, meter) ∷ ops) =
        >>=-Holds _ (validate_one-Keeps kept expected op_index i op meter) (λ p s h.
          (>>=-Holds (Validated (kept + p.info.prefund) (length ops))
              (validate_ops-Keeps (kept + p.info.prefund) expected (op_index + 1) (i + 1) ops)
              (λ ps. return-Holds (Validated kept (suc (length ops))) (p ∷ ps) (λ s1 h1. (
                Keeps-eq (kept + p.info.prefund + prefunds ps)
                    (kept + (p.info.prefund + prefunds ps)) s1 (omega arith) h1.0,
                omega (arith, h.1, h1.1),
              ))))
            s h.0)

  -- `collected +=` adds, where the sum fits.
  abbrev Adds : (ℕ → ℕ → Code W ℕ) → Type 1
  Adds sum =
      (a b : ℕ) (P : Chain W → Type 0)
      → a + b < 2 ^ 256
      → Holds P (sum a b) (λ c s. P s × (c ≡ a + b))

  unchecked_sum-Adds : Adds unchecked_sum
  unchecked_sum-Adds a b P small =
      return-Holds (λ c s. P s × (c ≡ a + b)) _ (λ s p. (p, omega (arith, small)))

  pub checked_sum-Adds : Adds checked_sum
  checked_sum-Adds a b P small s p c s' eq =
      decided (ltb (a + b) (2 ^ 256)) eq
        (λ _ made. ended (λ c1 s1. P s1 × (c1 ≡ a + b)) made (p, refl)) (λ _ failed. thrown failed)

  module _ (o : Outside W) where
    execute_ops-Keeps :
        (sum : ℕ → ℕ → Code W ℕ) (index collected : ℕ) (ps : List Prepared)
        → Adds sum
        → collected + prefunds ps < 2 ^ 256
        → Holds (Keeps (collected + prefunds ps)) (execute_ops o sum index collected ps) Keeps
    unfolding execute_ops prefunds
    execute_ops-Keeps sum index collected [] adds small =
        return-Holds Keeps collected (λ s h. Keeps-eq (collected + 0) collected s (omega arith) h)
    execute_ops-Keeps sum index collected (p ∷ ps) adds small =
        let rest = prefunds ps in
        >>=-Holds (Spent (collected + rest) p.info.prefund)
          (λ s h. execute_user_op-Keeps o (collected + rest) index p.op p.info p.meter s (
            Keeps-eq (collected + (p.info.prefund + rest)) (collected + rest + p.info.prefund) s
              (omega arith) h))
          (λ cost s spent.
            (>>=-Holds (λ total s1. Keeps (collected + rest + cost) s1 × (total ≡ collected + cost))
                (adds collected cost (Keeps (collected + rest + cost))
                  (omega (arith, small, spent.1)))
                (λ total s1 h.
                  execute_ops-Keeps sum (index + 1) total ps adds
                    (omega (arith, small, spent.1, h.1)) s1
                    (Keeps-eq (collected + rest + cost) (total + rest) s1 (omega (arith, h.1))
                      h.0)))
              s spent.0)

    send_ether-Keeps :
        (amount : ℕ) → Holds (Keeps {W = W} amount) (send_ether amount) (λ _. Keeps 0)
    unfolding send_ether
    send_ether-Keeps amount s h a s' eq =
        decided (leb amount s.contract.ether) eq
          (λ enough made.
            ended (λ _. Keeps 0) made
              (record { phase = h.phase; covered = omega (arith, h.covered) }))
          (λ _ failed. thrown failed)

    compensate-Keeps :
        (beneficiary amount : ℕ)
        → Holds (Keeps amount) (compensate o beneficiary amount) (λ _. Keeps 0)
    unfolding compensate
    compensate-Keeps beneficiary amount =
        >>=-Holds (λ _. Keeps amount) (expect-Preserves (Keeps amount) _ _)
          (λ _.
            >>=-Holds (λ _. Keeps 0) (send_ether-Keeps amount)
              (λ _. calling-Holds (Keeps 0) o _ _ (Keeps-IsStable 0)))

    -- From validated operations to the beneficiary.
    pub settled-Keeps :
        (sum : ℕ → ℕ → Code W ℕ) (count : ℕ) (ps : List Prepared) (beneficiary : ℕ)
        → Adds sum
        → count ≤ 2 ^ 13 - 1
        → Holds
            (Validated 0 count ps)
            (execute_ops o sum 0 0 ps >>= λ collected. compensate o beneficiary collected)
            (λ _. Keeps 0)
    settled-Keeps sum count ps beneficiary adds few s h =
        (>>=-Holds Keeps (execute_ops-Keeps sum 0 0 ps adds (omega (arith, few, h.1)))
            (λ collected. compensate-Keeps beneficiary collected))
          s h.0

    -- When a bundle of at most 8191 operations is handled without a revert, whatever the accounts,
    -- paymasters, factories and the beneficiary do and call meanwhile, and whatever gas is used, a
    -- contract that has each account's stake in one of the phases none, locked and unlocking, and
    -- whose ether is exactly what it owes as deposits and stakes and what was ever forced on it
    -- without a call, is so afterwards too, ether forced on it meanwhile included.
    pub handle_ops-IsSolvent :
        (ops : Ops) (beneficiary : ℕ) (s s' : Chain W)
        → length ops ≤ 8191
        → handle_ops o ops beneficiary s ≡ ok (tt, s')
        → IsCovered s.forced s.contract
        → IsCovered s'.forced s'.contract
    unfolding handle_ops
    handle_ops-IsSolvent ops beneficiary s s' few eq h = zero-Keeps s' (
        (>>=-Holds (Validated 0 (length ops)) (validate_ops-Keeps o 0 0 0 0 ops) (λ ps.
            settled-Keeps unchecked_sum (length ops) ps beneficiary unchecked_sum-Adds
              (omega (arith, few))))
          s (Keeps-zero s h) tt s' eq)
