-- ===== src/EntryPoint/Bundle/Groups.antt =====
-- `handleAggregatedOps` of contracts/core/EntryPoint.sol pays the beneficiary from the prefunds
-- alone, as `handleOps` does.
use falcon_smart_account.Prelude.{
  ℕ, ◌+◌, ◌≤◌, ◌≡◌, Option, none, some, Bool, true, false, List, [], ◌∷◌, ◌++◌, length, arith, ◌==◌,
}
use falcon_smart_account.Outcome.{ok}
use falcon_smart_account.EntryPoint.Stake.Owed.{IsCovered}
use falcon_smart_account.EntryPoint.Bundle.Outside.{Chain, Outside}
use falcon_smart_account.EntryPoint.Bundle.Handle.{
  Prepared, UserOpsPerAggregator, checked_sum, signature_checked, check_aggregators,
  validate_groups, handle_aggregated_ops,
}
use falcon_smart_account.EntryPoint.Bundle.Rules.{
  Holds, ended, thrown, >>=-Holds, return-Holds, if-Holds, Preserves, >>=-Preserves,
  return-Preserves, expect-Preserves, Keeps, Keeps-eq, Keeps-zero, zero-Keeps,
}
use falcon_smart_account.EntryPoint.Bundle.Solvent.{
  prefunds, Validated, validate_ops-Keeps, checked_sum-Adds, settled-Keeps,
}

-- The operations of all groups, counted.
unfoldable pub total_ops : List UserOpsPerAggregator → ℕ
total_ops [] = 0
total_ops (opa ∷ rest) = length opa.user_ops + total_ops rest

prefunds-append : (ps qs : List Prepared) → prefunds (ps ++ qs) ≡ prefunds ps + prefunds qs
unfolding prefunds
prefunds-append [] qs = omega arith
prefunds-append (p ∷ ps) qs = omega (arith, prefunds-append ps qs)

module _ {W : Type 0} (o : Outside W) where
  signature_checked-Preserves :
      (P : Chain W → Type 0) (aggregator : ℕ) (answer : Option Bool)
      → Preserves P (signature_checked o aggregator answer)
  unfolding signature_checked
  signature_checked-Preserves P aggregator none s p a s' eq = thrown eq
  signature_checked-Preserves P aggregator (some true) s p a s' eq = ended (λ _ s1. P s1) eq p
  signature_checked-Preserves P aggregator (some false) s p a s' eq = thrown eq

  pub check_aggregators-Preserves :
      (P : Chain W → Type 0) (groups : List UserOpsPerAggregator)
      → Preserves P (check_aggregators o groups)
  unfolding check_aggregators
  check_aggregators-Preserves P [] = return-Preserves P tt
  check_aggregators-Preserves P (opa ∷ rest) = >>=-Preserves P (expect-Preserves P _ _) (λ _.
      >>=-Preserves P
        (if-Holds (opa.aggregator == 0) (λ _. return-Preserves P tt)
          (λ _ s p a s' eq. signature_checked-Preserves P opa.aggregator _ s p a s' eq))
        (λ _. check_aggregators-Preserves P rest))

  validate_groups-Keeps :
      (kept op_index : ℕ) (groups : List UserOpsPerAggregator)
      → Holds (Keeps kept) (validate_groups o op_index groups) (Validated kept (total_ops groups))
  unfolding validate_groups prefunds total_ops
  validate_groups-Keeps kept op_index [] =
      return-Holds (Validated kept 0) []
        (λ s h. (Keeps-eq kept (kept + 0) s (omega arith) h, omega arith))
  validate_groups-Keeps kept op_index (opa ∷ rest) =
      let count = length opa.user_ops + total_ops rest in
      >>=-Holds (Validated kept (length opa.user_ops))
        (validate_ops-Keeps o kept opa.aggregator op_index 0 opa.user_ops)
        (λ ps s h.
          (>>=-Holds (Validated (kept + prefunds ps) (total_ops rest))
              (validate_groups-Keeps (kept + prefunds ps) (op_index + length opa.user_ops) rest)
              (λ qs. return-Holds (Validated kept count) (ps ++ qs) (λ s1 h1. (
                Keeps-eq (kept + prefunds ps + prefunds qs) (kept + prefunds (ps ++ qs)) s1
                    (omega (arith, prefunds-append ps qs)) h1.0,
                omega (arith, h.1, h1.1, prefunds-append ps qs),
              ))))
            s h.0)

  -- When groups of at most 8191 operations in all are handled without a revert, whatever the
  -- aggregators, accounts, paymasters, factories and the beneficiary do and call meanwhile, and
  -- whatever gas is used, a contract that has each account's stake in one of the phases none,
  -- locked and unlocking, and whose ether is exactly what it owes as deposits and stakes and what
  -- was ever forced on it without a call, is so afterwards too, ether forced on it meanwhile
  -- included.
  pub handle_aggregated_ops-IsSolvent :
      (groups : List UserOpsPerAggregator) (beneficiary : ℕ) (s s' : Chain W)
      → total_ops groups ≤ 8191
      → handle_aggregated_ops o groups beneficiary s ≡ ok (tt, s')
      → IsCovered s.forced s.contract
      → IsCovered s'.forced s'.contract
  unfolding handle_aggregated_ops
  handle_aggregated_ops-IsSolvent groups beneficiary s s' few eq h = zero-Keeps s' (
      (>>=-Holds (λ _. Keeps 0) (check_aggregators-Preserves (Keeps 0) groups)
          (λ _. >>=-Holds (Validated 0 (total_ops groups)) (validate_groups-Keeps 0 0 groups) (λ ps.
            settled-Keeps o checked_sum (total_ops groups) ps beneficiary checked_sum-Adds
              (omega (arith, few)))))
        s (Keeps-zero s h) tt s' eq)
