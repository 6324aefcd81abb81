-- ===== src/EntryPoint/Stake/Solvent.antt =====
-- What holds of the deposits and stakes of contracts/core/StakeManager.sol after any calls.
use falcon_smart_account.Prelude.{inl, refl, true}
use falcon_smart_account.EntryPoint.Stake.{
  deposits_of, Contract, Call, deposits_to, adds_stake, unlocks, withdraws_stake, withdraws, Calls,
  deployed, called,
}
use falcon_smart_account.EntryPoint.Stake.Owed.{total_owed, IsSolvent}
use falcon_smart_account.EntryPoint.Stake.Keeps.{
  deposit_to-IsCovered, add_stake-IsCovered, unlock_stake-IsCovered, withdraw_stake-IsCovered,
  withdraw_to-IsCovered,
}

Call-IsSolvent : (c c' : Contract) → Call c c' → IsSolvent c → IsSolvent c'
Call-IsSolvent c c' (deposits_to account value eq) h =
    deposit_to-IsCovered 0 account value c c' eq h
Call-IsSolvent c c' (adds_stake sender delay value eq) h =
    add_stake-IsCovered 0 sender delay value c c' eq h
Call-IsSolvent c c' (unlocks sender now eq) h = unlock_stake-IsCovered 0 sender now c c' eq h
Call-IsSolvent c c' (withdraws_stake sender now eq) h =
    withdraw_stake-IsCovered 0 sender now true c c' eq h
Call-IsSolvent c c' (withdraws sender amount eq) h =
    withdraw_to-IsCovered 0 sender amount true c c' eq h

-- After any calls that did not revert, the contract has exactly the ether that it owes as deposits
-- and stakes, and each account's stake is none, or locked with a delay and no time of withdrawal, or
-- unlocking with a time of withdrawal that is no less than its delay.
pub Calls-IsSolvent : {c : Contract} → Calls c → IsSolvent c
unfolding total_owed deposits_of
Calls-IsSolvent deployed = record {
  phase = λ account. inl (record { not_staked = refl; no_stake = refl; no_time = refl });
  covered = refl;
}
Calls-IsSolvent (called {c} {c'} calls call) = Call-IsSolvent c c' call (Calls-IsSolvent calls)
