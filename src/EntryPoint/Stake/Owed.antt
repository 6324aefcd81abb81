-- ===== src/EntryPoint/Stake/Owed.antt =====
-- What the contract of contracts/core/StakeManager.sol owes, and the phases of a stake.
use falcon_smart_account.Prelude.{
  ℕ, ◌+◌, ◌≤◌, ◌<◌, ◌≡◌, ◌⊎◌, refl, inl, inr, true, false, [], ◌∷◌, arith, ◌==◌, if◌then◌else◌,
  Bool-cases,
}
use falcon_smart_account.EntryPoint.Stake.{DepositInfo, Deposits, deposits_of, write, Contract}

-- What is owed to an account, and to all.
abbrev pub owed : DepositInfo → ℕ
owed info = info.deposit + info.stake

unfoldable pub total_owed : Deposits → ℕ
total_owed [] = 0
total_owed ((a, info) ∷ rest) = owed info + total_owed rest

pub total_owed-write :
    (account : ℕ) (info : DepositInfo) (m : Deposits)
    → total_owed (write account info m) + owed (deposits_of m account) ≡ total_owed m + owed info
unfolding total_owed write deposits_of
total_owed-write account info [] = omega arith
total_owed-write account info ((a, old) ∷ rest) = ground (arith, total_owed-write account info rest)

-- The phases of a stake: none, locked, and about to be withdrawn.
pub record IsUnstaked (info : DepositInfo) : Type 0 where
  pub not_staked : info.staked ≡ false
  pub no_stake : info.stake ≡ 0
  pub no_time : info.withdraw_time ≡ 0

pub record IsLocked (info : DepositInfo) : Type 0 where
  pub is_staked : info.staked ≡ true
  pub has_stake : 0 < info.stake
  pub has_delay : 0 < info.unstake_delay_sec
  pub no_time : info.withdraw_time ≡ 0

pub record IsUnlocking (info : DepositInfo) : Type 0 where
  pub not_staked : info.staked ≡ false
  pub has_stake : 0 < info.stake
  pub has_delay : 0 < info.unstake_delay_sec
  pub has_time : info.unstake_delay_sec ≤ info.withdraw_time

abbrev pub InPhase : DepositInfo → Type 0
InPhase info = IsUnstaked info ⊎ (IsLocked info ⊎ IsUnlocking info)

-- Every account is in a phase, and the contract has what it owes and what it keeps besides.
pub record IsCovered (kept : ℕ) (c : Contract) : Type 0 where
  pub phase : (account : ℕ) → InPhase (deposits_of c.deposits account)
  pub covered : total_owed c.deposits + kept ≡ c.ether

-- It keeps nothing besides.
abbrev pub IsSolvent : Contract → Type 0
IsSolvent = IsCovered 0

pub deposits_of-write :
    (account x : ℕ) (info : DepositInfo) (m : Deposits)
    → deposits_of (write account info m) x ≡ (if account == x then info else deposits_of m x)
unfolding write deposits_of
deposits_of-write account x info [] = refl
deposits_of-write account x info ((a, old) ∷ rest) =
    ground (arith, deposits_of-write account x info rest)

pub write-InPhase :
    (account : ℕ) (info : DepositInfo) (m : Deposits)
    → ((x : ℕ) → InPhase (deposits_of m x))
    → InPhase info
    → (x : ℕ) → InPhase (deposits_of (write account info m) x)
write-InPhase account info m h new x = elim (Bool-cases (account == x)) [
  | inl same ↦ rw (deposits_of-write account x info m, same) new
  | inr other ↦ rw (deposits_of-write account x info m, other) (h x)
]

-- What is owed to an account is written anew, and the ether changes by as much.
pub written-IsCovered :
    (kept account : ℕ) (info : DepositInfo) (ether : ℕ) (c : Contract)
    → IsCovered kept c
    → InPhase info
    → ether + owed (deposits_of c.deposits account) ≡ c.ether + owed info
    → IsCovered kept (record { deposits = write account info c.deposits; ether = ether })
written-IsCovered kept account info ether c h new balance = record {
  phase = write-InPhase account info c.deposits h.phase new;
  covered = omega (arith, total_owed-write account info c.deposits, h.covered, balance);
}

pub deposit-InPhase :
    (info : DepositInfo) (d : ℕ) → InPhase info → InPhase (record info { deposit = d })
deposit-InPhase info d (inl h) =
    inl (record { not_staked = h.not_staked; no_stake = h.no_stake; no_time = h.no_time })
deposit-InPhase info d (inr (inl h)) = inr (
    inl (record {
      is_staked = h.is_staked;
      has_stake = h.has_stake;
      has_delay = h.has_delay;
      no_time = h.no_time;
    }))
deposit-InPhase info d (inr (inr h)) = inr (
    inr (record {
      not_staked = h.not_staked;
      has_stake = h.has_stake;
      has_delay = h.has_delay;
      has_time = h.has_time;
    }))
