-- ===== src/EntryPoint/Stake.antt =====
-- contracts/core/StakeManager.sol: the deposits and stakes of accounts. A call that reverts is `none`
-- and changes nothing. The external calls that pay out come last in their functions, so calls that
-- their receivers make in turn are calls that follow.
pub mod Owed
pub mod Keeps
pub mod Solvent
use falcon_smart_account.Prelude.{
  ℕ, ◌+◌, ◌-◌, ◌%◌, ◌^◌, ◌≡◌, Option, none, some, Bool, true, false, ◌&&◌, not, List, [], ◌∷◌, leb,
  ltb, ◌==◌, if◌then◌else◌,
}

pub record DepositInfo : Type 0 where
  pub deposit : ℕ
  pub staked : Bool
  pub stake : ℕ
  pub unstake_delay_sec : ℕ
  pub withdraw_time : ℕ

-- `deposits`, by address; a missing key has the zero value.
abbrev pub Deposits : Type 0
Deposits = List (ℕ × DepositInfo)

abbrev pub no_deposit : DepositInfo
no_deposit = record {
  deposit = 0;
  staked = false;
  stake = 0;
  unstake_delay_sec = 0;
  withdraw_time = 0;
}

unfoldable pub deposits_of : Deposits → ℕ → DepositInfo
deposits_of [] account = no_deposit
deposits_of ((a, info) ∷ rest) account = if a == account then info else deposits_of rest account

unfoldable pub write : ℕ → DepositInfo → Deposits → Deposits
write account info [] = (account, info) ∷ []
write account info ((a, old) ∷ rest) =
    if a == account then (a, info) ∷ rest else (a, old) ∷ write account info rest

-- The contract: its mapping and its ether.
pub record Contract : Type 0 where
  pub deposits : Deposits
  pub ether : ℕ

-- `if (!condition) revert`
abbrev pub require {ℓ} : {A : Type ℓ} → Bool → Option A → Option A
require true go_on = go_on
require false go_on = none

-- `depositTo(account)`, with `_incrementDeposit`, whose addition is checked.
unfoldable pub deposit_to : ℕ → ℕ → Contract → Option Contract
deposit_to account value c =
    let info = deposits_of c.deposits account in
    require (ltb (info.deposit + value) (2 ^ 256)) (
      some (record {
        deposits = write account (record info { deposit = info.deposit + value }) c.deposits;
        ether = c.ether + value;
      }))

-- `addStake(unstakeDelaySec)`
unfoldable pub add_stake : ℕ → ℕ → ℕ → Contract → Option Contract
add_stake sender unstake_delay_sec value c =
    let info = deposits_of c.deposits sender in
    let stake = info.stake + value in
    require (ltb 0 unstake_delay_sec) (
      require (leb info.unstake_delay_sec unstake_delay_sec) (
        require (ltb 0 stake) (
          require (leb stake (2 ^ 112 - 1)) (
            some (record {
              deposits =
                  write sender
                    (record {
                      deposit = info.deposit;
                      staked = true;
                      stake = stake;
                      unstake_delay_sec = unstake_delay_sec;
                      withdraw_time = 0;
                    })
                    c.deposits;
              ether = c.ether + value;
            })))))

-- `unlockStake()` at a block's time; the addition to the time is checked.
unfoldable pub unlock_stake : ℕ → ℕ → Contract → Option Contract
unlock_stake sender now c =
    let info = deposits_of c.deposits sender in
    let withdraw_time = now % 2 ^ 48 + info.unstake_delay_sec in
    require (not (info.unstake_delay_sec == 0)) (
      require info.staked (
        require (ltb withdraw_time (2 ^ 48)) (
          some (record c {
            deposits =
                write sender (record info { withdraw_time = withdraw_time; staked = false })
                  c.deposits;
          }))))

-- The payment of a withdrawal, which the contract must have and its receiver accept.
unfoldable pub pay : Bool → ℕ → Deposits → Contract → Option Contract
pay accepts value deposits c =
    require accepts
      (require (leb value c.ether) (some (record { deposits = deposits; ether = c.ether - value })))

-- `withdrawStake(withdrawAddress)`
unfoldable pub withdraw_stake : ℕ → ℕ → Bool → Contract → Option Contract
withdraw_stake sender now accepts c =
    let info = deposits_of c.deposits sender in
    require (ltb 0 info.stake) (
      require (ltb 0 info.withdraw_time) (
        require (leb info.withdraw_time now) (
          pay accepts info.stake
            (write sender (record info { unstake_delay_sec = 0; withdraw_time = 0; stake = 0 })
              c.deposits)
            c)))

-- `withdrawTo(withdrawAddress, withdrawAmount)`
unfoldable pub withdraw_to : ℕ → ℕ → Bool → Contract → Option Contract
withdraw_to sender amount accepts c =
    let info = deposits_of c.deposits sender in
    require (leb amount info.deposit) (
      pay accepts amount (write sender (record info { deposit = info.deposit - amount }) c.deposits)
        c)

-- A call that does not revert.
pub data Call : Contract → Contract → Type 0 where
  deposits_to :
      {c c' : Contract} (account value : ℕ) → deposit_to account value c ≡ some c' → Call c c'
  adds_stake :
      {c c' : Contract} (sender delay value : ℕ)
      → add_stake sender delay value c ≡ some c'
      → Call c c'
  unlocks : {c c' : Contract} (sender now : ℕ) → unlock_stake sender now c ≡ some c' → Call c c'
  withdraws_stake :
      {c c' : Contract} (sender now : ℕ) → withdraw_stake sender now true c ≡ some c' → Call c c'
  withdraws :
      {c c' : Contract} (sender amount : ℕ) → withdraw_to sender amount true c ≡ some c' → Call c c'

pub data Calls : Contract → Type 0 where
  deployed : Calls (record { deposits = []; ether = 0 })
  called : {c c' : Contract} → Calls c → Call c c' → Calls c'
