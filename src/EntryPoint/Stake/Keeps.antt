-- ===== src/EntryPoint/Stake/Keeps.antt =====
-- Each call of contracts/core/StakeManager.sol that does not revert leaves the contract covered.
use falcon_smart_account.Prelude.{
  ℕ, ◌+◌, ◌-◌, ◌%◌, ◌^◌, ◌≤◌, ◌<◌, ◌≡◌, ◌≢◌, refl, sym, ◌∙◌, inl, inr, Option, some, Bool, true,
  false, not, arith, leb, ltb, ◌==◌,
}
use falcon_smart_account.EntryPoint.Stake.{
  DepositInfo, deposits_of, write, Contract, require, deposit_to, add_stake, unlock_stake, pay,
  withdraw_stake, withdraw_to,
}
use falcon_smart_account.EntryPoint.Stake.Owed.{
  owed, InPhase, IsLocked, IsCovered, written-IsCovered, deposit-InPhase,
}

require-some :
    {A : Type 0} (test : Bool) (go_on : Option A) (a : A)
    → require test go_on ≡ some a
    → (test ≡ true) × (go_on ≡ some a)
require-some true go_on a h = (refl, h)
require-some false go_on a h = cc

pub some-injective : {A : Type 0} {a b : A} → some a ≡ some b → a ≡ b
some-injective h = cc

false-ne : false ≢ true
false-ne h = cc

pub deposit_to-IsCovered :
    (kept account value : ℕ) (c c' : Contract)
    → deposit_to account value c ≡ some c'
    → IsCovered kept c
    → IsCovered kept c'
unfolding deposit_to
deposit_to-IsCovered kept account value c c' eq h =
    let info = deposits_of c.deposits account in
    let (_, made) = require-some (ltb (info.deposit + value) (2 ^ 256)) _ c' eq in
    rw (sym (some-injective made)) (
      written-IsCovered kept account (record info { deposit = info.deposit + value })
        (c.ether + value) c h (deposit-InPhase info (info.deposit + value) (h.phase account))
        (omega arith))

pub add_stake-IsCovered :
    (kept sender delay value : ℕ) (c c' : Contract)
    → add_stake sender delay value c ≡ some c'
    → IsCovered kept c
    → IsCovered kept c'
unfolding add_stake
add_stake-IsCovered kept sender delay value c c' eq h =
    let info = deposits_of c.deposits sender in
    let (positive, eq1) = require-some (ltb 0 delay) _ c' eq in
    let (_, eq2) = require-some (leb info.unstake_delay_sec delay) _ c' eq1 in
    let (some_stake, eq3) = require-some (ltb 0 (info.stake + value)) _ c' eq2 in
    let (_, made) = require-some (leb (info.stake + value) (2 ^ 112 - 1)) _ c' eq3 in
    rw (sym (some-injective made)) (
      written-IsCovered kept sender _ (c.ether + value) c h
        (inr (
          inl (record {
            is_staked = refl;
            has_stake = ground arith;
            has_delay = ground arith;
            no_time = refl;
          })))
        (omega arith))

staked-IsLocked : (info : DepositInfo) → InPhase info → info.staked ≡ true → IsLocked info
staked-IsLocked info (inl h) staked = absurd (false-ne (sym h.not_staked ∙ staked))
staked-IsLocked info (inr (inl h)) staked = h
staked-IsLocked info (inr (inr h)) staked = absurd (false-ne (sym h.not_staked ∙ staked))

pub unlock_stake-IsCovered :
    (kept sender now : ℕ) (c c' : Contract)
    → unlock_stake sender now c ≡ some c'
    → IsCovered kept c
    → IsCovered kept c'
unfolding unlock_stake
unlock_stake-IsCovered kept sender now c c' eq h =
    let info = deposits_of c.deposits sender in
    let withdraw_time = now % 2 ^ 48 + info.unstake_delay_sec in
    let (_, eq1) = require-some (not (info.unstake_delay_sec == 0)) _ c' eq in
    let (staked, eq2) = require-some info.staked _ c' eq1 in
    let (_, made) = require-some (ltb withdraw_time (2 ^ 48)) _ c' eq2 in
    let locked = staked-IsLocked info (h.phase sender) staked in
    rw (sym (some-injective made)) (
      written-IsCovered kept sender (record info { withdraw_time = withdraw_time; staked = false })
        c.ether c h
        (inr (
          inr (record {
            not_staked = refl;
            has_stake = locked.has_stake;
            has_delay = locked.has_delay;
            has_time = omega arith;
          })))
        (omega arith))

-- A payment of what is no longer owed.
pay-IsCovered :
    (kept : ℕ) (accepts : Bool) (account value : ℕ) (info : DepositInfo) (c c' : Contract)
    → pay accepts value (write account info c.deposits) c ≡ some c'
    → IsCovered kept c
    → InPhase info
    → owed info + value ≡ owed (deposits_of c.deposits account)
    → IsCovered kept c'
unfolding pay
pay-IsCovered kept accepts account value info c c' eq h new balance =
    let (_, sent) = require-some accepts _ c' eq in
    let (enough, made) = require-some (leb value c.ether) _ c' sent in
    let fits : value ≤ c.ether = ground arith in
    rw (sym (some-injective made))
      (written-IsCovered kept account info (c.ether - value) c h new (omega arith))

timed_not_staked :
    (info : DepositInfo) → InPhase info → 0 < info.withdraw_time → info.staked ≡ false
timed_not_staked info (inl h) timed = h.not_staked
timed_not_staked info (inr (inl h)) timed = absurd (omega (arith, h.no_time))
timed_not_staked info (inr (inr h)) timed = h.not_staked

pub withdraw_stake-IsCovered :
    (kept sender now : ℕ) (accepts : Bool) (c c' : Contract)
    → withdraw_stake sender now accepts c ≡ some c'
    → IsCovered kept c
    → IsCovered kept c'
unfolding withdraw_stake
withdraw_stake-IsCovered kept sender now accepts c c' eq h =
    let info = deposits_of c.deposits sender in
    let (_, eq1) = require-some (ltb 0 info.stake) _ c' eq in
    let (timed, eq2) = require-some (ltb 0 info.withdraw_time) _ c' eq1 in
    let (_, paid) = require-some (leb info.withdraw_time now) _ c' eq2 in
    pay-IsCovered kept accepts sender info.stake _ c c' paid h
      (inl (record {
        not_staked = timed_not_staked info (h.phase sender) (ground arith);
        no_stake = refl;
        no_time = refl;
      }))
      (omega arith)

pub withdraw_to-IsCovered :
    (kept sender amount : ℕ) (accepts : Bool) (c c' : Contract)
    → withdraw_to sender amount accepts c ≡ some c'
    → IsCovered kept c
    → IsCovered kept c'
unfolding withdraw_to
withdraw_to-IsCovered kept sender amount accepts c c' eq h =
    let info = deposits_of c.deposits sender in
    let (enough, paid) = require-some (leb amount info.deposit) _ c' eq in
    let fits : amount ≤ info.deposit = ground arith in
    pay-IsCovered kept accepts sender amount (record info { deposit = info.deposit - amount }) c c'
      paid h (deposit-InPhase info (info.deposit - amount) (h.phase sender)) (omega arith)
