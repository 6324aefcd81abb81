-- ===== src/Examples/Contract.antt =====
-- The theorems on what the contracts read at concrete inputs.
use falcon_smart_account.Prelude.{◌≡◌, refl, true, false, if◌then◌else◌, [], ◌∷◌, arith}
use falcon_smart_account.Prelude.Digits.{be_value}
use falcon_smart_account.Outcome.{ok, ◌>>=◌}
use falcon_smart_account.Ethers.Reference.{reference}
use falcon_smart_account.UserOp.Pack.{pack_user_op, has_paymaster}
use falcon_smart_account.UserOp.Bytes.{IsPackable}
use falcon_smart_account.EntryPoint.Memory.{copy_user_op_to_memory}
use falcon_smart_account.EntryPoint.ReadBack.{calldata_of, fields_of, copy-pack_user_op}
use falcon_smart_account.EntryPoint.Stake.{
  DepositInfo, no_deposit, Contract, deposit_to, add_stake, unlock_stake, withdraw_stake, pay,
  deposits_of, write, deposits_to, adds_stake, unlocks, withdraws_stake, Calls, deployed, called,
}
use falcon_smart_account.EntryPoint.Stake.Solvent.{Calls-IsSolvent}
use falcon_smart_account.EntryPoint.Stake.Owed.{IsSolvent}
use falcon_smart_account.Examples.Values.{sponsored, paymaster}

sponsored-IsPackable : IsPackable sponsored paymaster (1 ∷ 2 ∷ [])
sponsored-IsPackable = record {
  call_gas = omega arith;
  verification_gas = omega arith;
  max_fee = omega arith;
  priority_fee = omega arith;
  paymaster_verification_gas = omega arith;
  post_op_gas = omega arith;
  paymaster_hex = refl;
  paymaster_bytes = omega arith;
  paymaster_length = refl;
  rest_hex = refl;
  rest_bytes = omega arith;
}

copy-pack_user_op_example :
    (pack_user_op reference sponsored >>= λ p. copy_user_op_to_memory (calldata_of reference p))
    ≡ ok (
        fields_of reference sponsored (
          if has_paymaster reference sponsored
          then (be_value 0 paymaster, 300000, 0)
          else (0, 0, 0)))
copy-pack_user_op_example =
    copy-pack_user_op reference sponsored paymaster (1 ∷ 2 ∷ []) sponsored-IsPackable

abbrev deployed_contract : Contract
deployed_contract = record { deposits = []; ether = 0 }

-- An account with a stake of 5 that is withdrawn, and a deposit of 7.
abbrev staked_info : DepositInfo
staked_info = record {
  deposit = 7;
  staked = true;
  stake = 5;
  unstake_delay_sec = 60;
  withdraw_time = 0;
}

abbrev unlocking_info : DepositInfo
unlocking_info = record staked_info { staked = false; withdraw_time = 1060 }

abbrev withdrawn_info : DepositInfo
withdrawn_info = record unlocking_info { unstake_delay_sec = 0; withdraw_time = 0; stake = 0 }

withdrawn-Calls : Calls (record { deposits = (1, withdrawn_info) ∷ []; ether = 7 })
unfolding deposit_to add_stake unlock_stake withdraw_stake pay deposits_of write
withdrawn-Calls =
    called
      (called
        (called
          (called {c = deployed_contract} deployed (
            deposits_to
              {c' = record { deposits = (1, record no_deposit { deposit = 7 }) ∷ []; ether = 7 }} 1
              7 refl))
          (adds_stake {c' = record { deposits = (1, staked_info) ∷ []; ether = 12 }} 1 60 5 refl))
        (unlocks {c' = record { deposits = (1, unlocking_info) ∷ []; ether = 12 }} 1 1000 refl))
      (withdraws_stake 1 1060 refl)

Calls-IsSolvent_example : IsSolvent (record { deposits = (1, withdrawn_info) ∷ []; ether = 7 })
Calls-IsSolvent_example = Calls-IsSolvent withdrawn-Calls
