-- ===== src/GasCheck/Run/Scenario.antt =====
-- The whole of `runTest` of gascalc/GasChecker.ts.
use falcon_smart_account.Prelude.{
  ℕ, zero, suc, Option, List, [], ◌∷◌, length, text_eq, ◌==◌, if◌then◌else◌,
}
use falcon_smart_account.Js.{Str, codes}
use falcon_smart_account.Outcome.{Outcome, ok, throws, ◌>>=◌}
use falcon_smart_account.Ethers.{Ethers}
use falcon_smart_account.UserOp.Types.{PackedUserOperation}
use falcon_smart_account.GasCheck.Accounts.{GasBackend, Checker, create_accounts}
use falcon_smart_account.GasCheck.Run.{
  GasTestInfo, Estimates, RunBackend, dest_of, test_ops, account_est_after, Receipt,
  bundle_gas_limit, GasTestResult, test_result,
}

-- The chain as `runTest` uses it: `getBalance`, `estimateGas.handleOps`, and `handleOps` with its
-- receipt.
pub record BundleBackend (W : Type 0) : Type 0 where
  pub get_balance : W → Str → ℕ
  pub estimate_handle_ops : List PackedUserOperation → Str → W → Outcome ℕ
  pub send_handle_ops : List PackedUserOperation → Str → ℕ → W → Outcome Receipt × W

-- What a test leaves behind: its result, the checker, the chain, and `lastGasUsed`.
pub record Ran (W : Type 0) : Type 0 where
  pub result : Outcome GasTestResult
  pub checker : Checker
  pub state : W
  pub last_gas_used : Option ℕ

module _ (e : Ethers) {W : Type 0} (g : GasBackend W) (b : RunBackend) (c : BundleBackend W) where
  -- A random destination with no balance is given 1 wei.
  unfoldable pub replenish : GasTestInfo → ℕ → List Str → W → Outcome (Unit {0}) × W
  replenish info zero accounts w = (ok tt, w)
  replenish info (suc n) [] w = (ok tt, w)
  replenish info (suc n) (account ∷ accounts) w =
      let dest = dest_of e b info account in
      let (sent, w1) = g.chain.send_value dest 1 w in
      let paid : Outcome (Unit {0}) × W = elim sent [
        | throws err ↦ (throws err, w1)
        | ok _ ↦ replenish info n accounts w1
      ] in
      let unpaid = replenish info n accounts w in
      if text_eq info.dest (codes "random")
      then (if c.get_balance w dest == 0 then paid else unpaid)
      else unpaid

  -- The bundle is sent with half as much gas again as was estimated.
  unfoldable pub send_bundle :
      GasTestInfo → List PackedUserOperation → ℕ → Checker → W → Option ℕ → Ran W
  send_bundle info ops account_est s w last = elim (c.estimate_handle_ops ops info.beneficiary w) [
    | throws err ↦ record { result = throws err; checker = s; state = w; last_gas_used = last }
    | ok gas_est ↦
        let (sent, w1) = c.send_handle_ops ops info.beneficiary (bundle_gas_limit gas_est) w in
        elim sent [
          | throws err ↦ record {
            result = throws err;
            checker = s;
            state = w1;
            last_gas_used = last;
          }
          | ok receipt ↦
              let (result, last1) = test_result info (length ops) account_est receipt last in
              record { result = result; checker = s; state = w1; last_gas_used = last1 }
        ]
  ]

  -- The operations, and the estimate that is reported.
  unfoldable pub prepare :
      GasTestInfo → (Str → Estimates) → List Str → Checker → Outcome (List PackedUserOperation × ℕ)
  prepare info seen answered s = do
    ops ← test_ops e b info seen info.count s.accounts
    account_est ← account_est_after e b info seen answered 0
    ok (ops, account_est)

  unfoldable pub with_accounts :
      GasTestInfo → (Str → Estimates) → List Str → Checker → W → Option ℕ → Ran W
  with_accounts info seen answered s w last =
      let (paid, w1) = replenish info info.count s.accounts w in
      elim (paid >>= λ _. prepare info seen answered s) [
        | throws err ↦ record { result = throws err; checker = s; state = w1; last_gas_used = last }
        | ok (ops, account_est) ↦ send_bundle info ops account_est s w1 last
      ]

  -- `runTest`
  unfoldable pub run_test :
      GasTestInfo → (Str → Estimates) → List Str → Checker → W → Option ℕ → Ran W
  run_test info seen answered s w last =
      let (created, s1, w1) = create_accounts e g info.count s w in
      elim created [
        | throws err ↦ record {
          result = throws err;
          checker = s1;
          state = w1;
          last_gas_used = last;
        }
        | ok _ ↦ with_accounts info seen answered s1 w1 last
      ]
