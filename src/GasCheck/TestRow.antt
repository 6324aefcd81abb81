-- ===== src/GasCheck/TestRow.antt =====
-- `addTestRow` of gascalc/GasChecker.ts: a test with its row, and the estimates that it saves.
use falcon_smart_account.Prelude.{ℕ, Option, none, some, List, [], ◌∷◌, text_eq, if◌then◌else◌}
use falcon_smart_account.Js.{Str}
use falcon_smart_account.Outcome.{ok, throws}
use falcon_smart_account.Ethers.{Ethers}
use falcon_smart_account.UserOp.Types.{address_zero}
use falcon_smart_account.GasCheck.Accounts.{GasBackend, Checker, create_accounts}
use falcon_smart_account.GasCheck.Run.{
  GasTestInfo, Estimate, Estimates, RunBackend, saved, exec_data, estimate_of,
}
use falcon_smart_account.GasCheck.Run.Scenario.{BundleBackend, Ran, run_test}
use falcon_smart_account.GasCheck.Report.{Collector, add_row}

-- `gasEstimatePerExec[key] = est`
unfoldable pub save : Str → Estimate → Estimates → Estimates
save key est [] = (key, est) ∷ []
save key est ((k, old) ∷ rest) =
    if text_eq k key then (k, est) ∷ rest else (k, old) ∷ save key est rest

module _ (e : Ethers) {W : Type 0} (g : GasBackend W) (b : RunBackend) (c : BundleBackend W) where
  -- The answers save their estimates in the order in which they come; who found one saves none.
  unfoldable pub save_estimates : GasTestInfo → (Str → Estimates) → List Str → Estimates → Estimates
  save_estimates info seen [] table = table
  save_estimates info seen (account ∷ answered) table =
      let key = exec_data e b info address_zero in
      let rest = save_estimates info seen answered in
      elim (saved (seen account) key) [
        | some _ ↦ rest table
        | none ↦ elim (estimate_of e b info seen account) [
          | throws _ ↦ rest table
          | ok est ↦ rest (save key est table)
        ]
      ]

  unfoldable pub estimates_after :
      GasTestInfo → (Str → Estimates) → List Str → Checker → W → Estimates → Estimates
  estimates_after info seen answered s w table = elim (create_accounts e g info.count s w).0 [
    | throws _ ↦ table
    | ok _ ↦ save_estimates info seen answered table
  ]

  -- `addRow(await this.runTest(params))`: a test that throws adds no row.
  unfoldable pub add_test_row :
      GasTestInfo
      → (Str → Estimates)
      → List Str
      → Checker
      → W
      → Option ℕ
      → Estimates
      → Collector
      → Ran W × Estimates × Collector
  add_test_row info seen answered s w last table collector =
      let ran = run_test e g b c info seen answered s w last in
      (
        ran,
        estimates_after info seen answered s w table,
        elim ran.result [ throws _ ↦ collector | ok res ↦ add_row res collector ],
      )
