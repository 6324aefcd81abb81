-- ===== src/GasCheck/Report/Delta.antt =====
-- The rows of two tests in succession, as the gas reports make them.
use falcon_smart_account.Prelude.{
  ℕ, ◌≡◌, ◌≢◌, refl, sym, ap, ◌∙◌, Option, none, some, true, false, [], ◌∷◌, ◌++◌, append_assoc,
  if◌then◌else◌, ◌==◌, Bool-cases, inl, inr,
}
use falcon_smart_account.Prelude.Int.{sub_ℕ}
use falcon_smart_account.Outcome.{Error, ok, throws, some_ops_failed, ok-injective, Outcome-cases}
use falcon_smart_account.GasCheck.Run.{
  GasTestInfo, Receipt, GasTestResult, throw_revert, count_success_ops, gas_diff_from, number,
  test_result,
}
use falcon_smart_account.GasCheck.Report.{
  text, amount, difference, blank, Collector, minus, row_of, add_row,
}

-- The result that a test has.
abbrev result_of : GasTestInfo → ℕ → Receipt → Option ℕ → GasTestResult
result_of info account_est receipt last = record {
  title = info.title;
  count = info.count;
  gas_used = receipt.gas_used;
  account_est = account_est;
  gas_diff = if info.diff_last_gas then some (gas_diff_from last receipt.gas_used) else none;
}

throws-ne : {err : Error} {r : GasTestResult} → throws err ≢ ok r
throws-ne h = cc

test_result-eq :
    (info : GasTestInfo) (op_count account_est : ℕ) (receipt : Receipt) (last last1 : Option ℕ)
    (r : GasTestResult)
    → test_result info op_count account_est receipt last ≡ (ok r, last1)
    → (r ≡ result_of info account_est receipt last) × (last1 ≡ some receipt.gas_used)
unfolding test_result
test_result-eq info op_count account_est receipt last last1 r h =
    elim (Outcome-cases (throw_revert receipt.events)) [
      | inr (err, reverts) ↦
          let thrown : test_result info op_count account_est receipt last ≡ (throws err, last) =
            rw (reverts, test_result) refl in
          absurd (throws-ne (ap (λ x. x.0) (sym thrown ∙ h)))
      | inl (_, quiet) ↦ elim (Bool-cases (count_success_ops receipt.events == op_count)) [
        | inr fewer ↦
            let thrown : test_result info op_count account_est receipt last
                ≡ (throws some_ops_failed, last) =
              rw (quiet, fewer, test_result) refl in
            absurd (throws-ne (ap (λ x. x.0) (sym thrown ∙ h)))
        | inl all ↦
            let made : test_result info op_count account_est receipt last
                ≡ (ok (result_of info account_est receipt last), some receipt.gas_used) =
              rw (quiet, all, test_result) refl in
            let same = sym h ∙ made in (ok-injective (ap (λ x. x.0) same), ap (λ x. x.1) same)
      ]
    ]

-- After a test that is not compared, a test that is compared with it has a row with the difference
-- of the gas of their two receipts, and the same less the account's estimate, and no total; the
-- first has its total alone.
pub add_row-difference :
    (info1 info2 : GasTestInfo) (op_count1 op_count2 est1 est2 : ℕ) (receipt1 receipt2 : Receipt)
    (last last1 last2 : Option ℕ) (r1 r2 : GasTestResult) (c : Collector)
    → info1.diff_last_gas ≡ false
    → info2.diff_last_gas ≡ true
    → test_result info1 op_count1 est1 receipt1 last ≡ (ok r1, last1)
    → test_result info2 op_count2 est2 receipt2 last1 ≡ (ok r2, last2)
    → let delta = number (sub_ℕ receipt2.gas_used receipt1.gas_used) in
      (add_row r2 (add_row r1 c)).tab_rows
      ≡ c.tab_rows
        ++ (text info1.title ∷ amount info1.count ∷ amount receipt1.gas_used ∷ blank ∷ blank ∷ [])
          ∷ (text info2.title
              ∷ amount info2.count
              ∷ blank
              ∷ difference delta
              ∷ difference (minus delta est2)
              ∷ [])
          ∷ []
unfolding add_row row_of gas_diff_from
add_row-difference info1 info2 op_count1 op_count2 est1 est2 receipt1 receipt2 last last1 last2 r1
      r2 c alone compared first second =
    let (same1, seen1) = test_result-eq info1 op_count1 est1 receipt1 last last1 r1 first in
    let (same2, _) = test_result-eq info2 op_count2 est2 receipt2 last1 last2 r2 second in
    rw (same1, same2, alone, compared, seen1) (append_assoc c.tab_rows (_ ∷ []) (_ ∷ []))
