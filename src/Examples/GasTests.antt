-- ===== src/Examples/GasTests.antt =====
-- The theorems on the gas reports' tests at concrete inputs.
use falcon_smart_account.Prelude.{ℕ, ◌≡◌, refl, none, some, true, false, [], ◌∷◌, ◌++◌, arith}
use falcon_smart_account.Prelude.Int.{sub_ℕ}
use falcon_smart_account.Js.{codes}
use falcon_smart_account.Outcome.{ok}
use falcon_smart_account.Ethers.Reference.{reference}
use falcon_smart_account.GasCheck.Run.{
  GasTestInfo, RunBackend, Receipt, user_operation_event, other_event, GasTestResult, number,
  test_result, throw_revert, count_success_ops, gas_diff_from,
}
use falcon_smart_account.GasCheck.Run.Scenario.{BundleBackend, run_test}
use falcon_smart_account.GasCheck.Run.Result.{Reports, run_test-Reports}
use falcon_smart_account.GasCheck.Report.{
  Collector, text, amount, difference, blank, minus, add_row,
}
use falcon_smart_account.GasCheck.Report.Delta.{add_row-difference}
use falcon_smart_account.GasCheck.Singleton.{
  start, begin_init, resume, calls, resumes, Reachable, starts, steps, IsSingle, Reachable-IsSingle,
}
use falcon_smart_account.Examples.Values.{alice, bob, client, wallet}
use falcon_smart_account.Examples.Reports.{gas_backend, no_accounts}

-- The test `simple - diff from previous`, and the one before it.
abbrev second_test : GasTestInfo
second_test = record {
  title = codes "simple - diff from previous";
  diff_last_gas = true;
  paymaster = none;
  count = 2;
  dest = codes "self";
  dest_value = 0;
  dest_call_data = codes "0xb0d691fe";
  beneficiary = bob;
  gas_price = 10000000000;
}

abbrev first_test : GasTestInfo
first_test = record second_test { title = codes "simple"; diff_last_gas = false; count = 1 }

abbrev run_backend : RunBackend
run_backend = record {
  encode_execute = λ dest value call_data. dest ++ call_data;
  estimate_exec = λ account call_data. ok 26000;
  random_dest = λ account. alice;
  owner = wallet;
  entry_point = client;
  network = ok 1;
}

abbrev one_success : Receipt
one_success = record { gas_used = 80000; events = other_event ∷ user_operation_event true ∷ [] }

abbrev two_successes : Receipt
two_successes = record {
  gas_used = 120000;
  events = user_operation_event true ∷ user_operation_event true ∷ [];
}

abbrev bundles : BundleBackend ℕ
bundles = record {
  get_balance = λ w account. 0;
  estimate_handle_ops = λ ops beneficiary w. ok 90000;
  send_handle_ops = λ ops beneficiary limit w. (ok two_successes, w);
}

run_test-Reports_example :
    Reports reference gas_backend run_backend bundles second_test (some 80000) (
      run_test reference gas_backend run_backend bundles second_test
        (λ account. [])
        (alice ∷ [])
        no_accounts
        0
        (some 80000))
run_test-Reports_example =
    run_test-Reports reference gas_backend run_backend bundles second_test (λ account. [])
      (alice ∷ []) no_accounts 0 (some 80000)

abbrev first_result : GasTestResult
first_result = record {
  title = codes "simple";
  count = 1;
  gas_used = 80000;
  account_est = 26000;
  gas_diff = none;
}

abbrev second_result : GasTestResult
second_result = record {
  title = codes "simple - diff from previous";
  count = 2;
  gas_used = 120000;
  account_est = 26000;
  gas_diff = some (number (sub_ℕ 120000 80000));
}

first_runs : test_result first_test 1 26000 one_success none ≡ (ok first_result, some 80000)
unfolding test_result throw_revert count_success_ops gas_diff_from
first_runs = refl

second_runs :
    test_result second_test 2 26000 two_successes (some 80000) ≡ (ok second_result, some 120000)
unfolding test_result throw_revert count_success_ops gas_diff_from
second_runs = refl

abbrev no_rows : Collector
no_rows = record { entry_point = client.address; tab_rows = [] }

add_row-difference_example :
    (add_row second_result (add_row first_result no_rows)).tab_rows
    ≡ []
      ++ (text (codes "simple") ∷ amount 1 ∷ amount 80000 ∷ blank ∷ blank ∷ [])
        ∷ (text (codes "simple - diff from previous")
            ∷ amount 2
            ∷ blank
            ∷ difference (number (sub_ℕ 120000 80000))
            ∷ difference (minus (number (sub_ℕ 120000 80000)) 26000)
            ∷ [])
        ∷ []
add_row-difference_example =
    add_row-difference first_test second_test 1 2 26000 26000 one_success two_successes none
      (some 80000) (some 120000) first_result second_result no_rows refl refl first_runs second_runs

-- Two callers at once, the first of which is resumed.
two_callers : Reachable (resume 0 (begin_init (begin_init start)))
unfolding begin_init
two_callers = steps (steps (steps starts calls) calls) (resumes 0 refl (omega arith))

Reachable-IsSingle_example : IsSingle (resume 0 (begin_init (begin_init start)))
Reachable-IsSingle_example = Reachable-IsSingle two_callers
