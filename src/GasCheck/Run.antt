-- ===== src/GasCheck/Run.antt =====
-- `runTest` of gascalc/GasChecker.ts behind `createAccounts1`: the operations of a test, the bundle,
-- and the result. The callbacks of `Promise.all` are started together, so each has what it found
-- saved when it looked (`seen`), and the answers come in some order (`answered`).
pub mod Scenario
pub mod Result
use falcon_smart_account.Prelude.{
  ℕ, zero, suc, ◌+◌, ◌*◌, ◌/◌, Option, none, some, Bool, true, false, ◌&&◌, List, [], ◌∷◌, text_eq,
  ◌==◌, length, if◌then◌else◌,
}
use falcon_smart_account.Prelude.Int.{ℤ, sub_ℕ}
use falcon_smart_account.Js.{Str, codes, data_hex}
use falcon_smart_account.Outcome.{
  Outcome, ok, throws, ◌>>=◌, undefined_value, reverted, some_ops_failed,
}
use falcon_smart_account.Ethers.{Ethers}
use falcon_smart_account.UserOp.Types.{PackedUserOperation, PartialOp, empty_op, address_zero}
use falcon_smart_account.UserOp.Fill.{EntryPointClient}
use falcon_smart_account.UserOp.Sign.{Wallet, fill_sign_and_pack}

-- `GasTestInfo`, once the defaults are filled in.
pub record GasTestInfo : Type 0 where
  pub title : Str
  pub diff_last_gas : Bool
  pub paymaster : Option Str
  pub count : ℕ
  pub dest : Str
  pub dest_value : ℕ
  pub dest_call_data : Str
  pub beneficiary : Str
  pub gas_price : ℕ

-- The keys that a test gives; `none` is a missing key.
pub record GasTestParams : Type 0 where
  pub title : Str
  pub diff_last_gas : Bool
  pub paymaster : Option Str
  pub count : ℕ
  pub dest : Option Str
  pub dest_value : Option ℕ
  pub dest_call_data : Option Str
  pub beneficiary : Option Str
  pub gas_price : Option ℕ

-- `value ?? default`
abbrev or_default {ℓ} : {A : Type ℓ} → Option A → A → A
or_default none a = a
or_default (some b) a = b

-- `{ ...DefaultGasTestInfo, ...params }`, with the beneficiary that `_init` has set.
unfoldable pub test_info : Str → GasTestParams → GasTestInfo
test_info beneficiary params = record {
  title = params.title;
  diff_last_gas = params.diff_last_gas;
  paymaster = params.paymaster;
  count = params.count;
  dest = or_default params.dest (codes "self");
  dest_value = or_default params.dest_value 0;
  dest_call_data = or_default params.dest_call_data (codes "0xb0d691fe");
  beneficiary = or_default params.beneficiary beneficiary;
  gas_price = or_default params.gas_price 10000000000;
}

-- A saved estimate, and `gasEstimatePerExec`, its keys in the order in which they were added.
pub record Estimate : Type 0 where
  pub title : Str
  pub account_est : ℕ

abbrev pub Estimates : Type 0
Estimates = List (Str × Estimate)

unfoldable pub saved : Estimates → Str → Option Estimate
saved [] key = none
saved ((k, est) ∷ rest) key = if text_eq k key then some est else saved rest key

-- What `runTest` asks of others: the account's `execute` call, the node's estimate of a call from
-- the entry point, and an address for `random`.
pub record RunBackend : Type 0 where
  pub encode_execute : Str → ℕ → Str → Str
  pub estimate_exec : Str → Str → Outcome ℕ
  pub random_dest : Str → Str
  pub owner : Wallet
  pub entry_point : EntryPointClient
  pub network : Outcome ℕ

module _ (e : Ethers) (b : RunBackend) (info : GasTestInfo) where
  -- `dest` for an account
  unfoldable pub dest_of : Str → Str
  dest_of account =
      if text_eq info.dest (codes "self")
      then account
      else (if text_eq info.dest (codes "random") then b.random_dest account else info.dest)

  -- `accountExec(dest, destValue, destCallData)`
  unfoldable pub exec_data : Str → Str
  exec_data dest = b.encode_execute dest info.dest_value info.dest_call_data

  -- The estimate that a callback has: what it finds saved under the key with no destination, or the
  -- node's answer.
  unfoldable pub estimate_of : (Str → Estimates) → Str → Outcome Estimate
  estimate_of seen account = elim (saved (seen account) (exec_data address_zero)) [
    | some est ↦ ok est
    | none ↦ b.estimate_exec account (exec_data (dest_of account)) >>= λ account_est.
        ok (record { title = info.title; account_est = account_est })
  ]

  -- A callback's operation.
  unfoldable pub test_op : Estimate → Str → Outcome PackedUserOperation
  test_op est account =
      fill_sign_and_pack e
        (record empty_op {
          sender = some account;
          call_data = some (exec_data (dest_of account));
          max_priority_fee_per_gas = some info.gas_price;
          max_fee_per_gas = some info.gas_price;
          call_gas_limit = some est.account_est;
          verification_gas_limit = some 1000000;
          paymaster = info.paymaster;
          paymaster_verification_gas_limit = some 50000;
          paymaster_post_op_gas_limit = some 50000;
          pre_verification_gas = some 1;
        })
        b.owner (some b.entry_point) b.network

  -- `Promise.all` over the first accounts; an index past them is destructured from `undefined`.
  unfoldable pub test_ops : (Str → Estimates) → ℕ → List Str → Outcome (List PackedUserOperation)
  test_ops seen zero accounts = ok []
  test_ops seen (suc n) [] = throws undefined_value
  test_ops seen (suc n) (account ∷ accounts) = do
    est ← estimate_of seen account
    op ← test_op est account
    ops ← test_ops seen n accounts
    ok (op ∷ ops)

  -- The variable `accountEst`, as the last callback that had its estimate left it.
  unfoldable pub account_est_after : (Str → Estimates) → List Str → ℕ → Outcome ℕ
  account_est_after seen [] before = ok before
  account_est_after seen (account ∷ answered) before = do
    est ← estimate_of seen account
    account_est_after seen answered est.account_est

-- An event of the receipt, as far as the checks tell them apart.
pub data Event : Type 0 where
  user_operation_event : Bool → Event
  revert_reason : ℕ → Event
  other_event : Event

pub record Receipt : Type 0 where
  pub gas_used : ℕ
  pub events : List Event

-- `gasEst.mul(3).div(2)`, the bundle's gas limit
unfoldable pub bundle_gas_limit : ℕ → ℕ
bundle_gas_limit gas_est = gas_est * 3 / 2

-- `countSuccessOps`
unfoldable pub count_success_ops : List Event → ℕ
count_success_ops [] = 0
count_success_ops (user_operation_event true ∷ events) = suc (count_success_ops events)
count_success_ops (_ ∷ events) = count_success_ops events

-- `.filter(… /PostOpRevertReason|UserOperationRevertReason/).find(e => { throw … })`
unfoldable pub throw_revert : List Event → Outcome (Unit {0})
throw_revert [] = ok tt
throw_revert (revert_reason reason ∷ events) = throws (reverted reason)
throw_revert (user_operation_event _ ∷ events) = throw_revert events
throw_revert (other_event ∷ events) = throw_revert events

-- A number of JavaScript that may be `NaN`.
pub data Difference : Type 0 where
  number : ℤ → Difference
  nan : Difference

-- `GasTestResult`
pub record GasTestResult : Type 0 where
  pub title : Str
  pub count : ℕ
  pub gas_used : ℕ
  pub account_est : ℕ
  pub gas_diff : Option Difference

-- `gasUsed - lastGasUsed`, where there may have been no test before.
unfoldable pub gas_diff_from : Option ℕ → ℕ → Difference
gas_diff_from none gas_used = nan
gas_diff_from (some last) gas_used = number (sub_ℕ gas_used last)

-- From the receipt on, with `lastGasUsed`; that variable's new value comes with the result.
unfoldable pub test_result :
    GasTestInfo → ℕ → ℕ → Receipt → Option ℕ → Outcome GasTestResult × Option ℕ
test_result info op_count account_est receipt last = elim (throw_revert receipt.events) [
  | throws err ↦ (throws err, last)
  | ok _ ↦
      if count_success_ops receipt.events == op_count
      then (
        ok (record {
          title = info.title;
          count = info.count;
          gas_used = receipt.gas_used;
          account_est = account_est;
          gas_diff =
              if info.diff_last_gas then some (gas_diff_from last receipt.gas_used) else none;
        }),
        some receipt.gas_used,
      )
      else (throws some_ops_failed, last)
]
