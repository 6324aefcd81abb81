-- ===== src/GasCheck/Run/Result.antt =====
-- What a test of gascalc/GasChecker.ts reports, and what it leaves when it fails.
use mathlib.Core.Path.{subst}
use falcon_smart_account.UserOp.Signed.{pack_user_op-call, fill_sign_and_pack_lem}
use falcon_smart_account.UserOp.Keeps.{fill_user_op-Honours}
use falcon_smart_account.Prelude.{
  ℕ, zero, suc, ◌*◌, ◌/◌, ◌≡◌, ◌≢◌, ◌⊎◌, inl, inr, refl, sym, ap, ◌∙◌, Option, some, List, [], ◌∷◌,
  length, All, ◌==◌, ==_iff, Bool-cases,
}
use falcon_smart_account.Js.{Str}
use falcon_smart_account.Outcome.{
  Error, Outcome, ok, throws, ◌>>=◌, >>=-eq-ok, ok-injective, Outcome-cases,
}
use falcon_smart_account.Ethers.{Ethers}
use falcon_smart_account.UserOp.Types.{PackedUserOperation}
use falcon_smart_account.GasCheck.Accounts.{GasBackend, Checker, create_accounts}
use falcon_smart_account.GasCheck.Run.{
  GasTestInfo, Estimate, Estimates, dest_of, exec_data, RunBackend, test_op, estimate_of, test_ops,
  account_est_after, Event, user_operation_event, revert_reason, other_event, Receipt,
  bundle_gas_limit, count_success_ops, throw_revert, GasTestResult, test_result,
}
use falcon_smart_account.GasCheck.Run.Scenario.{
  BundleBackend, Ran, replenish, send_bundle, prepare, with_accounts, run_test,
}

abbrev pub IsNoRevert : Event → Type 0
IsNoRevert event = (reason : ℕ) → event ≢ revert_reason reason

throw_revert-ok : (events : List Event) → throw_revert events ≡ ok tt → All IsNoRevert events
unfolding throw_revert
throw_revert-ok [] h = tt
throw_revert-ok (revert_reason reason ∷ events) h = cc
throw_revert-ok (user_operation_event success ∷ events) h =
    (λ reason e. cc, throw_revert-ok events h)
throw_revert-ok (other_event ∷ events) h = (λ reason e. cc, throw_revert-ok events h)

-- A receipt that a result can be made of.
record IsPassed (info : GasTestInfo) (op_count : ℕ) (receipt : Receipt) (r : GasTestResult)
    : Type 0 where
  successes : count_success_ops receipt.events ≡ op_count
  no_revert : All IsNoRevert receipt.events
  gas_used : r.gas_used ≡ receipt.gas_used
  count : r.count ≡ info.count

abbrev Ends : GasTestInfo → ℕ → Receipt → Option ℕ → Outcome GasTestResult × Option ℕ → Type 0
Ends info op_count receipt last ended =
    ((r : GasTestResult) × (ended.0 ≡ ok r)
      × (ended.1 ≡ some r.gas_used)
      × IsPassed info op_count receipt r)
    ⊎ ((err : Error) × (ended.0 ≡ throws err) × (ended.1 ≡ last))

test_result-Ends :
    (info : GasTestInfo) (op_count account_est : ℕ) (receipt : Receipt) (last : Option ℕ)
    → Ends info op_count receipt last (test_result info op_count account_est receipt last)
unfolding test_result
test_result-Ends info op_count account_est receipt last =
    elim (Outcome-cases (throw_revert receipt.events)) [
      | inr (err, reverts) ↦ rw (reverts, test_result) (inr (err, refl, refl))
      | inl (_, quiet) ↦ elim (Bool-cases (count_success_ops receipt.events == op_count)) [
        | inr fewer ↦ rw (quiet, fewer, test_result) (inr (_, refl, refl))
        | inl all ↦
            rw (quiet, all, test_result)
              (inl (
                _,
                refl,
                refl,
                record {
                  successes = (==_iff (count_success_ops receipt.events) op_count).0 all;
                  no_revert = throw_revert-ok receipt.events quiet;
                  gas_used = refl;
                  count = refl;
                },
              ))
      ]
    ]

module _ (e : Ethers) (b : RunBackend) (info : GasTestInfo) where
  -- An operation of an account: the account sends it, and it executes the test's call.
  pub record IsTestOp (account : Str) (op : PackedUserOperation) : Type 0 where
    pub sender : op.sender ≡ account
    pub call : op.call_data ≡ exec_data e b info (dest_of e b info account)

  -- One operation for each of the first accounts, in their order.
  unfoldable pub AreTestOps : ℕ → List Str → List PackedUserOperation → Type 0
  AreTestOps zero accounts [] = Unit
  AreTestOps zero accounts (op ∷ ops) = ⊥
  AreTestOps (suc n) [] ops = ⊥
  AreTestOps (suc n) (account ∷ accounts) [] = ⊥
  AreTestOps (suc n) (account ∷ accounts) (op ∷ ops) =
      IsTestOp account op × AreTestOps n accounts ops

  test_op-IsTestOp :
      (est : Estimate) (account : Str) (op : PackedUserOperation)
      → test_op e b info est account ≡ ok op
      → IsTestOp account op
  unfolding test_op
  test_op-IsTestOp est account op h =
      let (filled, packed, _, _, fills, _, _, packs, _, same) =
        fill_sign_and_pack_lem e _ b.owner (some b.entry_point) b.network h in
      let honours = fill_user_op-Honours e (some b.entry_point) _ fills in
      let (sender, call) = pack_user_op-call e filled packs in
      record {
        sender = ap (λ (p : PackedUserOperation). p.sender) same ∙ sender ∙ honours.sender;
        call = ap (λ (p : PackedUserOperation). p.call_data) same ∙ call ∙ honours.call_data;
      }

  test_ops-AreTestOps :
      (seen : Str → Estimates) (n : ℕ) (accounts : List Str) (ops : List PackedUserOperation)
      → test_ops e b info seen n accounts ≡ ok ops
      → AreTestOps n accounts ops
  unfolding test_ops AreTestOps
  test_ops-AreTestOps seen zero accounts ops h =
      subst (AreTestOps zero accounts) (ok-injective h) tt
  test_ops-AreTestOps seen (suc n) [] ops h = cc
  test_ops-AreTestOps seen (suc n) (account ∷ accounts) ops h =
      let (est, _, h1) = >>=-eq-ok (estimate_of e b info seen account) _ h in
      let (op, made, h2) = >>=-eq-ok (test_op e b info est account) _ h1 in
      let (rest, more, h3) = >>=-eq-ok (test_ops e b info seen n accounts) _ h2 in
      subst (AreTestOps (suc n) (account ∷ accounts)) (ok-injective h3)
        (test_op-IsTestOp est account op made, test_ops-AreTestOps seen n accounts rest more)

module _ (e : Ethers) {W : Type 0} (g : GasBackend W) (b : RunBackend) (c : BundleBackend W) where
  length-test_ops :
      (info : GasTestInfo) (seen : Str → Estimates) (n : ℕ) (accounts : List Str)
      (ops : List PackedUserOperation)
      → test_ops e b info seen n accounts ≡ ok ops
      → length ops ≡ n
  unfolding test_ops
  length-test_ops info seen zero accounts ops h = ap length (sym (ok-injective h))
  length-test_ops info seen (suc n) [] ops h = cc
  length-test_ops info seen (suc n) (account ∷ accounts) ops h =
      let (est, _, h1) = >>=-eq-ok (estimate_of e b info seen account) _ h in
      let (op, _, h2) = >>=-eq-ok (test_op e b info est account) _ h1 in
      let (rest, more, h3) = >>=-eq-ok (test_ops e b info seen n accounts) _ h2 in
      ap length (sym (ok-injective h3)) ∙ ap suc (length-test_ops info seen n accounts rest more)

  -- The bundle of a test that has a result: an operation for each account, sent with half as much
  -- gas again as was estimated, each a success and none with a revert reason.
  pub record IsReported (info : GasTestInfo) (accounts : List Str) (r : GasTestResult)
      : Type 0 where
    pub ops : List PackedUserOperation
    pub before : W
    pub gas_est : ℕ
    pub receipt : Receipt
    pub op_count : length ops ≡ info.count
    pub test_ops : AreTestOps e b info info.count accounts ops
    pub estimated : c.estimate_handle_ops ops info.beneficiary before ≡ ok gas_est
    pub sent : (c.send_handle_ops ops info.beneficiary (gas_est * 3 / 2) before).0 ≡ ok receipt
    pub successes : count_success_ops receipt.events ≡ info.count
    pub no_revert : All IsNoRevert receipt.events
    pub gas_used : r.gas_used ≡ receipt.gas_used
    pub count : r.count ≡ info.count

  abbrev pub Reports : GasTestInfo → Option ℕ → Ran W → Type 0
  Reports info last ran =
      ((r : GasTestResult) × (ran.result ≡ ok r)
        × (ran.last_gas_used ≡ some r.gas_used)
        × IsReported info ran.checker.accounts r)
      ⊎ ((err : Error) × (ran.result ≡ throws err) × (ran.last_gas_used ≡ last))

  send_bundle-Reports :
      (info : GasTestInfo) (ops : List PackedUserOperation) (account_est : ℕ) (s : Checker) (w : W)
      (last : Option ℕ)
      → length ops ≡ info.count
      → AreTestOps e b info info.count s.accounts ops
      → Reports info last (send_bundle e g b c info ops account_est s w last)
  unfolding bundle_gas_limit send_bundle
  send_bundle-Reports info ops account_est s w last all made_ops =
      elim (Outcome-cases (c.estimate_handle_ops ops info.beneficiary w)) [
        | inr (err, failed) ↦ rw (failed, send_bundle) (inr (err, refl, refl))
        | inl (gas_est, estimated) ↦
            let sending = c.send_handle_ops ops info.beneficiary (gas_est * 3 / 2) w in
            elim (Outcome-cases sending.0) [
              | inr (err, failed) ↦
                  rw (estimated, failed, bundle_gas_limit, send_bundle) (inr (err, refl, refl))
              | inl (receipt, sent) ↦
                  elim (test_result-Ends info (length ops) account_est receipt last) [
                    | inr (err, failed, kept) ↦
                        rw (estimated, sent, bundle_gas_limit, send_bundle)
                          (inr (err, failed, kept))
                    | inl (r, made, updated, passed) ↦
                        rw (estimated, sent, bundle_gas_limit, send_bundle)
                          (inl (
                            r,
                            made,
                            updated,
                            record {
                              ops = ops;
                              before = w;
                              gas_est = gas_est;
                              receipt = receipt;
                              op_count = all;
                              test_ops = made_ops;
                              estimated = estimated;
                              sent = sent;
                              successes = passed.successes ∙ all;
                              no_revert = passed.no_revert;
                              gas_used = passed.gas_used;
                              count = passed.count;
                            },
                          ))
                  ]
            ]
      ]

  prepare-AreTestOps :
      (info : GasTestInfo) (seen : Str → Estimates) (answered : List Str) (s : Checker)
      (paid : Outcome (Unit {0})) (ops : List PackedUserOperation) (account_est : ℕ)
      → (paid >>= λ _. prepare e g b c info seen answered s) ≡ ok (ops, account_est)
      → (length ops ≡ info.count) × AreTestOps e b info info.count s.accounts ops
  unfolding prepare
  prepare-AreTestOps info seen answered s (throws err) ops account_est h = cc
  prepare-AreTestOps info seen answered s (ok _) ops account_est h =
      let (made, all, h1) = >>=-eq-ok (test_ops e b info seen info.count s.accounts) _ h in
      let (est, _, h2) = >>=-eq-ok (account_est_after e b info seen answered 0) _ h1 in
      let same = ap (λ (r : List PackedUserOperation × ℕ). r.0) (ok-injective h2) in
      (
        ap length (sym same) ∙ length-test_ops info seen info.count s.accounts made all,
        subst (AreTestOps e b info info.count s.accounts) same
            (test_ops-AreTestOps e b info seen info.count s.accounts made all),
      )

  with_accounts-Reports :
      (info : GasTestInfo) (seen : Str → Estimates) (answered : List Str) (s : Checker) (w : W)
      (last : Option ℕ)
      → Reports info last (with_accounts e g b c info seen answered s w last)
  unfolding with_accounts
  with_accounts-Reports info seen answered s w last =
      let (paid, w1) = replenish e g b c info info.count s.accounts w in
      elim (Outcome-cases (paid >>= λ _. prepare e g b c info seen answered s)) [
        | inr (err, failed) ↦ rw (failed, with_accounts) (inr (err, refl, refl))
        | inl ((ops, account_est), prepared) ↦
            rw (prepared, with_accounts)
              (let (all, made_ops) =
                  prepare-AreTestOps info seen answered s paid ops account_est prepared in
                send_bundle-Reports info ops account_est s w1 last all made_ops)
      ]

  -- A test either has a result or throws. With a result, it sent one operation for each of the
  -- first `count` accounts that the checker knows, in their order, the account its sender and its
  -- call data the test's call to the account's destination, in one bundle, with the gas limit at half as much again as the estimate; each
  -- succeeded, no event had a revert reason, and the gas of the result is the receipt's and the next
  -- test's `lastGasUsed`. When it throws, `lastGasUsed` is what it was.
  pub run_test-Reports :
      (info : GasTestInfo) (seen : Str → Estimates) (answered : List Str) (s : Checker) (w : W)
      (last : Option ℕ)
      → Reports info last (run_test e g b c info seen answered s w last)
  unfolding run_test
  run_test-Reports info seen answered s w last =
      elim (Outcome-cases (create_accounts e g info.count s w).0) [
        | inr (err, failed) ↦ rw (failed, run_test) (inr (err, refl, refl))
        | inl (_, created) ↦
            rw (created, run_test) (with_accounts-Reports info seen answered _ _ last)
      ]
