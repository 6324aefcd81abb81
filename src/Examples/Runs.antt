-- ===== src/Examples/Runs.antt =====
-- A run of src/runop.ts for an account with 5 * 10 ^ 15 wei, half of what it should have.
use mathlib.Core.Logic.{◌↔◌}
use falcon_smart_account.Prelude.{
  ℕ, ◌+◌, ◌*◌, ◌^◌, ◌<◌, ◌≡◌, refl, ◌⊎◌, none, true, false, [], ◌∷◌, if◌then◌else◌,
}
use falcon_smart_account.Js.{codes}
use falcon_smart_account.Outcome.{ok}
use falcon_smart_account.Js.Decimal.{decimal, text_lt}
use falcon_smart_account.Runop.Main.{
  RunBackend, Environment, is_low_balance, min_balance, prefund_account,
}
use falcon_smart_account.Runop.Prefund.{prefund_account-power}
use falcon_smart_account.Examples.Accounts.{backend}
use falcon_smart_account.Examples.Values.{alice, bob, client, wallet}

abbrev here : Environment
here = record { aa_url = none; force_deploy = true; aa_index = 0 }

-- The state is the account's balance.
abbrev node : RunBackend ℕ
node = record {
  run_task = λ task w. (ok tt, w);
  chain_id = λ w. ok (codes "31337");
  deployment = λ w name. ok alice;
  signer_address = λ w. ok bob;
  get_balance = λ w address. ok w;
  send_value = λ address value w. (ok tt, w + value);
  rpc_provider = λ w url. record { get_network = ok 1; send_user_operation = λ op to. ok tt };
  supported_entry_points = λ w url. ok [];
  balance_of = λ w address. ok 0;
  deposit_to = λ address value w. (ok tt, w);
  handle_ops = λ w ops to overrides. ok tt;
  backend = λ w. backend;
  wallet = wallet;
  entry_point = λ w. client;
  chain = λ w. ok 1;
  encode_justemit = [];
  estimate_justemit = λ w counter. ok 30000;
  wait = λ response w. (ok (record { block_number = 1; gas_used = 50000 }), w);
  network_name = λ w. ok (codes "unknown");
  all_events = λ w block. ok tt;
  user_operation_events = λ w block. ok ((0, 50000) ∷ []);
}

prefund_account-power_example :
    (prefund_account here node alice (5 * 10 ^ 15) ≡ (
      if is_low_balance (5 * 10 ^ 15)
      then node.send_value alice min_balance (5 * 10 ^ 15)
      else (ok tt, 5 * 10 ^ 15)))
    × ((is_low_balance (5 * 10 ^ 15) ≡ true)
        ↔ ((5 * 10 ^ 15 ≡ 0) ⊎ ((j : ℕ) × (j < 16) × (5 * 10 ^ 15 ≡ 10 ^ j))))
prefund_account-power_example =
    prefund_account-power here node alice (5 * 10 ^ 15) (5 * 10 ^ 15) refl

-- Half of the balance that is asked for is not low.
half_not_low : is_low_balance (5 * 10 ^ 15) ≡ false
unfolding is_low_balance text_lt decimal
half_not_low = refl
