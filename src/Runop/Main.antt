-- ===== src/Runop/Main.antt =====
-- src/runop.ts: a counter is called twice through an account, which is given ether and a deposit
-- first. The deployments, the node and the contracts are parameters; what is only printed is left
-- out, but the number that the printing of the balance paid asks for is not.

use falcon_smart_account.Prelude.{
  ℕ, ◌*◌, ◌^◌, Option, none, some, Bool, true, false, ◌&&◌, List, [], ◌∷◌, leb, ◌==◌, if◌then◌else◌,
}
use falcon_smart_account.Prelude.Int.{ℤ, sub_ℕ}
use falcon_smart_account.Js.{Str, codes}
use falcon_smart_account.Js.Decimal.{decimal, text_lt}
use falcon_smart_account.Outcome.{Outcome, ok, throws}
use falcon_smart_account.Action.{Action, ◌>>=◌, lift}
use falcon_smart_account.Ethers.{Ethers}
use falcon_smart_account.UserOp.Types.{UserOperation, PackedUserOperation}
use falcon_smart_account.UserOp.Fill.{EntryPointClient}
use falcon_smart_account.UserOp.Sign.{Wallet}
use falcon_smart_account.Signer.Account.{
  Backend, AaSigner, TransactionRequest, new_signer, get_address,
}
use falcon_smart_account.Signer.Send.{JsValue, RpcProvider, Overrides, rpc_send, local_send}
use falcon_smart_account.Signer.Transaction.{TransactionResponse, big_to_number, send_transaction}
use falcon_smart_account.Runop.Events.{EventInfo, signed_to_number, event_infos}

-- `process.env`: `AA_URL`, whether `FORCE_DEPLOY` is a text that is not empty, and `AA_INDEX` read
-- as a number.
pub record Environment : Type 0 where
  pub aa_url : Option Str
  pub force_deploy : Bool
  pub aa_index : ℕ

pub record Receipt : Type 0 where
  pub block_number : ℕ
  pub gas_used : ℕ

-- The runtime environment, the node and the contracts; what a state answers, and what changes it.
pub record RunBackend (W : Type 0) : Type 0 where
  pub run_task : Str → Action W (Unit {0})
  pub chain_id : W → Outcome Str
  pub deployment : W → Str → Outcome Str
  pub signer_address : W → Outcome Str
  pub get_balance : W → Str → Outcome ℕ
  pub send_value : Str → ℕ → Action W (Unit {0})
  -- the node at a URL, and the entry points that it supports
  pub rpc_provider : W → Str → RpcProvider
  pub supported_entry_points : W → Str → Outcome (List Str)
  -- the entry point's `balanceOf`, `depositTo` and `handleOps`
  pub balance_of : W → Str → Outcome ℕ
  pub deposit_to : Str → ℕ → Action W (Unit {0})
  pub handle_ops : W → List PackedUserOperation → Str → Overrides → Outcome (Unit {0})
  -- what the account's signer asks in a state
  pub backend : W → Backend
  pub wallet : Wallet
  pub entry_point : W → EntryPointClient
  pub chain : W → Outcome ℕ
  pub encode_justemit : Str
  pub estimate_justemit : W → Str → Outcome ℕ
  -- `wait()` of a response; the state goes on meanwhile
  pub wait : TransactionResponse → Action W Receipt
  pub network_name : W → Outcome Str
  -- `queryFilter` for a block: all events, and the nonce and the gas of the operations' events
  pub all_events : W → ℕ → Outcome (Unit {0})
  pub user_operation_events : W → ℕ → Outcome (List (ℕ × ℕ))

-- The world, the account's signer, and the chain id that the RPC sender keeps.
pub record RunState (W : Type 0) : Type 0 where
  pub world : W
  pub signer : AaSigner
  pub sent_chain : Option ℕ

-- `chainId.match(/1337/) == null`
starts_with : Str → Str → Bool
starts_with [] s = true
starts_with (c ∷ cs) [] = false
starts_with (c ∷ cs) (d ∷ ds) = (c == d) && starts_with cs ds

unfoldable pub contains : Str → Str → Bool
unfolding starts_with
contains pattern [] = starts_with pattern []
contains pattern (c ∷ cs) =
    let rest = contains pattern cs in if starts_with pattern (c ∷ cs) then true else rest

-- `parseEther('0.01')` and `parseEther('0.005')`
abbrev pub min_balance : ℕ
min_balance = 10 ^ 16

abbrev pub min_deposit : ℕ
min_deposit = 5 * 10 ^ 15

-- `balance < parseEther('0.01')` of two objects, which are compared as their texts.
unfoldable pub is_low_balance : ℕ → Bool
is_low_balance balance = text_lt (decimal balance) (decimal min_balance)

abbrev pub reading : {W A : Type 0} → (W → Outcome A) → Action W A
reading f w = (f w, w)

-- A step of the world alone.
abbrev pub in_world : {W A : Type 0} → Action W A → Action (RunState W) A
in_world step s = let (r, w) = step s.world in (r, record s { world = w })

module _ {W : Type 0} (env : Environment) (b : RunBackend W) where
  verify_unless_local : Str → Action W (Unit {0})
  verify_unless_local id =
      if contains (codes "1337") id then lift (ok tt) else b.run_task (codes "etherscan-verify")

  run_deploy : Action W (Unit {0})
  run_deploy = do _ ← b.run_task (codes "deploy"); id ← reading b.chain_id; verify_unless_local id

  -- Contracts are deployed where no node is named, unless that is forbidden.
  unfoldable pub deploy_first : Action W (Unit {0})
  unfolding run_deploy verify_unless_local
  deploy_first = elim env.aa_url [
    | some url ↦ lift (ok tt)
    | none ↦ if env.force_deploy then lift (ok tt) else run_deploy
  ]

  -- The supported entry points are asked for; a missing one is only reported.
  unfoldable pub ask_supported : Action W (Unit {0})
  ask_supported = elim env.aa_url [
    | none ↦ lift (ok tt)
    | some url ↦ do _ ← reading (λ w. b.supported_entry_points w url); lift (ok tt)
  ]

  -- Ether for the account, if its balance is low.
  unfoldable pub prefund_account : Str → Action W (Unit {0})
  prefund_account address = do
    balance ← reading (λ w. b.get_balance w address)
    if is_low_balance balance then b.send_value address min_balance else lift (ok tt)

  deposit_now : Str → Action W ℕ
  deposit_now address = do _ ← b.deposit_to address (10 ^ 16); reading (λ w. b.balance_of w address)

  -- A deposit of 0.01 for an account that has at most 0.005; the deposit that it has then.
  unfoldable pub deposit_for : Str → Action W ℕ
  unfolding deposit_now
  deposit_for address = do
    before ← reading (λ w. b.balance_of w address)
    _ ← reading (λ w. b.get_balance w address)
    if leb before min_deposit then deposit_now address else lift (ok before)

  -- The chain id that an RPC sender keeps once it has asked.
  unfoldable pub chain_after : W → Option ℕ → Option ℕ
  chain_after w (some id) = some id
  chain_after w none = elim env.aa_url [
    | none ↦ none
    | some url ↦ elim (b.rpc_provider w url).get_network [ throws err ↦ none | ok id ↦ some id ]
  ]

  -- `aasigner.getAddress()`
  signer_get_address : Action (RunState W) Str
  signer_get_address s =
      let (r, signer) = get_address (b.backend s.world) s.signer in
      (r, record s { signer = signer })

  -- `evInfo(rcpt)`
  unfoldable pub ev_info : ℤ → Receipt → Action W (List EventInfo)
  ev_info gas_paid receipt = do
    events ← reading (λ w. b.user_operation_events w receipt.block_number)
    lift (event_infos gas_paid receipt.gas_used events)

  unfoldable pub estimate : Str → Action W ℕ
  estimate counter = do gas ← reading (λ w. b.estimate_justemit w counter); lift (big_to_number gas)

module _ (e : Ethers) (hex_js : JsValue → Str) (hex_value : Str → Str) {W : Type 0}
    (env : Environment) (b : RunBackend W) where
  -- `rpcUserOpSender` or `localUserOpSender`
  unfoldable pub sender_for : W → Str → Option ℕ → UserOperation → Outcome (Unit {0})
  sender_for w entry_point sent_chain op = elim env.aa_url [
    | some url ↦ (rpc_send hex_js (b.rpc_provider w url) entry_point op sent_chain).0
    | none ↦ local_send e (b.handle_ops w) (b.signer_address w) none op
  ]

  -- `testCounter.justemit()` through the account.
  unfoldable pub send_justemit : Str → Str → Action (RunState W) TransactionResponse
  send_justemit entry_point counter s =
      let tx : TransactionRequest = record {
        to = counter;
        value = none;
        call_data = b.encode_justemit;
        nonce = none;
        gas_limit = none;
        gas_price = none;
        max_fee_per_gas = none;
        max_priority_fee_per_gas = none;
      } in
      let (r, signer) =
        send_transaction e hex_value (b.entry_point s.world) (b.backend s.world) b.wallet
          (b.chain s.world) (sender_for s.world entry_point s.sent_chain) tx s.signer in
      (r, record s { signer = signer; sent_chain = chain_after env b s.world s.sent_chain })

  -- The call, mined.
  unfoldable pub count_once : Str → Str → Action (RunState W) Receipt
  unfolding send_justemit
  count_once entry_point counter = do
    response ← send_justemit entry_point counter
    in_world (b.wait response)

  -- The second half, with the account's balance and deposit before it: two calls, with what is
  -- printed of their events.
  unfoldable pub count_twice :
      Str → Str → Str → ℕ → ℕ → Action (RunState W) (List EventInfo × List EventInfo)
  unfolding count_once ev_info
  count_twice entry_point counter address balance deposit = do
    receipt ← count_once entry_point counter
    _ ← in_world (reading b.network_name)
    balance1 ← in_world (reading (λ w. b.get_balance w address))
    deposit1 ← in_world (reading (λ w. b.balance_of w address))
    _ ← lift (signed_to_number (sub_ℕ balance balance1))
    _ ← in_world (reading (λ w. b.all_events w receipt.block_number))
    first ← in_world (ev_info env b (sub_ℕ balance balance1) receipt)
    receipt2 ← count_once entry_point counter
    second ← in_world (ev_info env b (sub_ℕ balance balance1) receipt2)
    lift (ok (first, second))

  -- The whole run, with the signer that the constructor makes for the account index.
  unfoldable pub run_op : Action (RunState W) (List EventInfo × List EventInfo)
  unfolding deploy_first ask_supported signer_get_address prefund_account deposit_for estimate
      count_twice
  run_op = do
    _ ← in_world (deploy_first env b)
    entry_point ← in_world (reading (λ w. b.deployment w (codes "EntryPoint")))
    counter ← in_world (reading (λ w. b.deployment w (codes "TestCounter")))
    _ ← in_world (reading (λ w. b.deployment w (codes "SimpleAccountFactory")))
    payer ← in_world (reading b.signer_address)
    _ ← in_world (reading (λ w. b.get_balance w payer))
    _ ← in_world (ask_supported env b)
    address ← signer_get_address env b
    _ ← in_world (prefund_account env b address)
    deposit ← in_world (deposit_for env b address)
    balance ← in_world (reading (λ w. b.get_balance w address))
    _ ← in_world (estimate env b counter)
    count_twice entry_point counter address balance deposit

-- The state that the run starts in.
abbrev pub run_start : {W : Type 0} → Environment → W → RunState W
run_start env w = record { world = w; signer = new_signer env.aa_index; sent_chain = none }
