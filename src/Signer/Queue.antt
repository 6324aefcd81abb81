-- ===== src/Signer/Queue.antt =====
-- `queueUserOpSender` and `sendQueuedUserOps` of src/AASigner.ts. A push runs without
-- interruption up to its first `await`; the look-up of the beneficiary and the call of `handleOps`
-- are in flight from there until they settle, and other calls may come in between.
pub mod Collect
pub mod Order
pub mod Runs
use mathlib.Core.Option
use falcon_smart_account.Prelude.{
  ℕ, zero, suc, ◌+◌, ◌-◌, Option, none, some, Bool, true, false, ◌||◌, List, [], ◌∷◌, ◌++◌, text_eq,
  ltb, if◌then◌else◌,
}
use falcon_smart_account.Js.{Str}
use falcon_smart_account.Outcome.{Error, Outcome, ok, throws}
use falcon_smart_account.Ethers.{Ethers}
use falcon_smart_account.UserOp.Types.{UserOperation, PackedUserOperation}
use falcon_smart_account.UserOp.Pack.{pack_user_op}

-- `queue: { [sender: string]: UserOperation[] }`, in the order in which the keys were made.
abbrev pub OpQueue : Type 0
OpQueue = List (Str × List UserOperation)

-- A count or a time in a property that may never have been set: `none` is undefined or NaN, which
-- arithmetic keeps and every comparison answers with false.
abbrev pub JsNumber : Type 0
JsNumber = Option ℕ

abbrev pub less_than : JsNumber → ℕ → Bool
less_than none b = false
less_than (some a) b = ltb a b

abbrev pub more_than : JsNumber → ℕ → Bool
more_than none b = false
more_than (some a) b = ltb b a

-- The sender object, the module's `sending` flag, which is part of it as for the module's one
-- sender, and the timer's period.
pub record QueueSender : Type 0 where
  pub queue : OpQueue
  pub queue_size : JsNumber
  pub last_queue_update : JsNumber
  pub interval : Option ℕ
  pub sending : Bool

-- `IDLE_TIME` and `BUNDLE_SIZE_IMMEDIATE`
abbrev pub idle_time : ℕ
idle_time = 5000

abbrev pub bundle_size_immediate : ℕ
bundle_size_immediate = 3

unfoldable pub push_op : UserOperation → OpQueue → OpQueue
push_op op [] = (op.sender, op ∷ []) ∷ []
push_op op ((sender, ops) ∷ queue) =
    if text_eq op.sender sender
    then (sender, ops ++ op ∷ []) ∷ queue
    else (sender, ops) ∷ push_op op queue

-- The sender function itself, called at the time `now`.
unfoldable pub enqueue : UserOperation → ℕ → QueueSender → QueueSender
enqueue op now s = record s {
  queue = push_op op s.queue;
  last_queue_update = some now;
  queue_size = Option.map (λ n. n + 1) s.queue_size;
}

-- `cancelInterval` and `setInterval`
unfoldable pub cancel_interval : QueueSender → QueueSender
cancel_interval s = record s { interval = none }

unfoldable pub set_interval : ℕ → QueueSender → QueueSender
unfolding cancel_interval
set_interval interval_ms s = record (cancel_interval s) { interval = some interval_ms }

-- `queueUserOpSender(entryPointAddress, signer, intervalMs)`, where the flag is the module's. Of
-- the fields only `queue` is set: `queueSize` and `lastQueueUpdate` are undefined.
unfoldable pub queue_user_op_sender : Option ℕ → Bool → QueueSender
unfolding set_interval
queue_user_op_sender interval_ms sending =
    let fresh : QueueSender = record {
      queue = [];
      queue_size = none;
      last_queue_update = none;
      interval = none;
      sending = sending;
    } in
    elim interval_ms [ none ↦ fresh | some ms ↦ set_interval ms fresh ]

-- What the loop over the senders did: one operation shifted off each queue that had one and packed,
-- up to the first that does not pack.
pub record Collected : Type 0 where
  pub queue : OpQueue
  pub ops : List PackedUserOperation
  pub taken : ℕ
  pub failure : Option Error

take_op : Str → List UserOperation → PackedUserOperation → Collected → Collected
take_op sender rest p c = record c {
  queue = (sender, rest) ∷ c.queue;
  ops = p ∷ c.ops;
  taken = suc c.taken;
}

unfoldable pub collect : Ethers → OpQueue → Collected
unfolding take_op
collect e [] = record { queue = []; ops = []; taken = 0; failure = none }
collect e ((sender, []) ∷ queue) =
    let c = collect e queue in record c { queue = (sender, []) ∷ c.queue }
collect e ((sender, op ∷ rest) ∷ queue) =
    let c = collect e queue in
    elim (pack_user_op e op) [
      | ok p ↦ take_op sender rest p c
      | throws err ↦ record {
        queue = (sender, rest) ∷ queue;
        ops = [];
        taken = 0;
        failure = some err;
      }
    ]

-- How a push goes up to its first `await`.
pub data Push : Type 0 where
  in_progress waiting nothing_to_send : Push
  failed : Error → Push
  -- `handleOps` is to be called with these
  sent : List PackedUserOperation → Push

unfoldable pub push_collected : QueueSender → Collected → QueueSender × Push
push_collected s c =
    let s' = record s {
      queue = c.queue;
      queue_size = Option.map (λ n. n - c.taken) s.queue_size;
    } in
    elim c.failure [
      | some err ↦ (record s' { sending = false }, failed err)
      | none ↦ elim c.ops [
        | [] ↦ (record s' { sending = false }, nothing_to_send)
        | p ∷ ps ↦ (record s' { sending = true }, sent (p ∷ ps))
      ]
    ]

-- `sendQueuedUserOps` up to its first `await`, at the time `now`.
unfoldable pub push : Ethers → ℕ → QueueSender → QueueSender × Push
unfolding push_collected
push e now s =
    if s.sending
    then (s, in_progress)
    else (if less_than s.queue_size bundle_size_immediate
          || more_than (Option.map (λ n. n + idle_time) s.last_queue_update) now
        then (record s { sending = false }, waiting)
        else push_collected s (collect e s.queue))

-- The `finally` block, when the call in flight has settled, whether it was mined or threw.
unfoldable pub settle : QueueSender → QueueSender
settle s = record s { sending = false }
