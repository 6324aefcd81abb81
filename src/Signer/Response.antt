-- ===== src/Signer/Response.antt =====
-- `userEventResponse` of src/AASigner.ts: the promise that settles with the event of an operation.
-- Each call of the listener runs on its own from one `await` to the next; other calls may come in
-- between. Filters, and what the node answers about an event, are parameters.
pub mod Meaning
pub mod Keeps
pub mod Settles
use falcon_smart_account.Prelude.{
  ℕ, ◌≡◌, Option, none, some, Bool, true, false, List, [], ◌∷◌, ◌++◌, text_eq, leb, if◌then◌else◌,
}
use falcon_smart_account.Js.{Str}
use falcon_smart_account.Outcome.{Outcome, ok, throws, ◌>>=◌}

pub record EventArgs : Type 0 where
  pub user_op_hash : Str
  pub success : Bool

pub record Receipt : Type 0 where
  pub transaction_hash : Str
  pub status : ℕ

-- A `UserOperationRevertReason` event.
pub record RevertReason : Type 0 where
  pub user_op_hash : Str
  pub reason : Str

-- A `UserOperationEvent` as the listener gets it, with what the node answers this call about it: the
-- receipt of its transaction, and the `UserOperationRevertReason` events of its block.
pub record Event : Type 0 where
  pub block_number : ℕ
  pub args : Option EventArgs
  pub receipt : Outcome Receipt
  pub revert_reasons : Outcome (List RevertReason)

pub data Settled : Type 0 where
  resolved_with : Receipt → Settled
  -- `UserOp failed with reason: …`
  rejected_with : Str → Settled

pub record Waiting : Type 0 where
  pub promise : Option Settled
  pub resolved : Bool
  pub listening : Bool

-- A promise settles once; later calls of `resolve` and `reject` do nothing.
abbrev pub settle_once : Option Settled → Settled → Option Settled
settle_once none x = some x
settle_once (some y) x = some y

-- The last three lines of the listener.
abbrev pub resolve : Receipt → Waiting → Waiting
resolve rcpt w = record {
  promise = settle_once w.promise (resolved_with rcpt);
  listening = false;
  resolved = true;
}

-- The rejection, after which the listener goes on listening.
abbrev pub reject : Str → Waiting → Waiting
reject reason w = record w { promise = settle_once w.promise (rejected_with reason) }

-- What a call of the listener waits for: the number of the current block, the receipt, or the
-- revert reasons of an operation that failed.
pub data Stage : Type 0 where
  awaiting_block : Event → Stage
  awaiting_receipt : EventArgs → Event → Stage
  awaiting_reasons : Receipt → Event → Stage

pub record State : Type 0 where
  pub waiting : Waiting
  pub running : List Stage

-- The topic that a filter has for a value in the place of `userOpHash`, or a throw.
abbrev pub Topic : Type 0
Topic = Str → Outcome Str

abbrev pub with_hash : Str → List RevertReason → List RevertReason
with_hash topic [] = []
with_hash topic (r ∷ rs) =
    let rest = with_hash topic rs in if text_eq r.user_op_hash topic then r ∷ rest else rest

-- The operation's hash and sender, and `provider.getBlockNumber()`, which is asked once.
module _ (topic : Topic) (hash sender : Str) (current_block : Outcome ℕ) where
  -- `queryFilter(filters.UserOperationRevertReason(userOp.sender), rcpt.blockHash)`: the sender is
  -- given where the filter takes the operation's hash.
  unfoldable pub query_reasons : Event → Outcome (List RevertReason)
  query_reasons ev = do t ← topic sender; reasons ← ev.revert_reasons; ok (with_hash t reasons)

  -- From the block's number to the receipt.
  abbrev pub after_args : Event → Option EventArgs → Option Stage
  after_args ev none = none
  after_args ev (some args) =
      if text_eq args.user_op_hash hash then some (awaiting_receipt args ev) else none

  abbrev pub after_block : Event → Outcome ℕ → Option Stage
  after_block ev (throws e) = none
  after_block ev (ok n) = if leb ev.block_number n then none else after_args ev ev.args

  -- From the receipt to the end, or to the revert reasons.
  abbrev pub after_receipt : EventArgs → Event → Outcome Receipt → Waiting → Waiting × Option Stage
  after_receipt args ev (throws e) w = (w, none)
  after_receipt args ev (ok rcpt) w =
      if args.success
      then (resolve rcpt w, none)
      else (w, some (awaiting_reasons (record rcpt { status = 0 }) ev))

  -- From the revert reasons to the end.
  abbrev pub after_reasons : Receipt → Outcome (List RevertReason) → Waiting → Waiting
  after_reasons rcpt (throws e) w = w
  after_reasons rcpt (ok []) w = resolve rcpt w
  after_reasons rcpt (ok (r ∷ rs)) w = reject r.reason w

  -- A call goes on to its next `await`, or to its end. One that throws ends with no effect.
  unfoldable pub resume : Stage → Waiting → Waiting × Option Stage
  unfolding query_reasons
  resume (awaiting_block ev) w = (w, after_block ev current_block)
  resume (awaiting_receipt args ev) w = after_receipt args ev ev.receipt w
  resume (awaiting_reasons rcpt ev) w = (after_reasons rcpt (query_reasons ev) w, none)

  abbrev pub continuing : Option Stage → List Stage
  continuing none = []
  continuing (some stage) = stage ∷ []

  -- One of the calls that run goes on.
  unfoldable pub continue_at : List Stage → Stage → List Stage → State → State
  unfolding resume
  continue_at before stage after st =
      let (w, next) = resume stage st.waiting in
      record { waiting = w; running = before ++ (continuing next ++ after) }

-- A call of the listener, up to its first `await`.
unfoldable pub listener : Event → State → State
listener ev st =
    if st.waiting.resolved then st else record st { running = st.running ++ awaiting_block ev ∷ [] }

abbrev pub start : State
start = record {
  waiting = record { promise = none; resolved = false; listening = true };
  running = [];
}

-- What can happen, with the events that the listener was called with, the last one first: an event
-- comes while it listens, the timer's query finds one, and a call that runs goes on.
pub data Heard (topic : Topic) (hash sender : Str) (current_block : Outcome ℕ)
    : List Event → State → Type 0 where
  starts : Heard topic hash sender current_block [] start
  event_comes :
      {evs : List Event} {st : State}
      → Heard topic hash sender current_block evs st
      → (ev : Event) → st.waiting.listening ≡ true
      → Heard topic hash sender current_block (ev ∷ evs) (listener ev st)
  timer_finds :
      {evs : List Event} {st : State}
      → Heard topic hash sender current_block evs st
      → (ev : Event) → Heard topic hash sender current_block (ev ∷ evs) (listener ev st)
  goes_on :
      {evs : List Event} {st : State}
      → Heard topic hash sender current_block evs st
      → (before : List Stage) (stage : Stage) (after : List Stage)
      → st.running ≡ before ++ stage ∷ after
      → Heard topic hash sender current_block evs
          (continue_at topic hash sender current_block before stage after st)
