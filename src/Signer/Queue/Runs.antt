-- ===== src/Signer/Queue/Runs.antt =====
-- Runs of the queueing sender of src/AASigner.ts: enqueued operations, pushes and settled calls in
-- any order.
use mathlib.Core.Option
use falcon_smart_account.Prelude.{
  ℕ, ◌+◌, ◌≡◌, Option, none, some, Bool, true, false, List, length, arith, if◌then◌else◌,
}
use falcon_smart_account.Ethers.{Ethers}
use falcon_smart_account.UserOp.Types.{UserOperation, PackedUserOperation}
use falcon_smart_account.Signer.Queue.{
  QueueSender, Push, in_progress, waiting, failed, sent, enqueue, set_interval, cancel_interval,
  queue_user_op_sender, collect, push_collected, push, settle, idle_time, more_than,
}
use falcon_smart_account.Signer.Queue.Collect.{
  total, IsFiled, DistinctSenders, total-collect, collect-IsFiled, collect-DistinctSenders,
  length-collect, total-push_op, push_op-IsFiled,
}

-- The sender with what has happened: the bundle whose call is in flight, and how many operations
-- were enqueued, put into a bundle that is sent, and taken off the queue in a round that threw.
pub record World : Type 0 where
  pub sender : QueueSender
  pub in_flight : Option (List PackedUserOperation)
  pub enqueued : ℕ
  pub handed : ℕ
  pub lost : ℕ

abbrev pub initial : Option ℕ → World
initial interval_ms = record {
  sender = queue_user_op_sender interval_ms false;
  in_flight = none;
  enqueued = 0;
  handed = 0;
  lost = 0;
}

-- How many operations a round takes that ends by throwing.
abbrev pub lost_by : Ethers → World → Push → ℕ
lost_by e w (failed _) = (collect e w.sender.queue).taken + 1
lost_by e w _ = 0

abbrev pub flight_after : World → Push → Option (List PackedUserOperation)
flight_after w (sent ps) = some ps
flight_after w _ = w.in_flight

abbrev pub handed_by : Push → ℕ
handed_by (sent ps) = length ps
handed_by _ = 0

abbrev pub after_push : Ethers → World → QueueSender × Push → World
after_push e w (s, outcome) = record {
  sender = s;
  in_flight = flight_after w outcome;
  enqueued = w.enqueued;
  handed = w.handed + handed_by outcome;
  lost = w.lost + lost_by e w outcome;
}

pub data Step (e : Ethers) : World → World → Type 0 where
  enqueued :
      (w : World) (op : UserOperation) (now : ℕ)
      → Step e w (record w { sender = enqueue op now w.sender; enqueued = w.enqueued + 1 })
  pushed : (w : World) (now : ℕ) → Step e w (after_push e w (push e now w.sender))
  settled :
      (w : World) (ps : List PackedUserOperation)
      → w.in_flight ≡ some ps
      → Step e w (record w { sender = settle w.sender; in_flight = none })
  interval_set : (w : World) (ms : ℕ) → Step e w (record w { sender = set_interval ms w.sender })
  interval_cancelled : (w : World) → Step e w (record w { sender = cancel_interval w.sender })

pub data Reach (e : Ethers) (w : World) : World → Type 0 where
  here : Reach e w w
  next : {u v : World} → Reach e w u → Step e u v → Reach e w v

-- The flag tells whether a call is in flight.
abbrev pub FlagMatches : Bool → Option (List PackedUserOperation) → Type 0
FlagMatches sending none = sending ≡ false
FlagMatches sending (some ps) = (sending ≡ true) × DistinctSenders ps

pub record IsSafe (w : World) : Type 0 where
  pub filed : IsFiled w.sender.queue
  pub flag : FlagMatches w.sender.sending w.in_flight
  pub size : w.sender.queue_size ≡ none
  pub conserved : w.enqueued ≡ total w.sender.queue + w.handed + w.lost

module _ (e : Ethers) where
  push-IsSafe : (w : World) (now : ℕ) → IsSafe w → IsSafe (after_push e w (push e now w.sender))
  unfolding push
  push-IsSafe w now h = ground (
    arith,
    total-collect e w.sender.queue,
    collect-IsFiled e w.sender.queue h.filed,
    collect-DistinctSenders e w.sender.queue h.filed,
    length-collect e w.sender.queue,
  )

  Step-IsSafe : {w v : World} → Step e w v → IsSafe w → IsSafe v
  unfolding enqueue settle set_interval
  Step-IsSafe (enqueued w op now) h =
      ground (arith, total-push_op op w.sender.queue, push_op-IsFiled op w.sender.queue h.filed)
  Step-IsSafe (pushed w now) h = push-IsSafe w now h
  Step-IsSafe (settled w ps eq) h = ground arith
  Step-IsSafe (interval_set w ms) h = ground arith
  Step-IsSafe (interval_cancelled w) h = ground arith

  initial-IsSafe : (interval_ms : Option ℕ) → IsSafe (initial interval_ms)
  unfolding queue_user_op_sender set_interval
  initial-IsSafe none = ground arith
  initial-IsSafe (some ms) = ground arith

  pub Reach-IsSafe :
      (interval_ms : Option ℕ) {w : World} → Reach e (initial interval_ms) w → IsSafe w
  Reach-IsSafe interval_ms here = initial-IsSafe interval_ms
  Reach-IsSafe interval_ms (next r s) = Step-IsSafe s (Reach-IsSafe interval_ms r)

  -- Since `queueSize` is never a number, the threshold of three operations has no part in a push:
  -- when no call is in flight, it goes on to collect a bundle, of any size, once five seconds have
  -- passed since the last operation came, or if none ever came, and waits before that.
  pub push-timing :
      (interval_ms : Option ℕ) {w : World}
      → Reach e (initial interval_ms) w
      → (now : ℕ) → w.in_flight ≡ none
      → push e now w.sender ≡ (
          if more_than (Option.map (λ n. n + idle_time) w.sender.last_queue_update) now
          then (w.sender, waiting)
          else push_collected w.sender (collect e w.sender.queue))
  unfolding push
  push-timing interval_ms r now idle =
      let h = Reach-IsSafe interval_ms r in ground (arith, h.size, h.flag)

  -- While a call is in flight a push sends nothing and changes nothing.
  push-in_flight :
      (interval_ms : Option ℕ) {w : World}
      → Reach e (initial interval_ms) w
      → (now : ℕ) (ps : List PackedUserOperation) → w.in_flight ≡ some ps
      → push e now w.sender ≡ (w.sender, in_progress)
  unfolding push
  push-in_flight interval_ms r now ps flying =
      let h = Reach-IsSafe interval_ms r in ground (arith, h.flag)
