-- ===== src/Signer/Queue/Order.antt =====
-- The order in which the queueing sender of src/AASigner.ts serves one sender's operations, and
-- what a round does that throws.
use mathlib.Core.Option
use falcon_smart_account.Prelude.{
  ℕ, ◌+◌, ◌≡◌, refl, none, false, List, [], ◌∷◌, ◌++◌, arith, ap, some,
}
use falcon_smart_account.Js.{Str}
use falcon_smart_account.Outcome.{Error, ok, throws}
use falcon_smart_account.Ethers.{Ethers}
use falcon_smart_account.UserOp.Types.{UserOperation, PackedUserOperation}
use falcon_smart_account.UserOp.Pack.{pack_user_op}
use falcon_smart_account.Signer.Queue.{
  OpQueue, QueueSender, failed, collect, push, push_collected, more_than, idle_time,
}

-- Each queue without its first operation.
abbrev pub shifted : OpQueue → OpQueue
shifted [] = []
shifted ((sender, []) ∷ queue) = (sender, []) ∷ shifted queue
shifted ((sender, op ∷ rest) ∷ queue) = (sender, rest) ∷ shifted queue

module _ (e : Ethers) where
  -- The first operation of each queue packs, where there is one.
  abbrev pub AllPack : OpQueue → Type 0
  AllPack [] = Unit
  AllPack ((sender, []) ∷ queue) = AllPack queue
  AllPack ((sender, op ∷ rest) ∷ queue) =
      ((p : PackedUserOperation) × (pack_user_op e op ≡ ok p)) × AllPack queue

  module _ (k : Str) (bad : UserOperation) (rest : List UserOperation) (after : OpQueue)
      (err : Error) (fails : pack_user_op e bad ≡ throws err) where
    collect-shifted :
        (before : OpQueue)
        → AllPack before
        → ((collect e (before ++ (k, bad ∷ rest) ∷ after)).queue
            ≡ shifted before ++ (k, rest) ∷ after)
          × ((collect e (before ++ (k, bad ∷ rest) ∷ after)).failure ≡ some err)
    unfolding collect
    collect-shifted [] h = rw (fails, collect) (refl, refl)
    collect-shifted ((sender, []) ∷ queue) h =
        let (same, failed_so) = collect-shifted queue h in
        (ap (λ (q : OpQueue). (sender, []) ∷ q) same, failed_so)
    collect-shifted ((sender, op ∷ ops) ∷ queue) ((p, packs), h) =
        let (same, failed_so) = collect-shifted queue h in
        rw (packs, collect) (ap (λ (q : OpQueue). (sender, ops) ∷ q) same, failed_so)

    -- When no call is in flight, the size is not a number (as it always is), and the queue is not too
    -- young: if some queue's first operation does not pack, and those of all queues before it, of
    -- which there may be any number, pack or are missing, then the round throws the packing's error
    -- and sends no bundle, and the first operation has been taken off each of these queues, those
    -- that do pack included; the queues after them are as they were.
    pub push-drops :
        (s : QueueSender) (now : ℕ) (before : OpQueue)
        → s.queue ≡ before ++ (k, bad ∷ rest) ∷ after
        → s.sending ≡ false
        → s.queue_size ≡ none
        → more_than (Option.map (λ n. n + idle_time) s.last_queue_update) now ≡ false
        → AllPack before
        → push e now s ≡ (record s { queue = shifted before ++ (k, rest) ∷ after }, failed err)
    unfolding push push_collected
    push-drops s now before q f n t h = ground (arith, collect-shifted before h)
