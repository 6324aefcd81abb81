-- ===== src/Signer/Queue/Collect.antt =====
-- What one round of `sendQueuedUserOps` (src/AASigner.ts) takes from the queue.
use falcon_smart_account.Prelude.{
  ℕ, ◌+◌, ◌≡◌, refl, sym, ◌∙◌, Option, none, some, false, List, [], ◌∷◌, length, text_eq,
  text_eq_iff, text_eq_comm, All, All-append, arith, length-append,
}
use mathlib.Core.Path.{subst}
use mathlib.Core.Logic.{inl, inr}
use falcon_smart_account.Js.{Str}
use falcon_smart_account.Outcome.{Error, ok, Outcome-cases}
use falcon_smart_account.Ethers.{Ethers}
use falcon_smart_account.UserOp.Types.{UserOperation, PackedUserOperation}
use falcon_smart_account.UserOp.Pack.{pack_user_op}
use falcon_smart_account.Signer.Queue.{OpQueue, push_op, collect}

-- The number of operations that wait.
abbrev pub total : OpQueue → ℕ
total [] = 0
total ((_, ops) ∷ queue) = length ops + total queue

abbrev pub failures : Option Error → ℕ
failures none = 0
failures (some _) = 1

-- No queue of this sender.
abbrev pub Absent : Str → OpQueue → Type 0
Absent k [] = Unit
Absent k ((sender, ops) ∷ queue) = (text_eq k sender ≡ false) × Absent k queue

-- Every sender has one queue, and every operation waits in its sender's.
abbrev pub IsFiled : OpQueue → Type 0
IsFiled [] = Unit
IsFiled ((sender, ops) ∷ queue) =
    Absent sender queue × All (λ (op : UserOperation). op.sender ≡ sender) ops × IsFiled queue

-- No two operations of a bundle have the same sender.
abbrev pub DistinctSenders : List PackedUserOperation → Type 0
DistinctSenders [] = Unit
DistinctSenders (p ∷ ps) =
    All (λ (q : PackedUserOperation). text_eq p.sender q.sender ≡ false) ps × DistinctSenders ps

pub pack_user_op-sender :
    (e : Ethers) (op : UserOperation) {p : PackedUserOperation}
    → pack_user_op e op ≡ ok p
    → p.sender ≡ op.sender
unfolding pack_user_op
pack_user_op-sender e op h = ground arith

module _ (e : Ethers) where
  -- What was taken, what failed and what is left are together what was there.
  pub total-collect :
      (queue : OpQueue)
      → total queue
        ≡ total (collect e queue).queue
          + (collect e queue).taken
          + failures (collect e queue).failure
  unfolding collect
  total-collect [] = refl
  total-collect ((sender, []) ∷ queue) = ground (arith, total-collect queue)
  total-collect ((sender, op ∷ rest) ∷ queue) = ground (arith, total-collect queue)

  Absent-collect : (k : Str) (queue : OpQueue) → Absent k queue → Absent k (collect e queue).queue
  unfolding collect
  Absent-collect k [] h = tt
  Absent-collect k ((sender, []) ∷ queue) h = (h.0, Absent-collect k queue h.1)
  Absent-collect k ((sender, op ∷ rest) ∷ queue) h = ground (arith, Absent-collect k queue)

  pub collect-IsFiled : (queue : OpQueue) → IsFiled queue → IsFiled (collect e queue).queue
  unfolding collect
  collect-IsFiled [] h = tt
  collect-IsFiled ((sender, []) ∷ queue) h =
      (Absent-collect sender queue h.0, tt, collect-IsFiled queue h.2)
  collect-IsFiled ((sender, op ∷ rest) ∷ queue) h =
      ground (arith, Absent-collect sender queue, collect-IsFiled queue)

  -- Nothing is taken of a sender that has no queue.
  senders_differ :
      (k : Str) (queue : OpQueue)
      → Absent k queue
      → IsFiled queue
      → All (λ (q : PackedUserOperation). text_eq k q.sender ≡ false) (collect e queue).ops
  unfolding collect
  senders_differ k [] h f = tt
  senders_differ k ((sender, []) ∷ queue) h f = senders_differ k queue h.1 f.2
  senders_differ k ((sender, op ∷ rest) ∷ queue) h f = elim (Outcome-cases (pack_user_op e op)) [
    | inl (p, packed) ↦
        ground (arith, senders_differ k queue h.1 f.2, pack_user_op-sender e op packed)
    | inr (err, bad) ↦ ground arith
  ]

  pub collect-DistinctSenders :
      (queue : OpQueue) → IsFiled queue → DistinctSenders (collect e queue).ops
  unfolding collect
  collect-DistinctSenders [] h = tt
  collect-DistinctSenders ((sender, []) ∷ queue) h = collect-DistinctSenders queue h.2
  collect-DistinctSenders ((sender, op ∷ rest) ∷ queue) h =
      elim (Outcome-cases (pack_user_op e op)) [
        | inl (p, packed) ↦
            rw (packed, DistinctSenders)
              (
                subst
                    (λ k.
                      All (λ (q : PackedUserOperation). text_eq k q.sender ≡ false)
                        (collect e queue).ops)
                    (sym (pack_user_op-sender e op packed ∙ h.1.0))
                    (senders_differ sender queue h.0 h.2),
                collect-DistinctSenders queue h.2,
              )
        | inr (err, bad) ↦ ground arith
      ]

  pub length-collect : (queue : OpQueue) → length (collect e queue).ops ≡ (collect e queue).taken
  unfolding collect
  length-collect [] = refl
  length-collect ((sender, []) ∷ queue) = length-collect queue
  length-collect ((sender, op ∷ rest) ∷ queue) = ground (arith, length-collect queue)

pub total-push_op :
    (op : UserOperation) (queue : OpQueue) → total (push_op op queue) ≡ total queue + 1
unfolding push_op
total-push_op op [] = refl
total-push_op op ((sender, ops) ∷ queue) =
    ground (arith, total-push_op op queue, length-append ops (op ∷ []))

Absent-push_op :
    (k : Str) (op : UserOperation) (queue : OpQueue)
    → text_eq k op.sender ≡ false
    → Absent k queue
    → Absent k (push_op op queue)
unfolding push_op
Absent-push_op k op [] ne h = (ne, tt)
Absent-push_op k op ((sender, ops) ∷ queue) ne h = ground (arith, Absent-push_op k op queue ne h.1)

pub push_op-IsFiled :
    (op : UserOperation) (queue : OpQueue) → IsFiled queue → IsFiled (push_op op queue)
unfolding push_op
push_op-IsFiled op [] h = (tt, (refl, tt), tt)
push_op-IsFiled op ((sender, ops) ∷ queue) h = ground (
  arith,
  text_eq_iff op.sender sender,
  text_eq_comm sender op.sender,
  Absent-push_op sender op queue,
  push_op-IsFiled op queue h.2,
  All-append (λ (o : UserOperation). o.sender ≡ sender) ops (op ∷ []) h.1,
)
