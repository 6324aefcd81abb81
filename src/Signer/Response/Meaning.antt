-- ===== src/Signer/Response/Meaning.antt =====
-- What an event means for an operation whose response waits (`userEventResponse` of
-- src/AASigner.ts), and how a call of the listener goes on.
use falcon_smart_account.Prelude.{
  ℕ, ◌≡◌, ◌⊎◌, inl, inr, refl, Option, none, some, List, [], ◌∷◌, ◌++◌, text_eq, leb, arith, All,
  All-append, if◌then◌else◌, Bool-cases,
}
use falcon_smart_account.Js.{Str}
use falcon_smart_account.Outcome.{Outcome, ok, throws}
use falcon_smart_account.Signer.Response.{
  EventArgs, Receipt, RevertReason, Event, Settled, resolved_with, rejected_with, Waiting,
  settle_once, Stage, awaiting_block, awaiting_receipt, awaiting_reasons, Topic, query_reasons,
  after_args, after_block, after_receipt, after_reasons, resume,
}

abbrev pub Any : {A : Type 0} → (A → Type 0) → List A → Type 0
Any P [] = ⊥
Any P (x ∷ xs) = P x ⊎ Any P xs

pub Any-last : {A : Type 0} (P : A → Type 0) (xs : List A) (x : A) → P x → Any P (xs ++ x ∷ [])
Any-last P [] x p = inl p
Any-last P (y ∷ xs) x p = inr (Any-last P xs x p)

pub Any-append : {A : Type 0} (P : A → Type 0) (xs ys : List A) → Any P xs → Any P (xs ++ ys)
Any-append P [] ys p = absurd p
Any-append P (x ∷ xs) ys (inl p) = inl p
Any-append P (x ∷ xs) ys (inr p) = inr (Any-append P xs ys p)

Any-later : {A : Type 0} (P : A → Type 0) (xs ys : List A) → Any P ys → Any P (xs ++ ys)
Any-later P [] ys p = p
Any-later P (x ∷ xs) ys p = inr (Any-later P xs ys p)

-- One element makes room for others.
pub Any-replace :
    {A : Type 0} (P : A → Type 0) (before : List A) (x : A) (more after : List A)
    → (P x → Any P more)
    → Any P (before ++ x ∷ after)
    → Any P (before ++ (more ++ after))
Any-replace P [] x more after f (inl p) = Any-append P more after (f p)
Any-replace P [] x more after f (inr p) = Any-later P more after p
Any-replace P (y ∷ before) x more after f (inl p) = inl p
Any-replace P (y ∷ before) x more after f (inr p) = inr (Any-replace P before x more after f p)

pub All-replace :
    {A : Type 0} (P : A → Type 0) (before : List A) (x : A) (more after : List A)
    → (P x → All P more)
    → All P (before ++ x ∷ after)
    → All P (before ++ (more ++ after))
All-replace P [] x more after f (p, ps) = All-append P more after (f p) ps
All-replace P (y ∷ before) x more after f (p, ps) = (p, All-replace P before x more after f ps)

pub All-middle :
    {A : Type 0} (P : A → Type 0) (before : List A) (x : A) (after : List A)
    → All P (before ++ x ∷ after)
    → P x
All-middle P [] x after (p, ps) = p
All-middle P (y ∷ before) x after (p, ps) = All-middle P before x after ps

pub All-map :
    {A : Type 0} {P Q : A → Type 0} (f : (x : A) → P x → Q x) (xs : List A) → All P xs → All Q xs
All-map f [] h = tt
All-map f (x ∷ xs) (p, ps) = (f x p, All-map f xs ps)

module _ (topic : Topic) (hash sender : Str) (current_block : Outcome ℕ) where
  -- What an event means for the operation, on its own: nothing, if it is of an old block or of
  -- another operation, or if the node fails to answer; else the receipt, if the operation succeeded,
  -- or the first reason that is found, or the receipt with the status 0, if none is found.
  abbrev pub meaning_of_reasons : Receipt → Outcome (List RevertReason) → Option Settled
  meaning_of_reasons rcpt (throws e) = none
  meaning_of_reasons rcpt (ok []) = some (resolved_with rcpt)
  meaning_of_reasons rcpt (ok (r ∷ rs)) = some (rejected_with r.reason)

  abbrev pub meaning_of_receipt : EventArgs → Event → Outcome Receipt → Option Settled
  meaning_of_receipt args ev (throws e) = none
  meaning_of_receipt args ev (ok rcpt) =
      if args.success
      then some (resolved_with rcpt)
      else meaning_of_reasons (record rcpt { status = 0 })
          (query_reasons topic hash sender current_block ev)

  abbrev pub meaning_of_args : Event → Option EventArgs → Option Settled
  meaning_of_args ev none = none
  meaning_of_args ev (some args) =
      if text_eq args.user_op_hash hash then meaning_of_receipt args ev ev.receipt else none

  abbrev pub meaning_after : Event → Outcome ℕ → Option Settled
  meaning_after ev (throws e) = none
  meaning_after ev (ok n) = if leb ev.block_number n then none else meaning_of_args ev ev.args

  abbrev pub meaning : Event → Option Settled
  meaning ev = meaning_after ev current_block

  abbrev pub stage_meaning : Stage → Option Settled
  stage_meaning (awaiting_block ev) = meaning ev
  stage_meaning (awaiting_receipt args ev) = meaning_of_receipt args ev ev.receipt
  stage_meaning (awaiting_reasons rcpt ev) =
      meaning_of_reasons rcpt (query_reasons topic hash sender current_block ev)

  abbrev pub next_meaning : Option Stage → Option Settled
  next_meaning none = none
  next_meaning (some stage) = stage_meaning stage

  -- A call that goes on either changes nothing and means the same, or ends as it meant to.
  abbrev Resumes : Stage → Waiting → Waiting × Option Stage → Type 0
  Resumes stage w r =
      ((r.0 ≡ w) × (next_meaning r.1 ≡ stage_meaning stage))
      ⊎ ((x : Settled) × (stage_meaning stage ≡ some x)
          × (r.1 ≡ none)
          × (r.0.promise ≡ settle_once w.promise x))

  block-Resumes :
      (ev : Event) (number : Outcome ℕ)
      → next_meaning (after_block topic hash sender current_block ev number)
        ≡ meaning_after ev number
  block-Resumes ev (throws e) = refl
  block-Resumes ev (ok n) = elim (Bool-cases (leb ev.block_number n)) [
    | inl old ↦ rw (old) refl
    | inr new ↦ rw (new) (args-Resumes ev.args)
  ]
    where
      args-Resumes :
          (args : Option EventArgs)
          → next_meaning (after_args topic hash sender current_block ev args)
            ≡ meaning_of_args ev args
      args-Resumes none = refl
      args-Resumes (some args) = ground arith

  receipt-Resumes :
      (args : EventArgs) (ev : Event) (w : Waiting) (rcpt : Outcome Receipt)
      → let r = after_receipt topic hash sender current_block args ev rcpt w in
        ((r.0 ≡ w) × (next_meaning r.1 ≡ meaning_of_receipt args ev rcpt))
        ⊎ ((x : Settled) × (meaning_of_receipt args ev rcpt ≡ some x)
            × (r.1 ≡ none)
            × (r.0.promise ≡ settle_once w.promise x))
  receipt-Resumes args ev w (throws e) = inl (refl, refl)
  receipt-Resumes args ev w (ok rcpt) = elim (Bool-cases args.success) [
    | inl done ↦ rw (done) (inr (resolved_with rcpt, refl, refl, refl))
    | inr failed ↦ rw (failed) (inl (refl, refl))
  ]

  reasons-Resumes :
      (rcpt : Receipt) (w : Waiting) (found : Outcome (List RevertReason))
      → let w' = after_reasons topic hash sender current_block rcpt found w in
        ((w' ≡ w) × (none ≡ meaning_of_reasons rcpt found))
        ⊎ ((x : Settled) × (meaning_of_reasons rcpt found ≡ some x)
            × ◌≡◌ {A = Option Stage} none none
            × (w'.promise ≡ settle_once w.promise x))
  reasons-Resumes rcpt w (throws e) = inl (refl, refl)
  reasons-Resumes rcpt w (ok []) = inr (resolved_with rcpt, refl, refl, refl)
  reasons-Resumes rcpt w (ok (r ∷ rs)) = inr (rejected_with r.reason, refl, refl, refl)

  pub resume-Resumes :
      (stage : Stage) (w : Waiting)
      → Resumes stage w (resume topic hash sender current_block stage w)
  unfolding resume
  resume-Resumes (awaiting_block ev) w = inl (refl, block-Resumes ev current_block)
  resume-Resumes (awaiting_receipt args ev) w = receipt-Resumes args ev w ev.receipt
  resume-Resumes (awaiting_reasons rcpt ev) w = reasons-Resumes rcpt w _
