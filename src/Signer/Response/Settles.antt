-- ===== src/Signer/Response/Settles.antt =====
-- How the promise of `userEventResponse` (src/AASigner.ts) settles, however the calls of the listener
-- come and interleave.
use falcon_smart_account.Prelude.{
  ℕ, ◌≡◌, ◌≢◌, inl, inr, refl, sym, ◌∙◌, Option, none, some, Bool, true, false, List, [], ◌∷◌,
  text_eq, leb, arith, All, if◌then◌else◌,
}
use mathlib.Core.Path.{subst}
use falcon_smart_account.Js.{Str}
use falcon_smart_account.Outcome.{Outcome, ok, throws, ok-injective, >>=-eq-ok}
use falcon_smart_account.Signer.Response.{
  EventArgs, Receipt, RevertReason, Event, Settled, rejected_with, Stage, State, Topic, with_hash,
  query_reasons, Heard,
}
use falcon_smart_account.Signer.Response.Meaning.{
  Any, All-map, meaning_of_reasons, meaning_of_receipt, meaning_of_args, meaning_after, meaning,
  stage_meaning,
}
use falcon_smart_account.Signer.Response.Keeps.{IsMeant, Heard-IsGood}

module _ (topic : Topic) (hash sender : Str) (current_block : Outcome ℕ) where
  -- No revert reason in this event's block has the topic of the sender in the place of its hash.
  abbrev pub IsUnmatched : Event → Type 0
  IsUnmatched ev =
      (t : Str) (reasons : List RevertReason)
      → topic sender ≡ ok t
      → ev.revert_reasons ≡ ok reasons
      → All (λ (r : RevertReason). text_eq r.user_op_hash t ≡ false) reasons

  with_hash-none :
      (t : Str) (reasons : List RevertReason)
      → All (λ (r : RevertReason). text_eq r.user_op_hash t ≡ false) reasons
      → with_hash t reasons ≡ []
  with_hash-none t [] h = refl
  with_hash-none t (r ∷ rs) h = ground (arith, with_hash-none t rs h.1)

  query_reasons-none :
      (ev : Event) (found : List RevertReason)
      → IsUnmatched ev
      → query_reasons topic hash sender current_block ev ≡ ok found
      → found ≡ []
  unfolding query_reasons
  query_reasons-none ev found unmatched eq =
      let (t, topic_ok, eq1) = >>=-eq-ok (topic sender) _ eq in
      let (reasons, reasons_ok, eq2) = >>=-eq-ok ev.revert_reasons _ eq1 in
      sym (ok-injective eq2) ∙ with_hash-none t reasons (unmatched t reasons topic_ok reasons_ok)

  -- What is not a rejection.
  abbrev IsQuiet : Option Settled → Type 0
  IsQuiet o = (reason : Str) → o ≢ some (rejected_with reason)

  if-IsQuiet :
      (test : Bool) {yes no : Option Settled}
      → IsQuiet yes
      → IsQuiet no
      → IsQuiet (if test then yes else no)
  if-IsQuiet true h k = h
  if-IsQuiet false h k = k

  reasons-IsQuiet :
      (rcpt : Receipt) (o : Outcome (List RevertReason))
      → ((found : List RevertReason) → o ≡ ok found → found ≡ [])
      → IsQuiet (meaning_of_reasons topic hash sender current_block rcpt o)
  reasons-IsQuiet rcpt (throws e) h reason = λ eq. cc
  reasons-IsQuiet rcpt (ok []) h reason = λ eq. cc
  reasons-IsQuiet rcpt (ok (r ∷ rs)) h reason = λ eq. cc (h (r ∷ rs) refl)

  receipt-IsQuiet :
      (args : EventArgs) (ev : Event) (rcpt : Outcome Receipt)
      → IsUnmatched ev
      → IsQuiet (meaning_of_receipt topic hash sender current_block args ev rcpt)
  receipt-IsQuiet args ev (throws e) h = λ reason eq. cc
  receipt-IsQuiet args ev (ok rcpt) h =
      if-IsQuiet args.success (λ reason eq. cc)
        (reasons-IsQuiet _ _ (λ found. query_reasons-none ev found h))

  args-IsQuiet :
      (ev : Event) (args : Option EventArgs)
      → IsUnmatched ev
      → IsQuiet (meaning_of_args topic hash sender current_block ev args)
  args-IsQuiet ev none h = λ reason eq. cc
  args-IsQuiet ev (some args) h =
      if-IsQuiet (text_eq args.user_op_hash hash) (receipt-IsQuiet args ev ev.receipt h)
        (λ reason eq. cc)

  after-IsQuiet :
      (ev : Event) (number : Outcome ℕ)
      → IsUnmatched ev
      → IsQuiet (meaning_after topic hash sender current_block ev number)
  after-IsQuiet ev (throws e) h = λ reason eq. cc
  after-IsQuiet ev (ok n) h =
      if-IsQuiet (leb ev.block_number n) (λ reason eq. cc) (args-IsQuiet ev ev.args h)

  meaning-unmatched :
      (ev : Event) (reason : Str)
      → IsUnmatched ev
      → meaning topic hash sender current_block ev ≢ some (rejected_with reason)
  meaning-unmatched ev reason unmatched = after-IsQuiet ev current_block unmatched reason

  IsMeant-unmatched :
      (reason : Str) (evs : List Event)
      → All IsUnmatched evs
      → IsMeant topic hash sender current_block (rejected_with reason) evs
      → ⊥
  IsMeant-unmatched reason [] h m = m
  IsMeant-unmatched reason (ev ∷ evs) h (inl m) = meaning-unmatched ev reason h.0 m
  IsMeant-unmatched reason (ev ∷ evs) h (inr m) = IsMeant-unmatched reason evs h.1 m

  none_of : (o : Option Settled) → ((x : Settled) → o ≢ some x) → o ≡ none
  none_of none h = refl
  none_of (some x) h = absurd (h x refl)

  -- How the promise stands, after calls of the listener with some events.
  pub record IsSettled (evs : List Event) (st : State) : Type 0 where
    pub means :
        (x : Settled) → st.waiting.promise ≡ some x → IsMeant topic hash sender current_block x evs
    pub still_open :
        st.waiting.promise ≡ none
        → st.running ≡ []
        → All (λ (ev : Event). meaning topic hash sender current_block ev ≡ none) evs
    pub not_rejected :
        (reason : Str) → All IsUnmatched evs → st.waiting.promise ≢ some (rejected_with reason)

  -- However events come and the calls of the listener interleave: the promise settles only as one
  -- of the events that the listener was called with means; when no call is running and it is still
  -- open, none of these events means anything; and if the sender's topic is the hash of no revert
  -- reason in the events' blocks, then it is never rejected, whatever the reasons are.
  pub Heard-IsSettled :
      {evs : List Event} {st : State}
      → Heard topic hash sender current_block evs st
      → IsSettled evs st
  Heard-IsSettled {evs} {st} reach =
      let good = (Heard-IsGood topic hash sender current_block) reach in
      record {
        means = good.settled;
        still_open = λ p idle.
            All-map
              (λ ev a. none_of (meaning topic hash sender current_block ev) (λ x m.
                subst
                  (Any (λ (s : Stage). stage_meaning topic hash sender current_block s ≡ some x))
                  idle (a x m p)))
              evs good.awaited;
        not_rejected = λ reason unmatched p.
            IsMeant-unmatched reason evs unmatched (good.settled (rejected_with reason) p);
      }
