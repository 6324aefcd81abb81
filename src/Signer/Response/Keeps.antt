-- ===== src/Signer/Response/Keeps.antt =====
-- What holds while calls of the listener of `userEventResponse` (src/AASigner.ts) interleave.
use falcon_smart_account.Prelude.{
  ℕ, ◌≡◌, ◌≢◌, ◌⊎◌, inl, inr, refl, sym, ap, ◌∙◌, Option, none, some, Bool, true, false, List, [],
  ◌∷◌, ◌++◌, All, All-append, if◌then◌else◌,
}
use mathlib.Core.Path.{subst}
use falcon_smart_account.Js.{Str}
use falcon_smart_account.Outcome.{Outcome}
use falcon_smart_account.Signer.Response.{
  Event, Settled, settle_once, Stage, awaiting_block, State, Topic, resume, continuing, continue_at,
  listener, Heard, starts, event_comes, timer_finds, goes_on,
}
use falcon_smart_account.Signer.Response.Meaning.{
  Any, Any-last, Any-append, Any-replace, All-replace, All-middle, All-map, meaning, stage_meaning,
  next_meaning, resume-Resumes,
}

module _ (topic : Topic) (hash sender : Str) (current_block : Outcome ℕ) where
  -- Some of these events means this.
  abbrev pub IsMeant : Settled → List Event → Type 0
  IsMeant x evs = Any (λ (ev : Event). meaning topic hash sender current_block ev ≡ some x) evs

  abbrev pub StageIsMeant : List Event → Stage → Type 0
  StageIsMeant evs stage =
      (x : Settled) → stage_meaning topic hash sender current_block stage ≡ some x → IsMeant x evs

  -- While the promise is open, a call that will settle it as the event means is still running.
  abbrev pub IsAwaited : State → Event → Type 0
  IsAwaited st ev =
      (x : Settled)
      → meaning topic hash sender current_block ev ≡ some x
      → st.waiting.promise ≡ none
      → Any (λ (stage : Stage). stage_meaning topic hash sender current_block stage ≡ some x)
          st.running

  pub record IsGood (evs : List Event) (st : State) : Type 0 where
    pub resolved : st.waiting.resolved ≡ true → st.waiting.promise ≢ none
    pub settled : (x : Settled) → st.waiting.promise ≡ some x → IsMeant x evs
    pub pending : All (StageIsMeant evs) st.running
    pub awaited : All (IsAwaited st) evs

  settle_once-ne : (p : Option Settled) (x : Settled) → settle_once p x ≢ none
  settle_once-ne none x eq = cc
  settle_once-ne (some y) x eq = cc

  settle_once-some :
      (p : Option Settled) (x y : Settled) → settle_once p x ≡ some y → (p ≡ some y) ⊎ (x ≡ y)
  settle_once-some none x y eq = inr cc
  settle_once-some (some z) x y eq = inl eq

  continuing-All :
      (evs : List Event) (stage : Stage) (next : Option Stage)
      → next_meaning topic hash sender current_block next
        ≡ stage_meaning topic hash sender current_block stage
      → StageIsMeant evs stage
      → All (StageIsMeant evs) (continuing topic hash sender current_block next)
  continuing-All evs stage none eq h = tt
  continuing-All evs stage (some s) eq h = (λ x m. h x (sym eq ∙ m), tt)

  continuing-Any :
      (x : Settled) (stage : Stage) (next : Option Stage)
      → next_meaning topic hash sender current_block next
        ≡ stage_meaning topic hash sender current_block stage
      → stage_meaning topic hash sender current_block stage ≡ some x
      → Any
          (λ (s : Stage). stage_meaning topic hash sender current_block s ≡ some x)
          (continuing topic hash sender current_block next)
  continuing-Any x stage none eq m = cc
  continuing-Any x stage (some s) eq m = inl (eq ∙ m)

  if-either :
      (P : State → Type 0) (test : Bool) {yes no : State}
      → (test ≡ true → P yes)
      → (test ≡ false → P no)
      → P (if test then yes else no)
  if-either P true h k = h refl
  if-either P false h k = k refl

  listener-IsGood :
      (evs : List Event) (st : State) (ev : Event)
      → IsGood evs st
      → IsGood (ev ∷ evs) (listener ev st)
  unfolding listener
  listener-IsGood evs st ev h =
      if-either (IsGood (ev ∷ evs)) st.waiting.resolved
        (λ over. record {
          resolved = h.resolved;
          settled = λ x p. inr (h.settled x p);
          pending = All-map (λ stage means x m. inr (means x m)) st.running h.pending;
          awaited = (λ x m p. absurd (h.resolved over p), h.awaited);
        })
        (λ _. record {
          resolved = h.resolved;
          settled = λ x p. inr (h.settled x p);
          pending =
              All-append (StageIsMeant (ev ∷ evs)) st.running (awaiting_block ev ∷ [])
                (All-map (λ stage means x m. inr (means x m)) st.running h.pending)
                (λ x m. inl m, tt);
          awaited = (
            λ x m p. Any-last _ st.running (awaiting_block ev) m,
            All-map (λ other a x m p. Any-append _ st.running _ (a x m p)) evs h.awaited,
          );
        })

  goes_on-IsGood :
      (evs : List Event) (st : State) (before : List Stage) (stage : Stage) (after : List Stage)
      → st.running ≡ before ++ stage ∷ after
      → IsGood evs st
      → IsGood evs (continue_at topic hash sender current_block before stage after st)
  unfolding continue_at
  goes_on-IsGood evs st before stage after eq h =
      let r = resume topic hash sender current_block stage st.waiting in
      let pending = subst (All (StageIsMeant evs)) eq h.pending in
      elim (resume-Resumes topic hash sender current_block stage st.waiting) [
        | inl (same, means) ↦ record {
          resolved = λ over p.
              h.resolved (ap (λ w. w.resolved) (sym same) ∙ over)
                (ap (λ w. w.promise) (sym same) ∙ p);
          settled = λ x p. h.settled x (ap (λ w. w.promise) (sym same) ∙ p);
          pending =
              All-replace (StageIsMeant evs) before stage _ after
                (continuing-All evs stage r.1 means) pending;
          awaited =
              All-map
                (λ ev a x m p.
                  Any-replace
                    (λ (s : Stage). stage_meaning topic hash sender current_block s ≡ some x) before
                    stage _ after (continuing-Any x stage r.1 means)
                    (subst
                      (Any
                        (λ (s : Stage). stage_meaning topic hash sender current_block s ≡ some x))
                      eq (a x m (ap (λ w. w.promise) (sym same) ∙ p))))
                evs h.awaited;
        }
        | inr (x, means, ended, promise) ↦ record {
          resolved = λ over p. settle_once-ne st.waiting.promise x (sym promise ∙ p);
          settled = λ y p. elim (settle_once-some st.waiting.promise x y (sym promise ∙ p)) [
            | inl before_it ↦ h.settled y before_it
            | inr now ↦
                All-middle (StageIsMeant evs) before stage after pending y
                  (means ∙ ap (λ (z : Settled). some z) now)
          ];
          pending =
              All-replace (StageIsMeant evs) before stage _ after
                (λ _.
                  subst (λ n. All (StageIsMeant evs) (continuing topic hash sender current_block n))
                    (sym ended) tt)
                pending;
          awaited =
              All-map (λ ev a y m p. absurd (settle_once-ne st.waiting.promise x (sym promise ∙ p)))
                evs h.awaited;
        }
      ]

  pub Heard-IsGood :
      {evs : List Event} {st : State} → Heard topic hash sender current_block evs st → IsGood evs st
  Heard-IsGood starts = record {
    resolved = λ over. cc;
    settled = λ x p. cc;
    pending = tt;
    awaited = tt;
  }
  Heard-IsGood (event_comes {evs} {st} reach ev listens) =
      listener-IsGood evs st ev (Heard-IsGood reach)
  Heard-IsGood (timer_finds {evs} {st} reach ev) = listener-IsGood evs st ev (Heard-IsGood reach)
  Heard-IsGood (goes_on {evs} {st} reach before stage after eq) =
      goes_on-IsGood evs st before stage after eq (Heard-IsGood reach)
