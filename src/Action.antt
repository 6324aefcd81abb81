-- ===== src/Action.antt =====
-- A call that changes a state and may throw: what was changed before a throw stays.
use falcon_smart_account.Prelude.{◌≡◌, ◌≢◌, refl, ap}
use falcon_smart_account.Outcome.{Error, Outcome, ok, throws}

abbrev pub Action {ℓ} : Type ℓ → Type ℓ → Type ℓ
Action W A = W → Outcome A × W

-- What follows in the state that the first call left.
abbrev pub continue {ℓ} : {W A B : Type ℓ} → (A → Action W B) → Outcome A × W → Outcome B × W
continue next (ok a, w) = next a w
continue next (throws err, w) = (throws err, w)

throws-ne {ℓ} : {A : Type ℓ} {err : Error} {a : A} → throws err ≢ ok a
throws-ne h = cc

infixl 5 ◌>>=◌
abbrev pub ◌>>=◌ {ℓ} : {W A B : Type ℓ} → Action W A → (A → Action W B) → Action W B
first >>= next = λ w. continue next (first w)

-- A result that changes no state.
abbrev pub lift {ℓ} : {W A : Type ℓ} → Outcome A → Action W A
lift r = λ w. (r, w)

continue-eq-ok {ℓ} :
    {W A B : Type ℓ} (r : Outcome A × W) (next : A → Action W B) {b : B} {w' : W}
    → continue next r ≡ (ok b, w')
    → (a : A) × (w1 : W) × (r ≡ (ok a, w1)) × (next a w1 ≡ (ok b, w'))
continue-eq-ok (ok a, w1) next h = (a, w1, refl, h)
continue-eq-ok {B = B} (throws err, w1) next h = absurd (throws-ne (ap (λ r. r.0) h))

-- Inversion of a chain that ended well.
pub >>=-eq-ok {ℓ} :
    {W A B : Type ℓ} (first : Action W A) (next : A → Action W B) (w : W) {b : B} {w' : W}
    → (first >>= next) w ≡ (ok b, w')
    → (a : A) × (w1 : W) × (first w ≡ (ok a, w1)) × (next a w1 ≡ (ok b, w'))
>>=-eq-ok first next w h = continue-eq-ok (first w) next h
