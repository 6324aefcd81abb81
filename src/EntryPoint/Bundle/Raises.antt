-- ===== src/EntryPoint/Bundle/Raises.antt =====
-- Reasoning about what the code of contracts/core/EntryPoint.sol throws.
use mathlib.Core.Path.{subst}
use falcon_smart_account.Prelude.{ℕ, ◌≡◌, refl, Bool, true, false, if◌then◌else◌}
use falcon_smart_account.Outcome.{Error, Outcome, ok, throws}
use falcon_smart_account.EntryPoint.Bundle.Outside.{
  Chain, Ended, returned, reverted_call, Code, continue, ◌>>=◌, return, expect, answered,
}

module _ {W : Type 0} where
  -- What the code throws is of this kind.
  abbrev pub Raises : {A : Type 0} → (Error → Type 0) → Code W A → Type 0
  Raises {A} E code =
      (s : Chain W) (e : Error) → ◌≡◌ {A = Outcome (A × Chain W)} (code s) (throws e) → E e

  pub not_thrown :
      {A R : Type 0} {a : A} {s : Chain W} {e : Error}
      → ◌≡◌ {A = Outcome (A × Chain W)} (ok (a, s)) (throws e)
      → R
  not_thrown h = cc

  pub throws-injective :
      {A : Type 0} {e e' : Error} → ◌≡◌ {A = Outcome (A × Chain W)} (throws e) (throws e') → e ≡ e'
  throws-injective h = cc

  pub raised :
      {A : Type 0} (E : Error → Type 0) {e e' : Error}
      → ◌≡◌ {A = Outcome (A × Chain W)} (throws e) (throws e')
      → E e
      → E e'
  raised E h p = subst E (throws-injective h) p

  continue-Raises :
      {A B : Type 0} (E : Error → Type 0) (r : Outcome (A × Chain W)) (next : A → Code W B)
      → ((e : Error) → r ≡ throws e → E e)
      → ((a : A) → Raises E (next a))
      → (e : Error) → continue next r ≡ throws e
      → E e
  continue-Raises E (ok (a, s)) next first after e eq = after a s e eq
  continue-Raises {B = B} E (throws e1) next first after e eq = raised {A = B} E eq (first e1 refl)

  pub >>=-Raises :
      {A B : Type 0} (E : Error → Type 0) {first : Code W A} {next : A → Code W B}
      → Raises E first
      → ((a : A) → Raises E (next a))
      → Raises E (first >>= next)
  unfolding ◌>>=◌
  >>=-Raises E {first} {next} h k s e eq = continue-Raises E (first s) next (h s) k e eq

  pub return-Raises : {A : Type 0} (E : Error → Type 0) (a : A) → Raises E (return a)
  unfolding return
  return-Raises E a s e eq = not_thrown eq

  pub expect-Raises :
      (E : Error → Type 0) (test : Bool) (e : Error)
      → (test ≡ false → E e)
      → Raises E (expect test e)
  unfolding expect
  expect-Raises E true e h s e' eq = not_thrown eq
  expect-Raises E false e h s e' eq = raised {A = Unit} E eq (h refl)

  pub answered-Raises :
      {A : Type 0} (E : Error → Type 0) (now : ℕ) (e : Error) (r : Ended W A) (s : Chain W)
      → E e
      → (e' : Error) → answered now e r s ≡ throws e'
      → E e'
  answered-Raises E now e (returned a rs w) s h e' eq = not_thrown eq
  answered-Raises {A = A} E now e reverted_call s h e' eq = raised {A = A} E eq h

  pub if-Raises :
      {A : Type 0} (E : Error → Type 0) (test : Bool) {t f : Code W A}
      → Raises E t
      → Raises E f
      → Raises E (if test then t else f)
  if-Raises E true h k = h
  if-Raises E false h k = k
