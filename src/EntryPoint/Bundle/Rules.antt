-- ===== src/EntryPoint/Bundle/Rules.antt =====
-- Reasoning about the code of contracts/core/EntryPoint.sol: what holds after it, if it does not
-- revert, for what held before.
use mathlib.Core.Path.{subst}
use falcon_smart_account.Prelude.{
  ℕ, ◌+◌, ◌≤◌, ◌≡◌, refl, Option, none, some, Bool, true, false, List, [], ◌∷◌, arith,
  if◌then◌else◌,
}
use falcon_smart_account.Outcome.{Error, Outcome, ok, throws, ok-injective}
use falcon_smart_account.EntryPoint.Nonce.{Sequences}
use falcon_smart_account.EntryPoint.Nonce.Grows.{increment_nonce-le}
use falcon_smart_account.EntryPoint.Stake.{Contract}
use falcon_smart_account.EntryPoint.Stake.Owed.{IsCovered}
use falcon_smart_account.EntryPoint.Stake.Keeps.{
  deposit_to-IsCovered, add_stake-IsCovered, unlock_stake-IsCovered, withdraw_stake-IsCovered,
  withdraw_to-IsCovered, some-injective,
}
use falcon_smart_account.EntryPoint.Bundle.Outside.{
  Chain, Request, deposits_for, stakes, unlocks_stake, takes_stake, takes_deposit, skips_nonce,
  forces_ether, forcing, forced_by, staking, sequencing, unless_reverted, perform, Ended, returned,
  reverted_call, Outside, Code, continue, ◌>>=◌, return, lift, expect, after_call, answered,
  calling, decoded, asking,
}

IsCovered-eq : {a b : ℕ} (c : Contract) → a ≡ b → IsCovered a c → IsCovered b c
IsCovered-eq c eq h = subst (λ k. IsCovered k c) eq h

-- What a request that does not revert leaves.
staking-IsCovered :
    (kept now : ℕ) (r : Request) (c c' : Contract)
    → staking now r c ≡ some c'
    → IsCovered kept c
    → IsCovered (kept + forcing r) c'
staking-IsCovered kept now (deposits_for account value) c c' eq h =
    IsCovered-eq c' (omega arith) (deposit_to-IsCovered kept account value c c' eq h)
staking-IsCovered kept now (stakes sender delay value) c c' eq h =
    IsCovered-eq c' (omega arith) (add_stake-IsCovered kept sender delay value c c' eq h)
staking-IsCovered kept now (unlocks_stake sender) c c' eq h =
    IsCovered-eq c' (omega arith) (unlock_stake-IsCovered kept sender now c c' eq h)
staking-IsCovered kept now (takes_stake sender accepts) c c' eq h =
    IsCovered-eq c' (omega arith) (withdraw_stake-IsCovered kept sender now accepts c c' eq h)
staking-IsCovered kept now (takes_deposit sender amount accepts) c c' eq h =
    IsCovered-eq c' (omega arith) (withdraw_to-IsCovered kept sender amount accepts c c' eq h)
staking-IsCovered kept now (skips_nonce sender key) c c' eq h =
    IsCovered-eq c' (omega arith) (subst (IsCovered kept) (some-injective eq) h)
staking-IsCovered kept now (forces_ether value) c c' eq h =
    subst (IsCovered (kept + value)) (some-injective eq)
      (record { phase = h.phase; covered = omega (arith, h.covered) })

-- Ether can only be forced on the contract by a request that does not revert.
reverted-forcing : (now : ℕ) (r : Request) (c : Contract) → staking now r c ≡ none → forcing r ≡ 0
reverted-forcing now (deposits_for account value) c eq = refl
reverted-forcing now (stakes sender delay value) c eq = refl
reverted-forcing now (unlocks_stake sender) c eq = refl
reverted-forcing now (takes_stake sender accepts) c eq = refl
reverted-forcing now (takes_deposit sender amount accepts) c eq = refl
reverted-forcing now (skips_nonce sender key) c eq = refl
reverted-forcing now (forces_ether value) c eq = cc

kept_unless_reverted :
    (kept kept' : ℕ) (c : Contract) (o : Option Contract)
    → ((c' : Contract) → o ≡ some c' → IsCovered kept' c')
    → (o ≡ none → kept ≡ kept')
    → IsCovered kept c
    → IsCovered kept' (unless_reverted c o)
kept_unless_reverted kept kept' c none next same h = IsCovered-eq c (same refl) h
kept_unless_reverted kept kept' c (some c') next same h = next c' refl

perform-IsCovered :
    (kept now : ℕ) (rs : List Request) (c : Contract) (m : Sequences)
    → IsCovered kept c
    → IsCovered (kept + forced_by rs) (perform now rs (c, m)).0
unfolding perform forced_by
perform-IsCovered kept now [] c m h = IsCovered-eq c (omega arith) h
perform-IsCovered kept now (r ∷ rs) c m h =
    IsCovered-eq (perform now rs (unless_reverted c (staking now r c), sequencing r m)).0
      (omega arith)
      (perform-IsCovered (kept + forcing r) now rs _ _ (
        kept_unless_reverted kept (kept + forcing r) c _
          (λ c' eq. staking-IsCovered kept now r c c' eq h)
          (λ eq. omega (arith, reverted-forcing now r c eq)) h))

sequencing-le : (r : Request) (m : Sequences) (s k : ℕ) → m s k ≤ sequencing r m s k
sequencing-le (skips_nonce sender key) m s k = increment_nonce-le s k sender key m
sequencing-le (deposits_for account value) m s k = omega arith
sequencing-le (stakes sender delay value) m s k = omega arith
sequencing-le (unlocks_stake sender) m s k = omega arith
sequencing-le (takes_stake sender accepts) m s k = omega arith
sequencing-le (takes_deposit sender amount accepts) m s k = omega arith
sequencing-le (forces_ether value) m s k = omega arith

pub perform-le :
    (now : ℕ) (rs : List Request) (c : Contract) (m : Sequences) (s k : ℕ)
    → m s k ≤ (perform now rs (c, m)).1 s k
unfolding perform
perform-le now [] c m s k = omega arith
perform-le now (r ∷ rs) c m s k = omega (
  arith,
  sequencing-le r m s k,
  perform-le now rs (unless_reverted c (staking now r c)) (sequencing r m) s k,
)

-- Inversion of a branch.
pub decided :
    {A R : Type 0} (test : Bool) {yes no r : Outcome A}
    → (if test then yes else no) ≡ r
    → (test ≡ true → yes ≡ r → R)
    → (test ≡ false → no ≡ r → R)
    → R
decided true eq h k = h refl eq
decided false eq h k = k refl eq

module _ {W : Type 0} where
  -- After `code` that did not revert, from a state with `P`, its result and state have `Q`.
  abbrev pub Holds : {A : Type 0} → (Chain W → Type 0) → Code W A → (A → Chain W → Type 0) → Type 0
  Holds {A} P code Q = (s : Chain W) → P s → (a : A) (s' : Chain W) → code s ≡ ok (a, s') → Q a s'

  -- Code of others keeps it.
  abbrev pub IsStable : (Chain W → Type 0) → Type 0
  IsStable P = (now : ℕ) (rs : List Request) (w : W) (s : Chain W) → P s → P (after_call now rs w s)

  pub ended :
      {A : Type 0} (Q : A → Chain W → Type 0) {a a' : A} {s s' : Chain W}
      → ◌≡◌ {A = Outcome (A × Chain W)} (ok (a, s)) (ok (a', s'))
      → Q a s
      → Q a' s'
  ended Q eq h = subst (λ r. Q r.0 r.1) (ok-injective eq) h

  pub thrown :
      {A : Type 0} {B : Type 0} {e : Error} {a : A} {s : Chain W}
      → ◌≡◌ {A = Outcome (A × Chain W)} (throws e) (ok (a, s))
      → B
  thrown h = cc

  continue-lem :
      {A B : Type 0} (Q : A → Chain W → Type 0) (R : B → Chain W → Type 0)
      (r : Outcome (A × Chain W)) (next : A → Code W B) (b : B) (s' : Chain W)
      → ((a : A) (s1 : Chain W) → r ≡ ok (a, s1) → Q a s1)
      → ((a : A) → Holds (Q a) (next a) R)
      → continue next r ≡ ok (b, s')
      → R b s'
  continue-lem Q R (ok (a, s1)) next b s' first after eq = after a s1 (first a s1 refl) b s' eq
  continue-lem Q R (throws e) next b s' first after eq = thrown eq

  pub >>=-Holds :
      {A B : Type 0} {P : Chain W → Type 0} (Q : A → Chain W → Type 0) {R : B → Chain W → Type 0}
      {first : Code W A} {next : A → Code W B}
      → Holds P first Q
      → ((a : A) → Holds (Q a) (next a) R)
      → Holds P (first >>= next) R
  unfolding ◌>>=◌
  >>=-Holds Q {R} {first} {next} h k s p b s' eq = continue-lem Q R (first s) next b s' (h s p) k eq

  pub return-Holds :
      {A : Type 0} {P : Chain W → Type 0} (Q : A → Chain W → Type 0) (a : A)
      → ((s : Chain W) → P s → Q a s)
      → Holds P (return a) Q
  unfolding return
  return-Holds Q a h s p a' s' eq = ended Q eq (h s p)

  -- What was expected is so, and the state is the same.
  pub expect-Holds :
      (P : Chain W → Type 0) (test : Bool) (e : Error)
      → Holds P (expect test e) (λ _ s. (test ≡ true) × P s)
  unfolding expect
  expect-Holds P true e s p a s' eq = ended (λ _ s1. (true ≡ true) × P s1) eq (refl, p)
  expect-Holds P false e s p a s' eq = thrown eq

  pub lift-Holds :
      {A : Type 0} (P : Chain W → Type 0) (r : Outcome A)
      → Holds P (lift r) (λ a s. (r ≡ ok a) × P s)
  unfolding lift
  lift-Holds P (ok a) s p a' s' eq = ended (λ b s1. (ok a ≡ ok b) × P s1) eq (refl, p)
  lift-Holds P (throws e) s p a' s' eq = thrown eq

  pub if-Holds :
      {A : Type 0} {P : Chain W → Type 0} {Q : A → Chain W → Type 0} (test : Bool)
      {yes no : Code W A}
      → (test ≡ true → Holds P yes Q)
      → (test ≡ false → Holds P no Q)
      → Holds P (if test then yes else no) Q
  if-Holds true h k = h refl
  if-Holds false h k = k refl

  answered-Holds :
      {A : Type 0} (P : Chain W → Type 0)
      → IsStable P
      → (now : ℕ) (e : Error) (r : Ended W A) (s : Chain W) → P s
      → (a : A) (s' : Chain W) → answered now e r s ≡ ok (a, s')
      → P s'
  answered-Holds P stable now e (returned a rs w) s p a' s' eq =
      ended (λ _ s1. P s1) eq (stable now rs w s p)
  answered-Holds P stable now e reverted_call s p a' s' eq = thrown eq

  pub calling-Holds :
      {A : Type 0} (P : Chain W → Type 0) (o : Outside W) (e : Error) (call : Chain W → Ended W A)
      → IsStable P
      → Holds P (calling o e call) (λ _ s. P s)
  unfolding calling
  calling-Holds P o e call stable s p = answered-Holds P stable o.timestamp e (call s) s p

  decoded-Holds :
      {A : Type 0} (P : Chain W → Type 0) (r : Option A) → Holds P (decoded r) (λ _ s. P s)
  decoded-Holds P none s p a s' eq = thrown eq
  decoded-Holds P (some x) s p a s' eq = ended (λ _ s1. P s1) eq p

  pub asking-Holds :
      {A : Type 0} (P : Chain W → Type 0) (o : Outside W) (e : Error)
      (call : Chain W → Ended W (Option A))
      → IsStable P
      → Holds P (asking o e call) (λ _ s. P s)
  unfolding asking
  asking-Holds P o e call stable =
      >>=-Holds (λ _ s. P s) (calling-Holds P o e call stable) (decoded-Holds P)

  -- Code that keeps a property of the state.
  abbrev pub Preserves : {A : Type 0} → (Chain W → Type 0) → Code W A → Type 0
  Preserves P code = Holds P code (λ _ s. P s)

  pub >>=-Preserves :
      {A B : Type 0} (P : Chain W → Type 0) {first : Code W A} {next : A → Code W B}
      → Preserves P first
      → ((a : A) → Preserves P (next a))
      → Preserves P (first >>= next)
  >>=-Preserves P h k = >>=-Holds (λ _ s. P s) h k

  pub return-Preserves : {A : Type 0} (P : Chain W → Type 0) (a : A) → Preserves P (return a)
  return-Preserves P a = return-Holds (λ _ s. P s) a (λ s h. h)

  pub expect-Preserves :
      (P : Chain W → Type 0) (test : Bool) (e : Error) → Preserves P (expect test e)
  expect-Preserves P test e s p a s' eq = (expect-Holds P test e s p a s' eq).1

  -- The ether that the contract keeps besides what it owes and what was forced on it.
  abbrev pub Keeps : ℕ → Chain W → Type 0
  Keeps kept s = IsCovered (kept + s.forced) s.contract

  pub Keeps-IsStable : (kept : ℕ) → IsStable (Keeps kept)
  Keeps-IsStable kept now rs w s h =
      IsCovered-eq (perform now rs (s.contract, s.sequences)).0 (omega arith)
        (perform-IsCovered (kept + s.forced) now rs s.contract s.sequences h)

  -- It keeps nothing besides.
  pub Keeps-zero : (s : Chain W) → IsCovered s.forced s.contract → Keeps 0 s
  Keeps-zero s h = IsCovered-eq s.contract (omega arith) h

  pub zero-Keeps : (s : Chain W) → Keeps 0 s → IsCovered s.forced s.contract
  zero-Keeps s h = IsCovered-eq s.contract (omega arith) h

  -- A sequence number is at least this.
  abbrev pub Reaches : ℕ → ℕ → ℕ → Chain W → Type 0
  Reaches sender key n s = n ≤ s.sequences sender key

  pub Reaches-IsStable : (sender key n : ℕ) → IsStable (Reaches sender key n)
  Reaches-IsStable sender key n now rs w s h =
      omega (arith, perform-le now rs s.contract s.sequences sender key)

  pub Keeps-eq : (kept kept' : ℕ) (s : Chain W) → kept ≡ kept' → Keeps kept s → Keeps kept' s
  Keeps-eq kept kept' s eq h = subst (λ k. Keeps k s) eq h
