-- ===== src/GasCheck/Created.antt =====
-- What `createAccounts1` of gascalc/GasChecker.ts does to the accounts it knows.
use mathlib.Core.Path.{subst}
use falcon_smart_account.Prelude.{
  ℕ, ◌*◌, leb, ◌≡◌, refl, sym, ap, ◌∙◌, Bool, true, false, List, [], ◌∷◌, ◌++◌, arith, text_eq_refl,
  All, Bool-cases, inl, inr,
}
use falcon_smart_account.Js.{Str}
use falcon_smart_account.Outcome.{Outcome, ok, throws, ok-injective, Outcome-cases}
use falcon_smart_account.Ethers.{Ethers, address}
use falcon_smart_account.Create2.Address.{number}
use falcon_smart_account.Create2.Deploy.{exactly, deploy}
use falcon_smart_account.UserOp.Types.{PackedUserOperation}
use falcon_smart_account.GasCheck.Accounts.{
  GasBackend, Checker, min_deposit_or_balance, has, add, creation_ops, top_up, with_account,
  create_loop, send_ops, after_factory, create_accounts, range,
}

has-append : (x : Str) (ys : List Str) → has x (ys ++ x ∷ []) ≡ true
has-append x [] = ground (arith, text_eq_refl x)
has-append x (y ∷ ys) = ground (arith, has-append x ys)

has-append_left : (x y : Str) (ys : List Str) → has x ys ≡ true → has x (ys ++ y ∷ []) ≡ true
has-append_left x y (z ∷ ys) h = ground (arith, has-append_left x y ys)
has-append_left x y [] h = cc

has-add : (x : Str) (ys : List Str) → has x (add x ys) ≡ true
has-add x ys = elim (Bool-cases (has x ys)) [
  | inl there ↦ rw there there
  | inr new ↦ rw new (has-append x ys)
]

has-add_other : (x y : Str) (ys : List Str) → has x ys ≡ true → has x (add y ys) ≡ true
has-add_other x y ys h = elim (Bool-cases (has y ys)) [
  | inl there ↦ rw there h
  | inr new ↦ rw new (has-append_left x y ys h)
]

-- An account is known when it is in the set of the created ones and a key of `accounts`.
pub record IsKnown (s : Checker) (account : Str) : Type 0 where
  pub created : has account s.created_accounts ≡ true
  pub key : has account s.accounts ≡ true

module _ (e : Ethers) {W : Type 0} (b : GasBackend W) where
  with_account-IsKnown :
      (s : Checker) (x account : Str) → IsKnown s x → IsKnown (with_account e b account s) x
  unfolding with_account
  with_account-IsKnown s x account h = record {
    created = has-add_other x account s.created_accounts h.created;
    key = has-add_other x account s.accounts h.key;
  }

  with_account-new : (s : Checker) (account : Str) → IsKnown (with_account e b account s) account
  unfolding with_account
  with_account-new s account = record {
    created = has-add account s.created_accounts;
    key = has-add account s.accounts;
  }

  -- The factory at an address is there from a state on: it gives each salt its account, and a
  -- payment to an account leaves it there.
  pub record IsFactory (account_of : ℕ → Str) (factory : Str) (IsThere : W → Type 0) : Type 0 where
    pub answers :
        (w : W) (salt : ℕ) → IsThere w → b.account_address w factory salt ≡ ok (account_of salt)
    pub stays :
        (account : Str) (value : ℕ) (w : W) → IsThere w → IsThere (b.deposit_to account value w).1

  -- What `createAccounts1` deploys at first.
  abbrev pub deploy_account_factory : W → Outcome Str × Bool × W
  deploy_account_factory w =
      deploy b.chain e
        (e.hex_concat (b.factory_bytecode ∷ e.abi_encode (address b.entry_point ∷ []) ∷ []))
        (number 0) (exactly 2885201) false w

  module _ (account_of : ℕ → Str) (factory : Str) (IsThere : W → Type 0)
      (good : IsFactory account_of factory IsThere) where
    top_up-stays : (account : Str) (w : W) → IsThere w → IsThere (top_up e b account w).1
    unfolding top_up
    top_up-stays account w there =
        elim (Bool-cases (leb (b.balance_of w account) min_deposit_or_balance)) [
          | inl poor ↦ rw (poor) (good.stays account (min_deposit_or_balance * 5) w there)
          | inr rich ↦ rw (rich) there
        ]

    loop_keeps :
        (salts : List ℕ) (ops : List PackedUserOperation) (s : Checker) (w : W) (x : Str)
        → IsThere w
        → IsKnown s x
        → IsKnown (create_loop e b factory salts ops s w).1 x
    unfolding create_loop
    loop_keeps [] ops s w x there h = h
    loop_keeps (salt ∷ salts) ops s w x there h =
        let account = account_of salt in
        elim (Outcome-cases (creation_ops e b factory salt account s w)) [
          | inr (err, bad) ↦ rw (good.answers w salt there, bad, create_loop) h
          | inl (new, made) ↦ elim (Outcome-cases (top_up e b account w).0) [
            | inr (err, bad) ↦
                rw (good.answers w salt there, made, bad, create_loop)
                  (with_account-IsKnown s x account h)
            | inl (_, paid) ↦
                rw (good.answers w salt there, made, paid, create_loop)
                  (loop_keeps salts (ops ++ new) (with_account e b account s)
                    (top_up e b account w).1 x (top_up-stays account w there)
                    (with_account-IsKnown s x account h))
          ]
        ]

    loop_knows :
        (salts : List ℕ) (ops : List PackedUserOperation) (s : Checker) (w : W)
        {all : List PackedUserOperation}
        → IsThere w
        → (create_loop e b factory salts ops s w).0 ≡ ok all
        → All
            (λ (salt : ℕ). IsKnown (create_loop e b factory salts ops s w).1 (account_of salt))
            salts
    unfolding create_loop
    loop_knows [] ops s w there h = tt
    loop_knows (salt ∷ salts) ops s w there h =
        let account = account_of salt in
        elim (Outcome-cases (creation_ops e b factory salt account s w)) [
          | inr (err, bad) ↦ ground (arith, good.answers w salt there)
          | inl (new, made) ↦ elim (Outcome-cases (top_up e b account w).0) [
            | inr (err, bad) ↦ ground (arith, good.answers w salt there)
            | inl (_, paid) ↦
                let step : create_loop e b factory (salt ∷ salts) ops s w
                    ≡ create_loop e b factory salts (ops ++ new) (with_account e b account s)
                        (top_up e b account w).1 =
                  rw (good.answers w salt there, made, paid, create_loop) refl in
                subst
                  (λ (d : Outcome (List PackedUserOperation) × Checker × W).
                    All (λ (i : ℕ). IsKnown d.1 (account_of i)) (salt ∷ salts))
                  (sym step)
                  (
                    loop_keeps salts (ops ++ new) (with_account e b account s)
                        (top_up e b account w).1 account (top_up-stays account w there)
                        (with_account-new s account),
                    loop_knows salts (ops ++ new) (with_account e b account s)
                        (top_up e b account w).1 (top_up-stays account w there)
                        (ap (λ d. d.0) (sym step) ∙ h),
                  )
          ]
        ]

    sent_knows :
        (salts : List ℕ) (d : Outcome (List PackedUserOperation) × Checker × W)
        → ((all : List PackedUserOperation)
            → d.0 ≡ ok all
            → All (λ (salt : ℕ). IsKnown d.1 (account_of salt)) salts)
        → (send_ops e b d).0 ≡ ok tt
        → All (λ (salt : ℕ). IsKnown (send_ops e b d).1 (account_of salt)) salts
    unfolding send_ops
    sent_knows salts (throws err, s, w) known h = cc
    sent_knows salts (ok ops, s, w) known h = known ops refl

    after_knows :
        (count : ℕ) (s : Checker) (d : Outcome Str × Bool × W)
        → d.0 ≡ ok factory
        → IsThere d.2
        → (after_factory e b count s d).0 ≡ ok tt
        → All
            (λ (salt : ℕ). IsKnown (after_factory e b count s d).1 (account_of salt))
            (range count)
    unfolding after_factory
    after_knows count s (throws err, _, w) same there h = cc
    after_knows count s (ok found, deployed, w) same there h =
        subst
          (λ (f : Str).
            (after_factory e b count s (ok f, deployed, w)).0 ≡ ok tt
            → All
                (λ (salt : ℕ).
                  IsKnown (after_factory e b count s (ok f, deployed, w)).1 (account_of salt))
                (range count))
          (sym (ok-injective same))
          (λ done.
            sent_knows (range count) (create_loop e b factory (range count) [] s w)
              (λ all looped. loop_knows (range count) [] s w there looped) done)
          h

    -- Where the factory that is deployed at first then gives each salt its account, also after
    -- payments to accounts, creating accounts for a count that ends well leaves every account of the
    -- salts below the count in the set of created accounts and among the accounts that a test can
    -- use.
    pub create_accounts-IsKnown :
        (count : ℕ) (s : Checker) (w : W)
        → (deploy_account_factory w).0 ≡ ok factory
        → IsThere (deploy_account_factory w).2
        → (create_accounts e b count s w).0 ≡ ok tt
        → All
            (λ (salt : ℕ). IsKnown (create_accounts e b count s w).1 (account_of salt))
            (range count)
    unfolding create_accounts
    create_accounts-IsKnown count s w same there h = after_knows count s _ same there h
