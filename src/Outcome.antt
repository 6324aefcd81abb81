-- ===== src/Outcome.antt =====
-- The result of a call that may throw (TypeScript's exceptions and rejected promises).
use falcon_smart_account.Prelude.{ℕ, ◌≡◌, ◌⊎◌, inl, inr, refl, Option, none, some}

-- What is thrown, one constructor for each `throw` of the sources and each failing callee.
pub data Error : Type 0 where
  -- test/UserOp.ts, fillUserOp
  no_entrypoint_provider no_entrypoint_for_nonce no_entrypoint_for_call_gas : Error
  no_entrypoint_for_max_fee no_base_fee : Error
  -- `hexZeroPad`: the value does not fit; `reduce` of an empty array with no initial value
  value_too_long reduce_of_empty : Error
  -- src/Create2Factory.ts
  failed_to_deploy failed_to_deploy_factory : Error
  -- src/AASigner.ts
  already_connected non_existing_contract connect_not_implemented unsupported_by_aa : Error
  -- contracts/core/EntryPoint.sol, AA93
  invalid_paymaster_and_data : Error
  -- the same: `FailedOp` and `FailedOpWithRevert` with the operation's index and the number of the
  -- message (25 for AA25), and `require` with the number of its message
  failed_op failed_op_with_revert : ℕ → ℕ → Error
  refused : ℕ → Error
  -- the same: an external call that reverted, or whose answer does not decode; checked arithmetic
  call_reverted undecodable_answer panic : Error
  -- the same: the inner call's INNER_OUT_OF_GAS, INNER_REVERT_LOW_PREFUND and PostOpReverted, and
  -- its death without a reason
  inner_out_of_gas inner_revert_low_prefund post_op_reverted_error dead_call : Error
  -- the same: `SignatureValidationFailed` of an aggregator
  signature_validation_failed : ℕ → Error
  -- test/testutils.ts, findMin
  already_true_at_min false_at_max : Error
  -- decode-final.js and decode-full.js
  coefficient_out_of_range unexpected_end coefficient_too_large minus_zero unexpected_logn : Error
  -- gascalc/GasChecker.ts: an event with a revert reason, and the count of `expect`
  reverted : ℕ → Error
  some_ops_failed : Error
  -- no error of the source: a loop of the model ran out of fuel
  out_of_fuel : Error
  -- a property of `undefined` was read
  undefined_value : Error
  -- an error that the node, a provider or a signer reports, by number
  node_error : ℕ → Error

pub data Outcome {ℓ} (A : Type ℓ) : Type ℓ where
  ok : A → Outcome A
  throws : Error → Outcome A

-- Going on with what was returned; a throw ends the chain.
infixl 5 ◌>>=◌
abbrev pub ◌>>=◌ {ℓ κ} : {A : Type ℓ} {B : Type κ} → Outcome A → (A → Outcome B) → Outcome B
throws problem >>= next = throws problem
ok value >>= next = next value

-- A value that must not be missing.
abbrev pub or_throw {ℓ} : {A : Type ℓ} → Option A → Error → Outcome A
or_throw none e = throws e
or_throw (some a) e = ok a

-- Inversion of a successful chain.
pub >>=-eq-ok {ℓ κ} :
    {A : Type ℓ} {B : Type κ} (first : Outcome A) (next : A → Outcome B) {result : B}
    → (first >>= next) ≡ ok result
    → (value : A) × (first ≡ ok value) × (next value ≡ ok result)
>>=-eq-ok (throws problem) next h = cc
>>=-eq-ok (ok value) next h = (value, refl, h)

pub ok-injective {ℓ} : {A : Type ℓ} {a b : A} → ok a ≡ ok b → a ≡ b
ok-injective h = cc

pub Outcome-cases {ℓ} :
    {A : Type ℓ} (m : Outcome A) → ((a : A) × (m ≡ ok a)) ⊎ ((e : Error) × (m ≡ throws e))
Outcome-cases (ok a) = inl (a, refl)
Outcome-cases (throws e) = inr (e, refl)
