-- ===== src/Signer/Account/Deployment.antt =====
-- How `AASigner` (src/AASigner.ts) follows the deployment of its account, and the operations that
-- it makes before and after.
use mathlib.Core.Option
use mathlib.Core.Logic.{inl, inr}
use mathlib.Core.Path.{subst}
use falcon_smart_account.Prelude.{ℕ, ◌≡◌, sym, ap, some, true, false, arith}
use falcon_smart_account.Js.{Str}
use falcon_smart_account.Outcome.{Outcome, ok, >>=-eq-ok, Outcome-cases}
use falcon_smart_account.Ethers.{Ethers}
use falcon_smart_account.UserOp.Types.{UserOperation, PartialOp}
use falcon_smart_account.UserOp.Fill.{EntryPointClient}
use falcon_smart_account.UserOp.Keeps.{Honours, fill_user_op-Honours}
use falcon_smart_account.UserOp.Sign.{Wallet}
use falcon_smart_account.UserOp.Signed.{fill_and_sign_lem}
use falcon_smart_account.Signer.Account.{
  Backend, AaSigner, GasPrice, price_value, is_truthy, TransactionRequest, sync_account,
  fee_with_gas_price, operation_keys, keys_of, create_user_operation, get_account_init_code,
}

-- What a method leaves alone: the address once it is known, a deployment once it is seen, and the
-- index.
pub record Follows (s s' : AaSigner) : Type 0 where
  pub account : (a : Str) → s.account ≡ some a → s'.account ≡ some a
  pub deployed : s.is_phantom ≡ false → s'.is_phantom ≡ false
  pub index : s'.index ≡ s.index

module _ (b : Backend) where
  -- Bringing the signer in step, whether it ends well or throws, keeps the account's address, the
  -- index and the fact that the account is deployed.
  sync_account-Follows : (s : AaSigner) → Follows s (sync_account b s).1
  unfolding sync_account
  sync_account-Follows s = record {
    account = λ a h. ground arith;
    deployed = λ h. ground arith;
    index = ground arith;
  }

-- What an operation of a transaction has, for the state in which the signer was left.
pub record Carries (e : Ethers) (b : Backend) (tx : TransactionRequest) (s : AaSigner)
    (op : UserOperation) : Type 0 where
  pub sender : s.account ≡ some op.sender
  pub call : op.call_data ≡ b.encode_execute tx.to (Option.get_or tx.value 0) tx.call_data
  pub deployment :
      s.is_phantom ≡ true
      → (owner : Str) × (b.owner ≡ ok owner)
        × (op.init_code ≡ get_account_init_code e b owner 0)
        × (op.nonce ≡ s.index)
  pub nonce : (n : ℕ) → s.is_phantom ≡ false → tx.nonce ≡ some n → op.nonce ≡ n
  pub gas_limit : (g : ℕ) → tx.gas_limit ≡ some g → op.call_gas_limit ≡ g
  pub gas_price :
      (p : GasPrice)
      → tx.gas_price ≡ some p
      → is_truthy p ≡ true
      → (op.max_fee_per_gas ≡ price_value p) × (op.max_priority_fee_per_gas ≡ price_value p)

module _ (e : Ethers) (b : Backend) (tx : TransactionRequest) where
  owner_known :
      (s : AaSigner) (keys : PartialOp)
      → keys_of e b tx s ≡ ok keys
      → s.is_phantom ≡ true
      → (owner : Str) × (b.owner ≡ ok owner)
  unfolding keys_of
  owner_known s keys k phantom = elim (Outcome-cases b.owner) [
    | inl (owner, known) ↦ (owner, known)
    | inr (err, bad) ↦ ground arith
  ]

  keys-Carries :
      (s : AaSigner) (keys : PartialOp) (op : UserOperation) (signature : Str)
      → keys_of e b tx s ≡ ok keys
      → Honours keys op
      → Carries e b tx s (record op { signature = signature })
  unfolding keys_of operation_keys fee_with_gas_price
  keys-Carries s keys op signature k h = record {
    sender = ground arith;
    call = ground arith;
    deployment = λ phantom.
        let (owner, known) = owner_known s keys k phantom in
        (owner, known, ground arith, ground arith);
    nonce = λ n deployed given. ground arith;
    gas_limit = λ g given. ground arith;
    gas_price = λ p given truthy. ground arith;
  }

  -- An operation made of a transaction is sent by the account and calls `execute` with the
  -- transaction's target, value and data; it carries the account's init code, with the signer's
  -- index as its nonce, while the account is a phantom, and the transaction's nonce, if it gives
  -- one, once the account is deployed; the transaction's gas limit, and a gas price that is not
  -- zero for both fees, are kept.
  pub create_user_operation-Carries :
      (signer : Wallet) (entry_point : EntryPointClient) (chain : Outcome ℕ) (s s' : AaSigner)
      {op : UserOperation}
      → create_user_operation e b signer entry_point chain tx s ≡ (ok op, s')
      → Carries e b tx s' op
  unfolding create_user_operation
  create_user_operation-Carries signer entry_point chain s s' {op} h =
      let h0 : (create_user_operation e b signer entry_point chain tx s).0 ≡ ok op =
        ap (λ p. p.0) h in
      let (_, h1, k1) = >>=-eq-ok (sync_account b s).0 _ h0 in
      let (keys, h2, k2) = >>=-eq-ok (keys_of e b tx (sync_account b s).1) _ k1 in
      let (filled, h3, eq) = fill_and_sign_lem e keys signer (some entry_point) chain k2 in
      subst (λ t. Carries e b tx t op) (ap (λ p. p.1) h)
        (subst (Carries e b tx (sync_account b s).1) (sym eq) (
          keys-Carries (sync_account b s).1 keys filled op.signature h2
            (fill_user_op-Honours e (some entry_point) keys h3)))
