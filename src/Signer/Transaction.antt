-- ===== src/Signer/Transaction.antt =====
-- `sendTransaction` of src/AASigner.ts, and the response that `userEventResponse` returns.
use falcon_smart_account.Prelude.{ℕ, ◌≡◌, leb, arith, if◌then◌else◌}
use falcon_smart_account.Js.{Str}
use falcon_smart_account.Outcome.{
  Outcome, ok, throws, ◌>>=◌, >>=-eq-ok, or_throw, undefined_value, value_too_long,
}
use falcon_smart_account.Ethers.{Ethers}
use falcon_smart_account.UserOp.Types.{UserOperation}
use falcon_smart_account.UserOp.Fill.{EntryPointClient}
use falcon_smart_account.UserOp.Sign.{Wallet, get_user_op_hash}
use falcon_smart_account.Signer.Account.{
  Backend, AaSigner, Method, TransactionRequest, create_user_operation,
}

-- What the caller gets at once; `wait` is modelled with the events. The confirmations and the
-- value are always zero.
pub record TransactionResponse : Type 0 where
  pub hash : Str
  pub from : Str
  pub nonce : ℕ
  pub gas_limit : ℕ
  pub call_data : Str
  pub chain_id : ℕ

-- `BigNumber.toNumber()`, which throws above the safe integers.
unfoldable pub big_to_number : ℕ → Outcome ℕ
big_to_number n = if leb n 9007199254740991 then ok n else throws value_too_long

-- `await this._chainId!`, undefined where there is no provider.
abbrev pub known_chain : AaSigner → Outcome ℕ
known_chain s = or_throw s.chain_id undefined_value >>= λ id. id

module _ (e : Ethers) (hex_value : Str → Str) (entry_point : EntryPointClient) where
  unfoldable pub user_event_response : AaSigner → UserOperation → Outcome TransactionResponse
  user_event_response s op = do
    id ← known_chain s
    hash ← get_user_op_hash e op entry_point.address id
    nonce ← big_to_number op.nonce
    ok (record {
      hash = hash;
      from = op.sender;
      nonce = nonce;
      gas_limit = op.call_gas_limit;
      call_data = hex_value op.call_data;
      chain_id = id;
    })

  -- `sendTransaction`, with the sender that was given to the constructor.
  unfoldable pub send_transaction :
      Backend
      → Wallet
      → Outcome ℕ
      → (UserOperation → Outcome (Unit {0}))
      → TransactionRequest
      → Method TransactionResponse
  send_transaction b signer chain send_user_op tx s =
      let (r, s') = create_user_operation e b signer entry_point chain tx s in
      (
        r >>= λ op. user_event_response s' op >>= λ response. send_user_op op >>= λ _. ok response,
        s',
      )

  -- A transaction that is sent has a response whose hash is that of the operation made of it, for
  -- the entry point's address and the chain of the response, and exactly that operation was
  -- accepted by the sender.
  pub send_transaction_lem :
      (b : Backend) (signer : Wallet) (chain : Outcome ℕ)
      (send_user_op : UserOperation → Outcome (Unit {0})) (tx : TransactionRequest) (s : AaSigner)
      {response : TransactionResponse}
      → (send_transaction b signer chain send_user_op tx s).0 ≡ ok response
      → (op : UserOperation) × ((create_user_operation e b signer entry_point chain tx s).0 ≡ ok op)
        × (get_user_op_hash e op entry_point.address response.chain_id ≡ ok response.hash)
        × (response.from ≡ op.sender)
        × (response.nonce ≡ op.nonce)
        × (send_user_op op ≡ ok tt)
  unfolding send_transaction user_event_response big_to_number
  send_transaction_lem b signer chain send_user_op tx s {response} h =
      let (op, h1, k1) =
        >>=-eq-ok (create_user_operation e b signer entry_point chain tx s).0 _ h in
      let (resp, h2, k2) =
        >>=-eq-ok
          (user_event_response (create_user_operation e b signer entry_point chain tx s).1 op) _
          k1 in
      let (done, h3, k3) = >>=-eq-ok (send_user_op op) _ k2 in
      let (id, h4, k4) =
        >>=-eq-ok (known_chain (create_user_operation e b signer entry_point chain tx s).1) _ h2 in
      let (hash, h5, k5) = >>=-eq-ok (get_user_op_hash e op entry_point.address id) _ k4 in
      let (nonce, h6, k6) = >>=-eq-ok (big_to_number op.nonce) _ k5 in
      (op, h1, ground arith, ground arith, ground arith, ground arith)
