-- ===== src/UserOp/Signed.antt =====
-- What signing an operation does to it and to its hash (test/UserOp.ts).
use mathlib.Core.Path.{subst}
use falcon_smart_account.Prelude.{ℕ, ◌≡◌, ◌∙◌, Option, some, arith}
use falcon_smart_account.Js.{Str}
use falcon_smart_account.Outcome.{Outcome, ok, >>=-eq-ok, ok-injective, or_throw, undefined_value}
use falcon_smart_account.Ethers.{Ethers}
use falcon_smart_account.UserOp.Types.{UserOperation, PackedUserOperation, PartialOp}
use falcon_smart_account.UserOp.Pack.{pack_user_op, has_paymaster}
use falcon_smart_account.UserOp.Fill.{EntryPointClient, encode_user_op, fill_user_op}
use falcon_smart_account.UserOp.Sign.{
  Wallet, Recovers, get_erc4337_typed_data_domain, get_user_op_hash, sign_user_op, fill_and_sign,
  fill_sign_and_pack,
}

module _ (e : Ethers) where
  -- Packing keeps the sender and the call data.
  pub pack_user_op-call :
      (op : UserOperation) {packed : PackedUserOperation}
      → pack_user_op e op ≡ ok packed
      → (packed.sender ≡ op.sender) × (packed.call_data ≡ op.call_data)
  unfolding pack_user_op
  pack_user_op-call op h = (ground arith, ground arith)

  -- The hash of an operation does not depend on its signature.
  get_user_op_hash-signature :
      (op : UserOperation) (signature entry_point : Str) (chain_id : ℕ)
      → get_user_op_hash e (record op { signature = signature }) entry_point chain_id
        ≡ get_user_op_hash e op entry_point chain_id
  unfolding get_user_op_hash encode_user_op pack_user_op has_paymaster
  get_user_op_hash-signature op signature entry_point chain_id = ground arith

  -- Where recovery finds a key's address for the signatures that the key makes: a signed operation
  -- differs from the operation in its signature alone, has the same hash, and
  -- its signature recovers to the signer's address over the bytes of that hash.
  sign_user_op_lem :
      (signer : Wallet)
      → Recovers e signer
      → (op : UserOperation) (entry_point : Str) (chain_id : ℕ) {r : UserOperation}
      → sign_user_op e op signer entry_point chain_id ≡ ok r
      → (hash : Str) × (get_user_op_hash e r entry_point chain_id ≡ ok hash)
        × (r ≡ record op { signature = r.signature })
        × (signer.recover (e.arrayify hash) r.signature ≡ signer.wallet_address)
  unfolding sign_user_op
  sign_user_op_lem signer recovers op entry_point chain_id {r} h =
      let (hash, h1, h2) = >>=-eq-ok (get_user_op_hash e op entry_point chain_id) _ h in
      let eq : record op {
        signature = signer.sign_hash (e.arrayify hash) (e.arrayify signer.private_key);
      }
          ≡ r =
        ok-injective h2 in
      (
        hash,
        subst (λ u. get_user_op_hash e u entry_point chain_id ≡ ok hash) eq
            (get_user_op_hash-signature op _ entry_point chain_id ∙ h1),
        ground arith,
        subst
            (λ (u : UserOperation).
              signer.recover (e.arrayify hash) u.signature ≡ signer.wallet_address)
            eq (recovers (e.arrayify hash)),
      )

  pub pack_user_op-signature :
      (op : UserOperation) (signature : Str) {p : PackedUserOperation}
      → pack_user_op e op ≡ ok p
      → pack_user_op e (record op { signature = signature })
        ≡ ok (record p { signature = signature })
  unfolding pack_user_op has_paymaster
  pack_user_op-signature op signature h = ground arith

  -- What is sent is the packing of the filled operation but for its signature, which is the one
  -- that the key makes of exactly that packing, for the entry point's address and chain.
  pub fill_sign_and_pack_lem :
      (op : PartialOp) (signer : Wallet) (entry_point : Option EntryPointClient)
      (network : Outcome ℕ) {sent : PackedUserOperation}
      → fill_sign_and_pack e op signer entry_point network ≡ ok sent
      → (filled : UserOperation) × (packed : PackedUserOperation) × (ep : EntryPointClient)
        × (chain_id : ℕ) × (fill_user_op e entry_point op ≡ ok filled)
        × (entry_point ≡ some ep)
        × (network ≡ ok chain_id)
        × (pack_user_op e filled ≡ ok packed)
        × (signer.sign_typed_data (get_erc4337_typed_data_domain ep.address chain_id) packed
            ≡ ok sent.signature)
        × (sent ≡ record packed { signature = sent.signature })
  unfolding fill_sign_and_pack fill_and_sign
  fill_sign_and_pack_lem op signer entry_point network {sent} h =
      let (signed, h1, k1) = >>=-eq-ok (fill_and_sign e op signer entry_point network) _ h in
      let (filled, h2, k2) = >>=-eq-ok (fill_user_op e entry_point op) _ h1 in
      let (ep, h3, k3) = >>=-eq-ok (or_throw entry_point undefined_value) _ k2 in
      let (chain_id, h4, k4) = >>=-eq-ok network _ k3 in
      let (packed, h5, k5) = >>=-eq-ok (pack_user_op e filled) _ k4 in
      let (signature, h6, k6) =
        >>=-eq-ok
          (signer.sign_typed_data (get_erc4337_typed_data_domain ep.address chain_id) packed) _
          k5 in
      let eq : ◌≡◌ {A = Outcome PackedUserOperation} (ok (record packed { signature = signature }))
          (ok sent) =
        cc (pack_user_op-signature filled signature h5) in
      (filled, packed, ep, chain_id, h2, ground arith, h4, h5, ground arith, ground arith)

  -- Signing changes nothing of a filled operation but its signature.
  pub fill_and_sign_lem :
      (op : PartialOp) (signer : Wallet) (entry_point : Option EntryPointClient)
      (network : Outcome ℕ) {r : UserOperation}
      → fill_and_sign e op signer entry_point network ≡ ok r
      → (filled : UserOperation) × (fill_user_op e entry_point op ≡ ok filled)
        × (r ≡ record filled { signature = r.signature })
  unfolding fill_and_sign
  fill_and_sign_lem op signer entry_point network h =
      let (filled, h2, k2) = >>=-eq-ok (fill_user_op e entry_point op) _ h in
      let (ep, h3, k3) = >>=-eq-ok (or_throw entry_point undefined_value) _ k2 in
      let (chain_id, h4, k4) = >>=-eq-ok network _ k3 in
      let (packed, h5, k5) = >>=-eq-ok (pack_user_op e filled) _ k4 in
      let (signature, h6, k6) =
        >>=-eq-ok
          (signer.sign_typed_data (get_erc4337_typed_data_domain ep.address chain_id) packed) _
          k5 in
      (filled, h2, ground arith)
