-- ===== src/Transfer/Signed.antt =====
-- What `main` of scripts/anvil-falcon-tx.ts sends.
use mathlib.Core.Path.{subst}
use falcon_smart_account.Prelude.{ℕ, ◌≡◌, sym, ap, ◌∙◌, Option, some, none, List, [], ◌∷◌}
use falcon_smart_account.Prelude.Int.{ℤ}
use falcon_smart_account.Js.{Str, codes, data_hex}
use falcon_smart_account.Outcome.{Outcome, ok, or_throw, ok-injective, out_of_fuel}
use falcon_smart_account.Action.{lift, >>=-eq-ok}
use falcon_smart_account.Ethers.{Ethers}
use falcon_smart_account.UserOp.Types.{UserOperation, PackedUserOperation}
use falcon_smart_account.UserOp.Pack.{pack_user_op}
use falcon_smart_account.UserOp.Signed.{pack_user_op-signature}
use falcon_smart_account.Falcon.Signature.{decompress_s2}
use falcon_smart_account.Transfer.{
  Kernel, TransferBackend, bundle_gas, deploy_verifier, deploy_account, fund_account, transfer_op,
  sign_transfer, relay, main,
}

module _ (e : Ethers) {W : Type 0} (b : TransferBackend W) (kernel : Kernel) where
  -- An operation and its signature: the kernel's, decompressed and encoded, over the hash that the
  -- entry point gives for the operation with no signature.
  pub record IsSigned (fuel : ℕ) (entry_point : Str) (op : UserOperation) (w : W)
      (sent : PackedUserOperation) : Type 0 where
    pub packed : PackedUserOperation
    pub hash : Str
    pub coefficients : List ℤ
    pub salt : List ℕ
    pub packs : pack_user_op e op ≡ ok packed
    pub hashed : b.get_user_op_hash w entry_point packed ≡ ok hash
    pub decompressed :
        decompress_s2 fuel (kernel.sign (e.arrayify hash)) ≡ (some coefficients, salt)
    pub same : sent ≡ record packed { signature = b.encode_signature coefficients (data_hex salt) }

  or_throw-ok : (o : Option (List ℤ)) (xs : List ℤ) → or_throw o out_of_fuel ≡ ok xs → o ≡ some xs
  or_throw-ok none xs h = cc
  or_throw-ok (some ys) xs h = ap (λ (t : List ℤ). some t) (ok-injective h)

  lift-eq :
      {A : Type 0} (r : Outcome A) (a : A) (w w1 : W)
      → lift r w ≡ (ok a, w1)
      → (r ≡ ok a) × (w ≡ w1)
  lift-eq r a w w1 h = (ap (λ x. x.0) h, ap (λ x. x.1) h)

  sign_transfer-IsSigned :
      (fuel : ℕ) (entry_point : Str) (op : UserOperation) (w w' : W) (sent : PackedUserOperation)
      → sign_transfer e b kernel fuel entry_point op w ≡ (ok sent, w')
      → IsSigned fuel entry_point op w sent × (w ≡ w')
  unfolding sign_transfer
  sign_transfer-IsSigned fuel entry_point op w w' sent h =
      let (packed, w1, made1, h1) = >>=-eq-ok (lift (pack_user_op e op)) _ w h in
      let (packs, same1) = lift-eq (pack_user_op e op) packed w w1 made1 in
      let (hash, w2, made2, h2) =
        >>=-eq-ok (λ w. (b.get_user_op_hash w entry_point packed, w)) _ w1 h1 in
      let found = decompress_s2 fuel (kernel.sign (e.arrayify hash)) in
      let (coefficients, w3, made3, h3) = >>=-eq-ok (lift (or_throw found.0 out_of_fuel)) _ w2 h2 in
      let (some_found, same3) = lift-eq (or_throw found.0 out_of_fuel) coefficients w2 w3 made3 in
      let signature = b.encode_signature coefficients (data_hex found.1) in
      let (packs_signed, same4) =
        lift-eq (pack_user_op e (record op { signature = signature })) sent w3 w' h3 in
      (
        record {
          packed = packed;
          hash = hash;
          coefficients = coefficients;
          salt = found.1;
          packs = packs;
          hashed =
              ap (λ (v : W). b.get_user_op_hash v entry_point packed) same1 ∙ ap (λ x. x.0) made2;
          decompressed =
              ap (λ (o : Option (List ℤ)). (o, found.1))
                (or_throw-ok found.0 coefficients some_found);
          same = ok-injective (sym packs_signed ∙ pack_user_op-signature e op signature packs);
        },
        same1 ∙ ap (λ x. x.1) made2 ∙ same3 ∙ same4,
      )

  -- The entry point, the verifier and the account are those that a run deploys from a state, and
  -- the account is given its ether, up to the state before the operation is made.
  pub record IsDeployed (signer : Str) (w : W) (entry_point account : Str) (before : W)
      : Type 0 where
    pub verifier : Str
    pub with_entry_point : W
    pub with_verifier : W
    pub with_account : W
    pub entry_point_deployed :
        b.deploy (codes "EntryPoint") [] w ≡ (ok entry_point, with_entry_point)
    pub verifier_deployed :
        deploy_verifier e b kernel with_entry_point ≡ (ok verifier, with_verifier)
    pub account_deployed :
        deploy_account e b kernel entry_point signer verifier with_verifier
        ≡ (ok account, with_account)
    pub funded : fund_account e b kernel account with_account ≡ (ok tt, before)

  -- What a run of the script that ends well has sent.
  pub record IsRelayed (fuel : ℕ) (signer receiver : Str) (w : W) (gas : ℕ) (w' : W) : Type 0 where
    pub entry_point : Str
    pub account : Str
    pub before : W
    pub is_deployed : IsDeployed signer w entry_point account before
    pub sent : PackedUserOperation
    pub is_signed : IsSigned fuel entry_point (transfer_op e b kernel account receiver) before sent
    pub accepted : b.call_static before entry_point (sent ∷ []) signer bundle_gas ≡ ok tt
    pub relayed : b.handle_ops entry_point (sent ∷ []) signer bundle_gas before ≡ (ok gas, w')

  relay-IsRelayed :
      (fuel : ℕ) (signer receiver entry_point account : Str) (sent : PackedUserOperation) (gas : ℕ)
      (start w w1 w' : W)
      → IsDeployed signer start entry_point account w
      → sign_transfer e b kernel fuel entry_point (transfer_op e b kernel account receiver) w
        ≡ (ok sent, w1)
      → relay e b kernel entry_point signer sent w1 ≡ (ok gas, w')
      → IsRelayed fuel signer receiver start gas w'
  unfolding relay
  relay-IsRelayed fuel signer receiver entry_point account sent gas start w w1 w' deployed signs h =
      let (is_signed, same) = sign_transfer-IsSigned fuel entry_point _ w w1 sent signs in
      let (_, w2, called, h2) =
        >>=-eq-ok (λ v. (b.call_static v entry_point (sent ∷ []) signer bundle_gas, v)) _ w1 h in
      record {
        entry_point = entry_point;
        account = account;
        before = w;
        is_deployed = deployed;
        sent = sent;
        is_signed = is_signed;
        accepted =
            ap (λ (v : W). b.call_static v entry_point (sent ∷ []) signer bundle_gas) same
            ∙ ap (λ x. x.0) called;
        relayed =
            ap (b.handle_ops entry_point (sent ∷ []) signer bundle_gas)
              (same ∙ ap (λ x. x.1) called)
            ∙ h2;
      }

  -- A run that ends well has deployed an entry point, a verifier and an account for them, in this
  -- order, has funded that account, and has, as its last call, sent this account's transfer to this
  -- entry point in a bundle of one, in a state where a call of it did not throw. The operation is the one with no
  -- signature that the entry point gave the hash of, but for its signature, which encodes the
  -- kernel's signature of that hash.
  pub main-IsRelayed :
      (fuel : ℕ) (signer receiver : Str) (w w' : W) (gas : ℕ)
      → main e b kernel fuel signer receiver w ≡ (ok gas, w')
      → IsRelayed fuel signer receiver w gas w'
  unfolding main
  main-IsRelayed fuel signer receiver w w' gas h =
      let (entry_point, w1, d1, h1) = >>=-eq-ok (b.deploy (codes "EntryPoint") []) _ w h in
      let (verifier, w2, d2, h2) = >>=-eq-ok (deploy_verifier e b kernel) _ w1 h1 in
      let (account, w3, d3, h3) =
        >>=-eq-ok (deploy_account e b kernel entry_point signer verifier) _ w2 h2 in
      let (_, w4, d4, h4) = >>=-eq-ok (fund_account e b kernel account) _ w3 h3 in
      let (_, w5, d5, h5) = >>=-eq-ok (λ v. (b.network v, v)) _ w4 h4 in
      let op = transfer_op e b kernel account receiver in
      let (sent, w6, signs, h6) =
        >>=-eq-ok (sign_transfer e b kernel fuel entry_point op) _ w5 h5 in
      let deployed : IsDeployed signer w entry_point account w4 = record {
        verifier = verifier;
        with_entry_point = w1;
        with_verifier = w2;
        with_account = w3;
        entry_point_deployed = d1;
        verifier_deployed = d2;
        account_deployed = d3;
        funded = d4;
      } in
      relay-IsRelayed fuel signer receiver entry_point account sent gas w w5 w6 w'
        (subst (IsDeployed signer w entry_point account) (ap (λ x. x.1) d5) deployed) signs h6
