-- ===== src/Transfer.antt =====
-- `main` of scripts/anvil-falcon-tx.ts: the contracts, the account and the operation of a transfer
-- that a Falcon key signs. Contracts, the node and the Falcon kernel are parameters.
pub mod Signed
use falcon_smart_account.Prelude.{ℕ, ◌*◌, ◌/◌, ◌^◌, Option, none, some, List, [], ◌∷◌}
use falcon_smart_account.Prelude.Int.{ℤ}
use falcon_smart_account.Js.{Str, codes, data_hex}
use falcon_smart_account.Outcome.{Outcome, ok, or_throw, out_of_fuel}
use falcon_smart_account.Action.{Action, ◌>>=◌, lift}
use falcon_smart_account.Ethers.{Ethers}
use falcon_smart_account.UserOp.Types.{
  UserOperation, PackedUserOperation, empty_op, defaults_for_user_op, empty_hex,
}
use falcon_smart_account.UserOp.Pack.{pack_user_op}
use falcon_smart_account.UserOp.Fill.{fill_user_op_defaults}
use falcon_smart_account.Falcon.PublicKey.{decode_pk}
use falcon_smart_account.Falcon.Signature.{decompress_s2}

-- An argument of a constructor.
pub data Argument : Type 0 where
  contract : Str → Argument
  number : ℕ → Argument
  bytes : Str → Argument

-- `genkey()` and `sign(payload, keypair.sk)` of the Falcon kernel.
pub record Kernel : Type 0 where
  pub pk : List ℕ
  pub sign : List ℕ → List ℕ

pub record TransferBackend (W : Type 0) : Type 0 where
  -- the deployment of the contract with a name, and its address
  pub deploy : Str → List Argument → Action W Str
  -- `account.initialize(owner, publicKey, verifier)` and `account.publicKey(i)`
  pub initialize : Str → Str → List ℕ → Str → Action W (Unit {0})
  pub public_key : Str → ℕ → Action W ℕ
  pub send_value : Str → ℕ → Action W (Unit {0})
  pub add_deposit : Str → ℕ → Action W (Unit {0})
  -- `getNetwork()`, whose chain id is not used
  pub network : W → Outcome ℕ
  pub encode_execute : Str → ℕ → Str → Str
  -- `entryPoint.getUserOpHash(op)` in a state, and the encoding of a signature
  pub get_user_op_hash : W → Str → PackedUserOperation → Outcome Str
  pub encode_signature : List ℤ → Str → Str
  -- `handleOps` of the entry point for a beneficiary with a gas limit: called, and sent
  pub call_static : W → Str → List PackedUserOperation → Str → ℕ → Outcome (Unit {0})
  pub handle_ops : Str → List PackedUserOperation → Str → ℕ → Action W ℕ

abbrev pub ether : ℕ
ether = 10 ^ 18

-- `handleOps` has a gas limit of 150 million.
abbrev pub bundle_gas : ℕ
bundle_gas = 150000000

module _ (e : Ethers) {W : Type 0} (b : TransferBackend W) (kernel : Kernel) where
  -- The verifier with the contracts that it uses.
  unfoldable pub deploy_verifier : Action W Str
  deploy_verifier = do
    constants ← b.deploy (codes "FalconConstants") []
    h2p ← b.deploy (codes "ZKNOX_HashToPoint") []
    ntt ←
        b.deploy (codes "ZKNOX_NTT")
          (contract constants ∷ contract constants ∷ number 12289 ∷ number 12265 ∷ [])
    b.deploy (codes "ZKNOX_falcon") (contract ntt ∷ contract h2p ∷ [])

  -- The account behind its proxy, which is given the decoded key.
  unfoldable pub deploy_account : Str → Str → Str → Action W Str
  deploy_account entry_point owner verifier = do
    implementation ← b.deploy (codes "FalconSimpleAccount") (contract entry_point ∷ [])
    proxy ← b.deploy (codes "ERC1967Proxy") (contract implementation ∷ bytes empty_hex ∷ [])
    _ ← b.initialize proxy owner (decode_pk kernel.pk) verifier
    _ ← b.public_key proxy 0
    lift (ok proxy)

  -- `10.0` to the account, and `1.0` for its deposit.
  unfoldable pub fund_account : Str → Action W (Unit {0})
  fund_account account = do _ ← b.send_value account (10 * ether); b.add_deposit account (1 * ether)

  -- `fillUserOpDefaults({ sender, callData, … })`
  unfoldable pub transfer_op : Str → Str → UserOperation
  transfer_op account receiver =
      fill_user_op_defaults
        (record empty_op {
          sender = some account;
          call_data = some (b.encode_execute receiver (ether / 10) empty_hex);
          call_gas_limit = some 300000;
          verification_gas_limit = some 100000000;
          max_fee_per_gas = some 3000000000;
        })
        defaults_for_user_op

  -- The signature over the hash of the operation that is not signed yet, with the fuel of its unary
  -- counts.
  unfoldable pub sign_transfer : ℕ → Str → UserOperation → Action W PackedUserOperation
  sign_transfer fuel entry_point op = do
    packed ← lift (pack_user_op e op)
    user_op_hash ← λ w. (b.get_user_op_hash w entry_point packed, w)
    let (s2, salt) = decompress_s2 fuel (kernel.sign (e.arrayify user_op_hash))
    coefficients ← lift (or_throw s2 out_of_fuel)
    lift
        (pack_user_op e (record op { signature = b.encode_signature coefficients (data_hex salt) }))

  -- The operation is sent when a call of `handleOps` has not thrown.
  unfoldable pub relay : Str → Str → PackedUserOperation → Action W ℕ
  relay entry_point beneficiary packed_op = do
    _ ← λ w. (b.call_static w entry_point (packed_op ∷ []) beneficiary bundle_gas, w)
    b.handle_ops entry_point (packed_op ∷ []) beneficiary bundle_gas

  -- `main`, with what the receipt says of the gas used.
  unfoldable pub main : ℕ → Str → Str → Action W ℕ
  main fuel signer receiver = do
    entry_point ← b.deploy (codes "EntryPoint") []
    verifier ← deploy_verifier
    account ← deploy_account entry_point signer verifier
    _ ← fund_account account
    _ ← λ w. (b.network w, w)
    packed_op ← sign_transfer fuel entry_point (transfer_op account receiver)
    relay entry_point signer packed_op
