-- ===== src/UserOp/Sign.antt =====
-- `getDomainSeparator`, `getUserOpHash`, `signUserOp`, `fillAndSign` and `fillSignAndPack` of
-- test/UserOp.ts. Signing itself (`ecsign` with `toRpcSig`, `_signTypedData`) is a parameter.
use falcon_smart_account.Prelude.{ℕ, ◌≡◌, Option, true, List, [], ◌∷◌}
use falcon_smart_account.Js.{Str, data_hex, codes}
use falcon_smart_account.Outcome.{Outcome, ok, ◌>>=◌, or_throw, undefined_value}
use falcon_smart_account.Ethers.{Ethers, bytes32, address, uint256}
use falcon_smart_account.UserOp.Types.{UserOperation, PackedUserOperation, PartialOp}
use falcon_smart_account.UserOp.Pack.{pack_user_op}
use falcon_smart_account.UserOp.Fill.{EntryPointClient, encode_user_op, fill_user_op}

-- `TypedDataDomain`
pub record Domain : Type 0 where
  pub name : Str
  pub version : Str
  pub chain_id : ℕ
  pub verifying_contract : Str

-- `getErc4337TypedDataDomain`
unfoldable pub get_erc4337_typed_data_domain : Str → ℕ → Domain
get_erc4337_typed_data_domain entry_point chain_id = record {
  name = codes "ERC4337";
  version = codes "1";
  chain_id = chain_id;
  verifying_contract = entry_point;
}

-- A key that signs: a message hash as bytes, and typed data (here a packed operation). `recover`
-- stands for the address that ECDSA recovery finds, which is that of the key for its signatures.
pub record Wallet : Type 0 where
  pub private_key : Str
  pub wallet_address : Str
  pub sign_hash : List ℕ → List ℕ → Str
  pub sign_typed_data : Domain → PackedUserOperation → Outcome Str
  pub recover : List ℕ → Str → Str

-- The documented behaviour of ECDSA: signing a hash with a key's bytes is recovered to its address.
abbrev pub Recovers : Ethers → Wallet → Type 0
Recovers e w =
    (hash : List ℕ)
    → w.recover hash (w.sign_hash hash (e.arrayify w.private_key)) ≡ w.wallet_address

module _ (e : Ethers) where
  unfoldable pub get_domain_separator : Str → ℕ → Str
  unfolding get_erc4337_typed_data_domain
  get_domain_separator entry_point chain_id =
      let domain = get_erc4337_typed_data_domain entry_point chain_id in
      e.keccak256 (
        e.abi_encode (
          bytes32 (
            e.keccak256 (
              data_hex (
                codes
                  "EIP712Domain(string name,string version,uint256 chainId,address verifyingContract)")))
          ∷ bytes32 (e.keccak256 (data_hex domain.name))
          ∷ bytes32 (e.keccak256 (data_hex domain.version))
          ∷ uint256 domain.chain_id
          ∷ address domain.verifying_contract
          ∷ []))

  unfoldable pub get_user_op_hash : UserOperation → Str → ℕ → Outcome Str
  get_user_op_hash op entry_point chain_id = do
    packed ← encode_user_op e op true
    ok (
        e.keccak256 (
          e.hex_concat
            (codes "0x1901" ∷ get_domain_separator entry_point chain_id ∷ e.keccak256 packed ∷ [])))

  unfoldable pub sign_user_op : UserOperation → Wallet → Str → ℕ → Outcome UserOperation
  sign_user_op op signer entry_point chain_id = do
    message ← get_user_op_hash op entry_point chain_id
    ok (record op {
      signature = signer.sign_hash (e.arrayify message) (e.arrayify signer.private_key);
    })

  -- `fillAndSign`; with no entry point `provider!.getNetwork()` reads a property of undefined.
  unfoldable pub fill_and_sign :
      PartialOp → Wallet → Option EntryPointClient → Outcome ℕ → Outcome UserOperation
  fill_and_sign op signer entry_point network = do
    op2 ← fill_user_op e entry_point op
    ep ← or_throw entry_point undefined_value
    chain_id ← network
    packed ← pack_user_op e op2
    signature ← signer.sign_typed_data (get_erc4337_typed_data_domain ep.address chain_id) packed
    ok (record op2 { signature = signature })

  unfoldable pub fill_sign_and_pack :
      PartialOp → Wallet → Option EntryPointClient → Outcome ℕ → Outcome PackedUserOperation
  fill_sign_and_pack op signer entry_point network = do
    signed ← fill_and_sign op signer entry_point network
    pack_user_op e signed
