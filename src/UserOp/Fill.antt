-- ===== src/UserOp/Fill.antt =====
-- `fillUserOpDefaults`, `encodeUserOp`, `fillUserOp` and `fillAndPack` of test/UserOp.ts, and
-- `callDataCost` of test/testutils.ts.
use mathlib.Core.Option
use falcon_smart_account.Prelude.{
  ℕ, ◌+◌, Option, none, some, Bool, true, false, [], ◌∷◌, ◌==◌, text_eq, if◌then◌else◌,
}
use falcon_smart_account.Js.{Str, data_hex, codes, to_lower_case}
use falcon_smart_account.Outcome.{
  Error, Outcome, ok, throws, ◌>>=◌, or_throw, no_entrypoint_provider, no_entrypoint_for_nonce,
  no_entrypoint_for_call_gas, no_entrypoint_for_max_fee, no_base_fee,
}
use falcon_smart_account.Ethers.{Ethers, bytes32, address, uint256, bytes}
use falcon_smart_account.UserOp.Types.{
  UserOperation, PackedUserOperation, PartialOp, defaults_for_user_op,
}
use falcon_smart_account.Create2.Address.{contract_address, get_deployed_address, text}
use falcon_smart_account.UserOp.Cost.{bytes_cost}
use falcon_smart_account.UserOp.Pack.{pack_user_op}

-- `fillUserOpDefaults(op, defaults)`: a key that is missing or null takes its default.
unfoldable pub fill_user_op_defaults : PartialOp → UserOperation → UserOperation
fill_user_op_defaults op defaults = record {
  sender = Option.get_or op.sender defaults.sender;
  nonce = Option.get_or op.nonce defaults.nonce;
  init_code = Option.get_or op.init_code defaults.init_code;
  call_data = Option.get_or op.call_data defaults.call_data;
  call_gas_limit = Option.get_or op.call_gas_limit defaults.call_gas_limit;
  verification_gas_limit = Option.get_or op.verification_gas_limit defaults.verification_gas_limit;
  pre_verification_gas = Option.get_or op.pre_verification_gas defaults.pre_verification_gas;
  max_fee_per_gas = Option.get_or op.max_fee_per_gas defaults.max_fee_per_gas;
  max_priority_fee_per_gas =
      Option.get_or op.max_priority_fee_per_gas defaults.max_priority_fee_per_gas;
  paymaster = Option.get_or op.paymaster defaults.paymaster;
  paymaster_verification_gas_limit =
      Option.get_or op.paymaster_verification_gas_limit defaults.paymaster_verification_gas_limit;
  paymaster_post_op_gas_limit =
      Option.get_or op.paymaster_post_op_gas_limit defaults.paymaster_post_op_gas_limit;
  paymaster_data = Option.get_or op.paymaster_data defaults.paymaster_data;
  signature = Option.get_or op.signature defaults.signature;
}

-- A call whose gas the node estimates; `none` is a key that is undefined.
pub record GasQuery : Type 0 where
  pub from : Option Str
  pub to : Option Str
  pub call_data : Option Str
  pub gas_limit : Option ℕ

-- The entry point contract with its provider, as far as `fillUserOp` reads them.
pub record EntryPointClient : Type 0 where
  pub address : Str
  pub sender_creator : Outcome Str
  -- the sender that `getSenderAddress(initCode)` reports
  pub get_sender_address : Str → Outcome Str
  pub estimate_gas : GasQuery → Outcome ℕ
  -- the nonce function of the contract at an address
  pub get_nonce : Option Str → Outcome ℕ
  -- `getBlock('latest').baseFeePerGas`, which may be null
  pub base_fee_per_gas : Outcome (Option ℕ)

module _ (e : Ethers) where
  -- `callDataCost`
  unfoldable pub call_data_cost : Str → Outcome ℕ
  call_data_cost d = bytes_cost (e.arrayify d)

  -- `PACKED_USEROP_TYPEHASH`
  unfoldable pub packed_userop_typehash : Str
  packed_userop_typehash = e.keccak256 (
      data_hex (
        codes
          "PackedUserOperation(address sender,uint256 nonce,bytes initCode,bytes callData,bytes32 accountGasLimits,uint256 preVerificationGas,bytes32 gasFees,bytes paymasterAndData)"))

  unfoldable pub encode_signed : PackedUserOperation → Str
  encode_signed p = e.abi_encode (
      bytes32 packed_userop_typehash
      ∷ address p.sender
      ∷ uint256 p.nonce
      ∷ bytes32 (e.keccak256 p.init_code)
      ∷ bytes32 (e.keccak256 p.call_data)
      ∷ bytes32 p.account_gas_limits
      ∷ uint256 p.pre_verification_gas
      ∷ bytes32 p.gas_fees
      ∷ bytes32 (e.keccak256 p.paymaster_and_data)
      ∷ [])

  encode_unsigned : PackedUserOperation → Str
  encode_unsigned p = e.abi_encode (
      bytes32 packed_userop_typehash
      ∷ address p.sender
      ∷ uint256 p.nonce
      ∷ bytes p.init_code
      ∷ bytes p.call_data
      ∷ bytes32 p.account_gas_limits
      ∷ uint256 p.pre_verification_gas
      ∷ bytes32 p.gas_fees
      ∷ bytes p.paymaster_and_data
      ∷ bytes p.signature
      ∷ [])

  -- `encodeUserOp(op, forSignature)`
  unfoldable pub encode_user_op : UserOperation → Bool → Outcome Str
  unfolding encode_signed encode_unsigned
  encode_user_op op true = do p ← pack_user_op e op; ok (encode_signed p)
  encode_user_op op false = do p ← pack_user_op e op; ok (encode_unsigned p)

  -- A zero `preVerificationGas` becomes the cost of the encoded operation.
  unfoldable pub fill_pre_verification_gas : UserOperation → Outcome UserOperation
  fill_pre_verification_gas op =
      if op.pre_verification_gas == 0
      then (do
        encoded ← encode_user_op op false
        gas ← call_data_cost encoded
        ok (record op { pre_verification_gas = gas }))
      else ok op

-- The first of two keys that is not null.
abbrev pub or_else {ℓ} : {A : Type ℓ} → Option A → Option A → Option A
or_else none b = b
or_else (some a) b = some a

-- `some` of what a chain returns, unless the key is there already.
abbrev pub fill_if_null {ℓ} : {A : Type ℓ} → Option A → Outcome A → Outcome (Option A)
fill_if_null (some a) m = ok (some a)
fill_if_null none m = m >>= λ a. ok (some a)

-- `if (provider == null) throw …`
abbrev pub with_client {ℓ} :
    {A : Type ℓ} → Option EntryPointClient → Error → (EntryPointClient → Outcome A) → Outcome A
with_client none e f = throws e
with_client (some ep) e f = f ep

module _ (e : Ethers) (entry_point : Option EntryPointClient) where
  -- The sender of a deployment: computed for the known deployer, asked of the node otherwise.
  unfoldable pub sender_of_init_code : Str → Outcome Str
  sender_of_init_code init_code =
      if text_eq (to_lower_case (e.hex_data_slice init_code 0 (some 20)))
        (to_lower_case contract_address)
      then get_deployed_address e (e.hex_data_slice (e.hex_data_slice init_code 20 none) 32 none)
          (text (e.hex_data_slice (e.hex_data_slice init_code 20 none) 0 (some 32)))
      else with_client entry_point no_entrypoint_provider (λ ep. ep.get_sender_address init_code)

  -- The default verification gas and the node's estimate for the deployment.
  unfoldable pub verification_gas_of_init_code : Str → Outcome ℕ
  verification_gas_of_init_code init_code = with_client entry_point no_entrypoint_provider λ ep. do
    sender_creator ← ep.sender_creator
    init_estimate ← ep.estimate_gas (record {
      from = some sender_creator;
      to = some (e.hex_data_slice init_code 0 (some 20));
      call_data = some (e.hex_data_slice init_code 20 none);
      gas_limit = some 10000000;
    })
    ok (defaults_for_user_op.verification_gas_limit + init_estimate)

  -- `if (op.initCode != null) …`
  unfoldable pub fill_init_code : PartialOp → Option Str → Outcome PartialOp
  fill_init_code op none = ok op
  fill_init_code op (some init_code) = do
    sender ← fill_if_null op.sender (sender_of_init_code init_code)
    verification_gas_limit ←
        fill_if_null op.verification_gas_limit (verification_gas_of_init_code init_code)
    ok (record op {
      nonce = or_else op.nonce (some 0);
      sender = sender;
      verification_gas_limit = verification_gas_limit;
    })

  unfoldable pub fill_nonce : Option Str → PartialOp → Outcome PartialOp
  fill_nonce given_sender op = do
    nonce ←
        fill_if_null op.nonce
          (with_client entry_point no_entrypoint_for_nonce (λ ep. ep.get_nonce given_sender))
    ok (record op { nonce = nonce })

  estimate_call : PartialOp → Outcome ℕ
  estimate_call op = with_client entry_point no_entrypoint_for_call_gas λ ep.
      ep.estimate_gas (record {
        from = some ep.address;
        to = op.sender;
        call_data = op.call_data;
        gas_limit = none;
      })

  -- The call gas is estimated only for an operation that has call data.
  unfoldable pub fill_call_gas : PartialOp → Option Str → Outcome PartialOp
  unfolding estimate_call
  fill_call_gas op none = ok op
  fill_call_gas op (some _) = do
    call_gas_limit ← fill_if_null op.call_gas_limit (estimate_call op)
    ok (record op { call_gas_limit = call_gas_limit })

  unfoldable pub fill_paymaster : PartialOp → Option Str → PartialOp
  fill_paymaster op none = op
  fill_paymaster op (some _) = record op {
    paymaster_verification_gas_limit =
        or_else op.paymaster_verification_gas_limit
          (some defaults_for_user_op.paymaster_verification_gas_limit);
    paymaster_post_op_gas_limit =
        or_else op.paymaster_post_op_gas_limit
          (some defaults_for_user_op.paymaster_post_op_gas_limit);
  }

  current_max_fee : PartialOp → Outcome ℕ
  current_max_fee op = with_client entry_point no_entrypoint_for_max_fee λ ep. do
    block_fee ← ep.base_fee_per_gas
    base_fee ← or_throw block_fee no_base_fee
    ok (
        base_fee
        + Option.get_or op.max_priority_fee_per_gas defaults_for_user_op.max_priority_fee_per_gas)

  unfoldable pub fill_fees : PartialOp → Outcome PartialOp
  unfolding current_max_fee
  fill_fees op = do
    max_fee_per_gas ← fill_if_null op.max_fee_per_gas (current_max_fee op)
    ok (record op {
      max_fee_per_gas = max_fee_per_gas;
      max_priority_fee_per_gas =
          or_else op.max_priority_fee_per_gas (some defaults_for_user_op.max_priority_fee_per_gas);
    })

  -- `fillUserOp`
  unfoldable pub fill_user_op : PartialOp → Outcome UserOperation
  fill_user_op op = do
    op1 ← fill_init_code op op.init_code
    op2 ← fill_nonce op.sender op1
    op3 ← fill_call_gas op2 op.call_data
    op4 ← fill_fees (fill_paymaster op3 op3.paymaster)
    fill_pre_verification_gas e (fill_user_op_defaults op4 defaults_for_user_op)

  -- `fillAndPack`
  unfoldable pub fill_and_pack : PartialOp → Outcome PackedUserOperation
  fill_and_pack op = do filled ← fill_user_op op; pack_user_op e filled
