-- ===== src/Signer/Send.antt =====
-- `rpcUserOpSender` and `localUserOpSender` of src/AASigner.ts. The provider, the entry point's
-- `handleOps` and ethers' `hexValue` are parameters.
use falcon_smart_account.Prelude.{
  ℕ, ◌≡◌, Option, none, some, true, List, [], ◌∷◌, map, All, Bool-cases, inl, inr, if◌then◌else◌,
}
use falcon_smart_account.Js.{Str, starts_with_0x, codes}
use falcon_smart_account.Outcome.{Outcome, ok, throws, ◌>>=◌}
use falcon_smart_account.Ethers.{Ethers}
use falcon_smart_account.UserOp.Types.{UserOperation, PackedUserOperation}
use falcon_smart_account.UserOp.Pack.{pack_user_op}

-- A value of a key of an operation.
pub data JsValue : Type 0 where
  text : Str → JsValue
  number : ℕ → JsValue

-- `Object.keys(userOp)` with the values.
unfoldable pub entries : UserOperation → List (Str × JsValue)
entries op =
    (codes "sender", text op.sender)
    ∷ (codes "nonce", number op.nonce)
    ∷ (codes "initCode", text op.init_code)
    ∷ (codes "callData", text op.call_data)
    ∷ (codes "callGasLimit", number op.call_gas_limit)
    ∷ (codes "verificationGasLimit", number op.verification_gas_limit)
    ∷ (codes "preVerificationGas", number op.pre_verification_gas)
    ∷ (codes "maxFeePerGas", number op.max_fee_per_gas)
    ∷ (codes "maxPriorityFeePerGas", number op.max_priority_fee_per_gas)
    ∷ (codes "paymaster", text op.paymaster)
    ∷ (codes "paymasterData", text op.paymaster_data)
    ∷ (codes "paymasterVerificationGasLimit", number op.paymaster_verification_gas_limit)
    ∷ (codes "paymasterPostOpGasLimit", number op.paymaster_post_op_gas_limit)
    ∷ (codes "signature", text op.signature)
    ∷ []

-- `typeof val !== 'string' || !val.startsWith('0x')`
unfoldable pub clean_value : (JsValue → Str) → JsValue → Str
clean_value hex_value (number n) = hex_value (number n)
clean_value hex_value (text s) = if starts_with_0x s then s else hex_value (text s)

clean_entry : (JsValue → Str) → Str × JsValue → Str × Str
clean_entry hex_value (key, value) = (key, clean_value hex_value value)

unfoldable pub clean_user_op : (JsValue → Str) → UserOperation → List (Str × Str)
unfolding clean_entry
clean_user_op hex_value op = map (clean_entry hex_value) (entries op)

-- The provider of an RPC sender.
pub record RpcProvider : Type 0 where
  pub get_network : Outcome ℕ
  pub send_user_operation : List (Str × Str) → Str → Outcome (Unit {0})

-- One call of the function that `rpcUserOpSender` returns, with the chain id that it keeps.
unfoldable pub rpc_send :
    (JsValue → Str) → RpcProvider → Str → UserOperation → Option ℕ → Outcome (Unit {0}) × Option ℕ
rpc_send hex_value p entry_point op (some id) =
    (p.send_user_operation (clean_user_op hex_value op) entry_point, some id)
rpc_send hex_value p entry_point op none = elim p.get_network [
  | throws err ↦ (throws err, none)
  | ok id ↦ (p.send_user_operation (clean_user_op hex_value op) entry_point, some id)
]

-- What `handleOps` is called with besides the operations and the beneficiary.
pub record Overrides : Type 0 where
  pub max_priority_fee_per_gas : ℕ
  pub max_fee_per_gas : ℕ
  pub gas_limit : ℕ

-- The function that `localUserOpSender` returns: `handleOps` with the packed operation and the
-- beneficiary, by default the signer's address, mined to the end of `wait()`.
unfoldable pub local_send :
    Ethers
    → (List PackedUserOperation → Str → Overrides → Outcome (Unit {0}))
    → Outcome Str
    → Option Str
    → UserOperation
    → Outcome (Unit {0})
local_send e handle_ops signer_address beneficiary op = do
  packed ← pack_user_op e op
  to ← (elim beneficiary [ some address ↦ ok address | none ↦ signer_address ])
  handle_ops (packed ∷ []) to (record {
    max_priority_fee_per_gas = op.max_priority_fee_per_gas;
    max_fee_per_gas = op.max_fee_per_gas;
    gas_limit = 1000000;
  })

module _ (hex_value : JsValue → Str)
    (prefixed : (v : JsValue) → starts_with_0x (hex_value v) ≡ true) where
  clean_value-prefix : (v : JsValue) → starts_with_0x (clean_value hex_value v) ≡ true
  unfolding clean_value
  clean_value-prefix (number n) = prefixed (number n)
  clean_value-prefix (text s) = elim (Bool-cases (starts_with_0x s)) [
    | inl yes_0x ↦ rw yes_0x yes_0x
    | inr no_0x ↦ rw no_0x (prefixed (text s))
  ]

  clean_entries-prefix :
      (kvs : List (Str × JsValue))
      → All (λ (kv : Str × Str). starts_with_0x kv.1 ≡ true) (map (clean_entry hex_value) kvs)
  unfolding clean_entry
  clean_entries-prefix [] = tt
  clean_entries-prefix ((k, v) ∷ kvs) = (clean_value-prefix v, clean_entries-prefix kvs)

  -- Where `hexValue` writes a hexadecimal prefix, every value of an operation that is sent by RPC
  -- has one.
  clean_user_op-prefix :
      (op : UserOperation)
      → All (λ (kv : Str × Str). starts_with_0x kv.1 ≡ true) (clean_user_op hex_value op)
  unfolding clean_user_op
  clean_user_op-prefix op = clean_entries-prefix (entries op)
