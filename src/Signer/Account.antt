-- ===== src/Signer/Account.antt =====
-- `class AASigner` of src/AASigner.ts: finding the account, telling whether it is deployed, and
-- making a user operation of a transaction. The underlying signer, its provider and the factory
-- contract are a parameter; `getAccountInitCode` and `getAccountAddress` are of test/testutils.ts.
pub mod Deployment
use mathlib.Core.Option
use falcon_smart_account.Prelude.{
  ℕ, zero, ◌+◌, Option, none, some, Bool, true, false, not, List, [], ◌∷◌, leb, ◌==◌, length,
  if◌then◌else◌,
}
use falcon_smart_account.Js.{Str}
use falcon_smart_account.Outcome.{
  Outcome, ok, throws, ◌>>=◌, or_throw, already_connected, non_existing_contract, undefined_value,
  connect_not_implemented, unsupported_by_aa,
}
use falcon_smart_account.Ethers.{Ethers}
use falcon_smart_account.UserOp.Types.{UserOperation, PartialOp, empty_op}
use falcon_smart_account.UserOp.Fill.{EntryPointClient}
use falcon_smart_account.UserOp.Sign.{Wallet, fill_and_sign}

-- What the signer asks of others.
pub record Backend : Type 0 where
  -- `signer.getAddress()`
  pub owner : Outcome Str
  -- `factory.getAddress(owner, salt)`
  pub factory_get_address : Str → ℕ → Outcome Str
  pub factory_address : Str
  -- the call data of `createAccount(owner, salt)` and of `execute(to, value, data)`
  pub encode_create_account : Str → ℕ → Str
  pub encode_execute : Str → ℕ → Str → Str
  -- `provider.getCode(address)`, of the signer's own provider and of the underlying signer's
  pub get_code : Str → Outcome Str
  pub signer_get_code : Option (Str → Outcome Str)
  -- `provider?.getNetwork()`, the chain id
  pub network : Option (Outcome ℕ)

pub record AaSigner : Type 0 where
  pub account : Option Str
  pub is_phantom : Bool
  pub chain_id : Option (Outcome ℕ)
  pub index : ℕ

-- The constructor, for an account index.
unfoldable pub new_signer : ℕ → AaSigner
new_signer index = record { account = none; is_phantom = true; chain_id = none; index = index }

-- `getAccountAddress(owner, factory, salt = 0)`
unfoldable pub get_account_address : Backend → Str → ℕ → Outcome Str
get_account_address b owner salt = b.factory_get_address owner salt

-- `getAccountInitCode(owner, factory, salt = 0)`
unfoldable pub get_account_init_code : Ethers → Backend → Str → ℕ → Str
get_account_init_code e b owner salt =
    e.hex_concat (b.factory_address ∷ b.encode_create_account owner salt ∷ [])

-- A method returns how it ended and the state that it left; what was written before a throw stays.
abbrev pub Method : Type 0 → Type 0
Method A = AaSigner → Outcome A × AaSigner

unfoldable pub connect_account_address : Backend → Str → Method (Unit {0})
connect_account_address b address s = elim s.account [
  | some _ ↦ (throws already_connected, s)
  | none ↦ elim (b.get_code address) [
    | throws err ↦ (throws err, s)
    | ok code ↦
        if leb (length code) 2
        then (throws non_existing_contract, s)
        else (ok tt, record s { account = some address; is_phantom = false })
  ]
]

unfoldable pub find_address : Backend → Outcome Str
find_address b = do owner ← b.owner; get_account_address b owner 0

-- The length of the account's code, `none` if there is no provider to ask.
unfoldable pub code_size : Backend → Str → Outcome (Option ℕ)
code_size b address = elim b.signer_get_code [
  | none ↦ ok none
  | some get_code ↦ get_code address >>= λ code. ok (some (length code))
]

-- `size === 2`
abbrev is_empty_code : Option ℕ → Bool
is_empty_code none = false
is_empty_code (some n) = n == 2

-- The part of `syncAccount` that follows when the address is known.
unfoldable pub recheck : Backend → Str → Method (Unit {0})
recheck b address s =
    let s' = record s { account = some address; chain_id = b.network } in
    if s.is_phantom
    then elim (code_size b address) [
      | throws err ↦ (throws err, s')
      | ok size ↦ (ok tt, record s' { is_phantom = is_empty_code size })
    ]
    else (ok tt, s')

unfoldable pub sync_account : Backend → Method (Unit {0})
unfolding recheck code_size find_address
sync_account b s = elim s.account [
  | some address ↦ recheck b address s
  | none ↦ elim (find_address b) [ throws err ↦ (throws err, s) | ok address ↦ recheck b address s ]
]

-- `getAddress`
unfoldable pub get_address : Backend → Method Str
get_address b s =
    let (r, s') = sync_account b s in (r >>= λ _. or_throw s'.account undefined_value, s')

-- `getAccount`, the contract at the same address
unfoldable pub get_account : Backend → Method Str
get_account b s =
    let (r, s') = sync_account b s in (r >>= λ _. or_throw s'.account undefined_value, s')

-- What an account signer does not offer: `connect`, `signMessage` and `signTransaction` throw.
unfoldable pub connect : Str → Method Str
connect provider s = (throws connect_not_implemented, s)

unfoldable pub sign_message : Str → Method Str
sign_message message s = (throws unsupported_by_aa, s)

unfoldable pub sign_transaction : Str → Method Str
sign_transaction transaction s = (throws unsupported_by_aa, s)

-- `isPhantom`
unfoldable pub is_phantom_account : Backend → Method Bool
is_phantom_account b s = let (r, s') = sync_account b s in (r >>= λ _. ok s'.is_phantom, s')

-- A gas price as a plain number, or as an object (or text), which is true in a test even for zero.
pub data GasPrice : Type 0 where
  number big_number : ℕ → GasPrice

abbrev pub price_value : GasPrice → ℕ
price_value (number price) = price
price_value (big_number price) = price

abbrev pub is_truthy : GasPrice → Bool
is_truthy (number price) = not (price == 0)
is_truthy (big_number price) = true

-- A transaction, resolved.
pub record TransactionRequest : Type 0 where
  pub to : Str
  pub value : Option ℕ
  pub call_data : Str
  pub nonce : Option ℕ
  pub gas_limit : Option ℕ
  pub gas_price : Option GasPrice
  pub max_fee_per_gas : Option ℕ
  pub max_priority_fee_per_gas : Option ℕ

-- `if (gasPrice) …`: a legacy price overrides a fee, unless it is the number zero.
unfoldable pub fee_with_gas_price : Option GasPrice → Option ℕ → Option ℕ
fee_with_gas_price none fee = fee
fee_with_gas_price (some price) fee = if is_truthy price then some (price_value price) else fee

-- The keys that `_createUserOperation` hands to `fillAndSign`, once the account is in step.
unfoldable pub operation_keys : Backend → TransactionRequest → Str → Option Str → ℕ → PartialOp
operation_keys b tx address init_code index = record empty_op {
  sender = some address;
  init_code = init_code;
  nonce = elim init_code [ none ↦ tx.nonce | some _ ↦ some index ];
  call_data = some (b.encode_execute tx.to (Option.get_or tx.value 0) tx.call_data);
  call_gas_limit = tx.gas_limit;
  max_priority_fee_per_gas = fee_with_gas_price tx.gas_price tx.max_priority_fee_per_gas;
  max_fee_per_gas = fee_with_gas_price tx.gas_price tx.max_fee_per_gas;
}

-- The init code, for an account that is not deployed.
unfoldable pub init_code_of : Ethers → Backend → Bool → Outcome (Option Str)
init_code_of e b false = ok none
init_code_of e b true = do owner ← b.owner; ok (some (get_account_init_code e b owner 0))

unfoldable pub keys_of : Ethers → Backend → TransactionRequest → AaSigner → Outcome PartialOp
unfolding init_code_of
keys_of e b tx s = do
  address ← or_throw s.account undefined_value
  init_code ← init_code_of e b s.is_phantom
  ok (operation_keys b tx address init_code s.index)

-- `_createUserOperation`
unfoldable pub create_user_operation :
    Ethers
    → Backend
    → Wallet
    → EntryPointClient
    → Outcome ℕ
    → TransactionRequest
    → Method UserOperation
create_user_operation e b signer entry_point chain tx s =
    let (r, s') = sync_account b s in
    (
      r >>= λ _. keys_of e b tx s' >>= λ keys. fill_and_sign e keys signer (some entry_point) chain,
      s',
    )
