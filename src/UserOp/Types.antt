-- ===== src/UserOp/Types.antt =====
-- test/UserOperation.ts and the defaults of test/UserOp.ts. A BigNumberish is its value.
use falcon_smart_account.Prelude.{ℕ, Option, none, [], replicate}
use falcon_smart_account.Js.{Str, data_hex}

pub record UserOperation : Type 0 where
  pub sender : Str
  pub nonce : ℕ
  pub init_code : Str
  pub call_data : Str
  pub call_gas_limit : ℕ
  pub verification_gas_limit : ℕ
  pub pre_verification_gas : ℕ
  pub max_fee_per_gas : ℕ
  pub max_priority_fee_per_gas : ℕ
  pub paymaster : Str
  pub paymaster_verification_gas_limit : ℕ
  pub paymaster_post_op_gas_limit : ℕ
  pub paymaster_data : Str
  pub signature : Str

pub record PackedUserOperation : Type 0 where
  pub sender : Str
  pub nonce : ℕ
  pub init_code : Str
  pub call_data : Str
  pub account_gas_limits : Str
  pub pre_verification_gas : ℕ
  pub gas_fees : Str
  pub paymaster_and_data : Str
  pub signature : Str

-- `Partial<UserOperation>`: `none` is a key that is missing, undefined or null.
pub record PartialOp : Type 0 where
  pub sender : Option Str
  pub nonce : Option ℕ
  pub init_code : Option Str
  pub call_data : Option Str
  pub call_gas_limit : Option ℕ
  pub verification_gas_limit : Option ℕ
  pub pre_verification_gas : Option ℕ
  pub max_fee_per_gas : Option ℕ
  pub max_priority_fee_per_gas : Option ℕ
  pub paymaster : Option Str
  pub paymaster_verification_gas_limit : Option ℕ
  pub paymaster_post_op_gas_limit : Option ℕ
  pub paymaster_data : Option Str
  pub signature : Option Str

abbrev pub empty_hex : Str
empty_hex = data_hex []

abbrev pub address_zero : Str
address_zero = data_hex (replicate 20 0)

-- `DefaultsForUserOp`
abbrev pub defaults_for_user_op : UserOperation
defaults_for_user_op = record {
  sender = address_zero;
  nonce = 0;
  init_code = empty_hex;
  call_data = empty_hex;
  call_gas_limit = 0;
  verification_gas_limit = 150000;
  pre_verification_gas = 21000;
  max_fee_per_gas = 0;
  max_priority_fee_per_gas = 1000000000;
  paymaster = address_zero;
  paymaster_verification_gas_limit = 300000;
  paymaster_post_op_gas_limit = 0;
  paymaster_data = empty_hex;
  signature = empty_hex;
}

-- `Partial` with every key missing.
abbrev pub empty_op : PartialOp
empty_op = record {
  sender = none;
  nonce = none;
  init_code = none;
  call_data = none;
  call_gas_limit = none;
  verification_gas_limit = none;
  pre_verification_gas = none;
  max_fee_per_gas = none;
  max_priority_fee_per_gas = none;
  paymaster = none;
  paymaster_verification_gas_limit = none;
  paymaster_post_op_gas_limit = none;
  paymaster_data = none;
  signature = none;
}
