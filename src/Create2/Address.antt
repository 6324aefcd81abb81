-- ===== src/Create2/Address.antt =====
-- The address and the call data of a deterministic deployment (`getDeployedAddress`,
-- `getDeployTransactionCallData` of src/Create2Factory.ts).
use falcon_smart_account.Prelude.{ℕ, ◌++◌, [], ◌∷◌}
use falcon_smart_account.Js.{Str, hex_prefix, slice_last, codes}
use falcon_smart_account.Outcome.{Outcome, ok, ◌>>=◌, or_throw, value_too_long}
use falcon_smart_account.Ethers.{Ethers}

-- A salt is given as a number or as hexadecimal data.
pub data Salt : Type 0 where
  number : ℕ → Salt
  text : Str → Salt

-- `Create2Factory.contractAddress`
abbrev pub contract_address : Str
contract_address = codes "0x4e59b44847b379578588920ca78fbf26c0b4956c"

module _ (e : Ethers) where
  -- `hexZeroPad(hexlify(salt), 32)`
  unfoldable pub salt_bytes32 : Salt → Outcome Str
  salt_bytes32 (number n) = or_throw (e.hex_zero_pad (e.hexlify n) 32) value_too_long
  salt_bytes32 (text s) = or_throw (e.hex_zero_pad (e.hexlify_text s) 32) value_too_long

  unfoldable pub get_deploy_transaction_call_data : Str → Salt → Outcome Str
  get_deploy_transaction_call_data init_code salt = do
    salt_hex ← salt_bytes32 salt
    ok (e.hex_concat (salt_hex ∷ init_code ∷ []))

  unfoldable pub get_deployed_address : Str → Salt → Outcome Str
  get_deployed_address init_code salt = do
    salt_hex ← salt_bytes32 salt
    ok (
        hex_prefix
        ++ slice_last
            (e.keccak256 (
              e.hex_concat
                (codes "0xff" ∷ contract_address ∷ salt_hex ∷ e.keccak256 init_code ∷ [])))
            40)
