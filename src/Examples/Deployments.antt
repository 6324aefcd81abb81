-- ===== src/Examples/Deployments.antt =====
-- The theorems on deterministic deployment on a small chain.
use falcon_smart_account.Prelude.{
  ℕ, suc, ◌≤◌, ◌≡◌, ◌≢◌, refl, Bool, true, false, none, [], ◌∷◌, arith, ltb, length, replicate,
  text_eq, if◌then◌else◌, Bool-cases, inl, inr,
}
use falcon_smart_account.Prelude.Digits.{be_bytes, be_value}
use falcon_smart_account.Js.{Str, data_hex, hex_digits, hex_digit, digit_value}
use falcon_smart_account.Outcome.{ok, ◌>>=◌}
use falcon_smart_account.Ethers.Reference.{
  reference, hex_zero_pad, hex_data_slice, bytes_of, digits_concat,
}
use falcon_smart_account.Create2.Address.{
  number, contract_address, get_deployed_address, get_deploy_transaction_call_data, salt_bytes32,
}
use falcon_smart_account.Create2.Deploy.{
  Chain, by_size, estimate, has_code, is_factory_deployed, create_factory, deploy_factory,
  deploy_code, deploy_tx, deploy, gas_by_size,
}
use falcon_smart_account.Create2.Once.{deploy-has_code, deploy-deploy}
use falcon_smart_account.UserOp.Cost.{bytes_cost}
use falcon_smart_account.UserOp.Fill.{sender_of_init_code}
use falcon_smart_account.UserOp.Deployer.{sender-get_deployed_address}

abbrev code_or_none : Bool → Str
code_or_none true = data_hex (96 ∷ [])
code_or_none false = data_hex []

-- The deployer gets its code with the first transaction, every other address with the second.
abbrev small_chain : Chain ℕ
small_chain = record {
  get_code = λ w address. code_or_none (ltb (if text_eq address contract_address then 0 else 1) w);
  estimate_gas = λ w to call_data. ok 90000;
  send_transaction = λ tx w. (ok tt, suc w);
  send_value = λ to value w. (ok tt, w);
  send_raw = λ tx w. (ok tt, suc w);
}

abbrev code : Str
code = data_hex (96 ∷ 1 ∷ [])

abbrev deployed_address : Str
deployed_address = data_hex (replicate 20 7)

deployed : (deploy small_chain reference code (number 5) by_size false 0).0 ≡ ok deployed_address
unfolding deploy deploy_factory create_factory is_factory_deployed deploy_code deploy_tx has_code
    gas_by_size bytes_cost get_deployed_address get_deploy_transaction_call_data salt_bytes32
    reference hex_zero_pad hex_data_slice bytes_of digits_concat hex_digits hex_digit be_bytes
    be_value digit_value
deployed = refl

deploy-has_code_example :
    (get_deployed_address reference code (number 5) ≡ ok deployed_address)
    × (length (
          small_chain.get_code
            (deploy small_chain reference code (number 5) by_size false 0).2
            deployed_address)
        ≢ 2)
deploy-has_code_example =
    deploy-has_code small_chain reference code (number 5) by_size false 0 deployed

code_prefix : (w : ℕ) (address : Str) → 2 ≤ length (small_chain.get_code w address)
code_prefix w address =
    elim (Bool-cases (ltb (if text_eq address contract_address then 0 else 1) w)) [
      | inl eq ↦ rw eq (omega arith)
      | inr eq ↦ rw eq (omega arith)
    ]

deploy-deploy_example :
    let (r, flag, w) = deploy small_chain reference code (number 5) by_size false 0 in
    deploy small_chain reference code (number 5) estimate flag w ≡ (r, flag, w)
deploy-deploy_example =
    deploy-deploy small_chain reference code_prefix code (number 5) by_size estimate false 0
      deployed

sender-get_deployed_address_example :
    (get_deploy_transaction_call_data reference code (number 5) >>= λ d.
    sender_of_init_code reference none (reference.hex_concat (contract_address ∷ d ∷ [])))
    ≡ get_deployed_address reference code (number 5)
sender-get_deployed_address_example =
    sender-get_deployed_address reference none 5 (96 ∷ 1 ∷ []) (omega arith) (omega arith)
