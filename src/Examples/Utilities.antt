-- ===== src/Examples/Utilities.antt =====
-- The theorems on the utilities at concrete inputs.
use falcon_smart_account.Prelude.{
  length, ℕ, ◌+◌, ◌*◌, ◌^◌, ◌<◌, ◌≤◌, ◌≡◌, refl, Bool, true, none, some, [], ◌∷◌, arith, leb,
  replicate, All,
}
use falcon_smart_account.Prelude.Digits.{be_value, be_bytes}
use falcon_smart_account.Js.{Str, data_hex, codes}
use falcon_smart_account.Outcome.{ok}
use falcon_smart_account.Ethers.Reference.{reference}
use falcon_smart_account.Signer.Send.{JsValue}
use falcon_smart_account.TestUtils.FindMin.{
  bisect, find_min, IsFound, find_min-IsFound, bisect-endless,
}
use falcon_smart_account.TestUtils.Validation.{
  parse_validation_data, pack_validation_data, parse-pack_validation_data,
  contract_parse_validation_data, parse_validation_data-eq-contract, max_uint48,
}
use falcon_smart_account.Falcon.PublicKey.{decode_pk}
use falcon_smart_account.Falcon.PublicKey.Value.{bytes_number, coefficients_number, decode_pk-value}

abbrev at_least_37 : ℕ → Bool
at_least_37 n = leb 37 n

find_min-IsFound_example :
    (r : ℕ) × (find_min 100 at_least_37 0 100 5 ≡ ok (some r)) × IsFound at_least_37 0 100 5 r
find_min-IsFound_example =
    find_min-IsFound at_least_37 5 100 0 100 (omega arith) (omega arith) (omega arith) refl refl

at_least_37-monotone : (a b : ℕ) → a ≤ b → at_least_37 a ≡ true → at_least_37 b ≡ true
at_least_37-monotone a b le h = ground arith

bisect-endless_example : bisect 1000 at_least_37 0 100 1 ≡ none
bisect-endless_example =
    bisect-endless at_least_37 1 1000 0 100 (omega arith) (omega arith) refl refl

parse-pack_validation_data_example :
    parse_validation_data reference (pack_validation_data 10 0 (be_value 0 (replicate 20 3)))
    ≡ ok (record {
      aggregator = data_hex (replicate 20 3);
      valid_after = some 10;
      valid_until = some max_uint48;
    })
parse-pack_validation_data_example =
    parse-pack_validation_data 10 0 (replicate 20 3) (omega arith) (omega arith) (omega arith) refl
      reference

parse_validation_data-eq-contract_example :
    parse_validation_data reference (5 * 2 ^ 208 + 6 * 2 ^ 160 + 7)
    ≡ ok (record {
      aggregator = data_hex (be_bytes 20 7);
      valid_after = some 5;
      valid_until = some 6;
    })
unfolding contract_parse_validation_data
parse_validation_data-eq-contract_example =
    parse_validation_data-eq-contract reference (5 * 2 ^ 208 + 6 * 2 ^ 160 + 7) (omega arith)

decode_pk-value_example :
    (length (decode_pk (9 ∷ 255 ∷ 3 ∷ 128 ∷ [])) ≡ 512)
    × All (λ (c : ℕ). c < 2 ^ 14) (decode_pk (9 ∷ 255 ∷ 3 ∷ 128 ∷ []))
    × (coefficients_number 0 (decode_pk (9 ∷ 255 ∷ 3 ∷ 128 ∷ []))
        ≡ bytes_number (9 ∷ 255 ∷ 3 ∷ 128 ∷ []) 896)
decode_pk-value_example = decode_pk-value (9 ∷ 255 ∷ 3 ∷ 128 ∷ []) (omega arith)

abbrev zero_hex : JsValue → Str
zero_hex v = codes "0x00"
