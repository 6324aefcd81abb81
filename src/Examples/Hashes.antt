-- ===== src/Examples/Hashes.antt =====
-- The hash of an operation, with an ethers whose encoding is that of static values.
use falcon_smart_account.Prelude.{ℕ, ◌≡◌, refl, List, [], map, AllBytes}
use falcon_smart_account.Prelude.Digits.{be_bytes, be_value}
use falcon_smart_account.Js.{data_hex, hex_digits, hex_digit, digit_value}
use falcon_smart_account.Outcome.{ok}
use falcon_smart_account.Ethers.{Ethers, flatten}
use falcon_smart_account.Ethers.Reference.{
  reference, hash_bytes, hash_bytes-AllBytes, hex_zero_pad, hex_data_slice, bytes_of, digits_concat,
}
use falcon_smart_account.UserOp.Types.{UserOperation, defaults_for_user_op}
use falcon_smart_account.UserOp.Pack.{pack_user_op, pack_account_gas_limits, has_paymaster, pad16}
use falcon_smart_account.UserOp.Bytes.{packed_bytes}
use falcon_smart_account.UserOp.Sign
use falcon_smart_account.UserOp.Sign.{get_domain_separator}
use falcon_smart_account.EntryPoint.ReadBack.{calldata_of}
use falcon_smart_account.EntryPoint.Hash
use falcon_smart_account.EntryPoint.Hash.{packed_userop_typehash, encode}
use falcon_smart_account.EntryPoint.Hash.Agrees.{
  word_of, IsHashing, all_bytes, all_bytes_sound, get_user_op_hash-packed,
}
use falcon_smart_account.Examples.Values.{alice}

abbrev encoding : Ethers
encoding = record reference { abi_encode = λ vs. data_hex (flatten (map (word_of reference) vs)) }

abbrev constant : List ℕ → List ℕ
constant bs = hash_bytes

constant-IsHashing : IsHashing encoding constant
unfolding word_of reference
constant-IsHashing = record {
  makes_bytes = λ bs. hash_bytes-AllBytes;
  same_keccak = λ s. refl;
  static_encoding =
      λ vs static words. encoding.arrayify_data (flatten (map (word_of encoding) vs)) words;
}

abbrev plain : UserOperation
plain = record defaults_for_user_op { sender = alice; call_gas_limit = 50000; nonce = 3 }

plain_packed : pack_user_op encoding plain ≡ ok (packed_bytes plain [])
unfolding pack_user_op pack_account_gas_limits has_paymaster pad16 reference hex_zero_pad
    hex_data_slice bytes_of digits_concat hex_digits hex_digit be_bytes be_value digit_value
plain_packed = refl

plain_words : AllBytes (encode constant (calldata_of encoding (packed_bytes plain [])))
unfolding all_bytes encode packed_userop_typehash reference hex_digits hex_digit bytes_of be_bytes
    be_value digit_value
plain_words = all_bytes_sound (encode constant (calldata_of encoding (packed_bytes plain []))) refl

get_user_op_hash-packed_example :
    Sign.get_user_op_hash encoding plain alice 1
    ≡ ok (
        data_hex (
          Hash.get_user_op_hash constant hash_bytes (calldata_of encoding (packed_bytes plain []))))
unfolding get_domain_separator reference
get_user_op_hash-packed_example =
    get_user_op_hash-packed encoding constant constant-IsHashing plain (packed_bytes plain []) alice
      1 hash_bytes hash_bytes-AllBytes refl plain_packed plain_words
