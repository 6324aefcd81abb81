-- ===== src/Examples/Transfers.antt =====
-- The theorem on the transfer that a Falcon key signs, at a concrete input.
use falcon_smart_account.Prelude.{ℕ, ◌+◌, ◌≡◌, refl, ◌++◌, replicate}
use falcon_smart_account.Js.{data_hex, hex_digits, hex_digit}
use falcon_smart_account.Outcome.{ok}
use falcon_smart_account.Ethers.Reference.{
  reference, hex_zero_pad, hex_data_slice, bytes_of, digits_concat,
}
use falcon_smart_account.Prelude.Digits.{be_bytes, be_value}
use falcon_smart_account.Js.{digit_value}
use falcon_smart_account.UserOp.Pack.{pack_user_op, pack_account_gas_limits, has_paymaster, pad16}
use falcon_smart_account.UserOp.Fill.{fill_user_op_defaults}
use falcon_smart_account.Falcon.Word.{shift_in, shift_right, byte_at}
use falcon_smart_account.Falcon.PublicKey.{next_byte}
use falcon_smart_account.Falcon.Signature.{
  decompress_s2, coefficients, coefficient, read_bits, read_bit, read_unary, take_bit, fill_bits,
}
use falcon_smart_account.Transfer.{
  Kernel, TransferBackend, deploy_verifier, deploy_account, fund_account, transfer_op,
  sign_transfer, relay, main,
}
use falcon_smart_account.Transfer.Signed.{IsRelayed, main-IsRelayed}
use falcon_smart_account.Examples.Values.{alice, bob}
use falcon_smart_account.Examples.Signatures.{zero_signature}

-- A kernel whose signature has only coefficients that are 0.
abbrev kernel : Kernel
kernel = record { pk = replicate 897 0; sign = λ payload. zero_signature }

-- The state counts the contracts; each has the count for its address.
abbrev contracts : TransferBackend ℕ
contracts = record {
  deploy = λ name arguments w. (ok (data_hex (replicate 20 w)), w + 1);
  initialize = λ account owner key verifier w. (ok tt, w);
  public_key = λ account i w. (ok 0, w);
  send_value = λ to value w. (ok tt, w);
  add_deposit = λ account value w. (ok tt, w);
  network = λ w. ok 31337;
  encode_execute = λ to value call_data. to ++ call_data;
  get_user_op_hash = λ w entry_point op. ok (data_hex (replicate 32 1));
  encode_signature = λ s2 salt. salt;
  call_static = λ w entry_point ops beneficiary limit. ok tt;
  handle_ops = λ entry_point ops beneficiary limit w. (ok 90000000, w);
}

transfers : main reference contracts kernel 16 alice bob 1 ≡ (ok 90000000, 8)
unfolding main deploy_verifier deploy_account fund_account transfer_op sign_transfer relay
    fill_user_op_defaults pack_user_op pack_account_gas_limits has_paymaster pad16 reference
    hex_zero_pad hex_data_slice bytes_of digits_concat hex_digits hex_digit be_bytes be_value
    digit_value decompress_s2 coefficients coefficient read_bits read_bit read_unary take_bit
    fill_bits next_byte shift_in shift_right byte_at
transfers = refl

main-IsRelayed_example : IsRelayed reference contracts kernel 16 alice bob 1 90000000 8
main-IsRelayed_example =
    main-IsRelayed reference contracts kernel 16 alice bob 1 8 90000000 transfers
