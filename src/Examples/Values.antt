-- ===== src/Examples/Values.antt =====
-- Operations, a wallet and an entry point for the examples.
use falcon_smart_account.Prelude.{ℕ, some, List, [], ◌∷◌, ◌^◌, replicate}
use falcon_smart_account.Js.{Str, data_hex, codes}
use falcon_smart_account.Outcome.{ok}
use falcon_smart_account.UserOp.Types.{UserOperation, PartialOp, empty_op, defaults_for_user_op}
use falcon_smart_account.UserOp.Fill.{EntryPointClient}
use falcon_smart_account.UserOp.Sign.{Wallet}

abbrev pub alice : Str
alice = data_hex (replicate 20 10)

abbrev pub bob : Str
bob = data_hex (replicate 20 11)

abbrev pub paymaster : List ℕ
paymaster = replicate 20 9

-- An operation with a paymaster.
abbrev pub sponsored : UserOperation
sponsored = record defaults_for_user_op {
  sender = alice;
  nonce = 7;
  call_gas_limit = 30000;
  max_fee_per_gas = 2000000000;
  paymaster = data_hex paymaster;
  paymaster_data = data_hex (1 ∷ 2 ∷ []);
}

-- Operations of two senders with no paymaster, and one whose limit fits no 128 bits.
abbrev pub of_alice : UserOperation
of_alice = record defaults_for_user_op { sender = alice; nonce = 7 }

abbrev pub of_bob : UserOperation
of_bob = record defaults_for_user_op { sender = bob; call_gas_limit = 2 ^ 130 }

-- What a caller gives to fill an operation with no help of a node.
abbrev pub given : PartialOp
given = record empty_op {
  sender = some alice;
  nonce = some 3;
  max_fee_per_gas = some 5;
  pre_verification_gas = some 0;
  call_data = some (data_hex (1 ∷ 0 ∷ []));
  call_gas_limit = some 40000;
}

abbrev pub client : EntryPointClient
client = record {
  address = codes "0x0000000071727De22E5E9d8BAf0edAc6f37da032";
  sender_creator = ok bob;
  get_sender_address = λ init_code. ok alice;
  estimate_gas = λ query. ok 60000;
  get_nonce = λ sender. ok 4;
  base_fee_per_gas = ok (some 100);
}

-- Its signatures say nothing of the key; they are recovered to its one address.
abbrev pub wallet : Wallet
wallet = record {
  private_key = data_hex (replicate 32 1);
  wallet_address = bob;
  sign_hash = λ hash key. data_hex hash;
  sign_typed_data = λ domain op. ok (data_hex (27 ∷ []));
  recover = λ hash signature. bob;
}
