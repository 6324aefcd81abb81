-- ===== src/UserOp/Deployer.antt =====
-- The sender that `fillUserOp` of test/UserOp.ts finds for a deployment through the known
-- deployer, against the address of src/Create2Factory.ts.
use falcon_smart_account.Prelude.{
  ℕ, ◌^◌, ◌<◌, ◌≡◌, refl, ap, ◌∙◌, Option, some, true, List, [], ◌∷◌, ◌++◌, arith, AllBytes,
  All-append, text_eq, append-nil, take-append, drop-append, length, take,
}
use mathlib.Core.Path.{subst}
use falcon_smart_account.Prelude.Digits.{be_bytes, be_bytes-AllBytes, length-be_bytes}
use falcon_smart_account.Js.{Str, data_hex, hex_digits, hex_digit, to_lower_case}
use falcon_smart_account.Outcome.{ok, ◌>>=◌, or_throw, value_too_long}
use falcon_smart_account.Ethers.{Ethers}
use falcon_smart_account.Create2.Address.{
  contract_address, number, text, salt_bytes32, get_deploy_transaction_call_data,
  get_deployed_address,
}
use falcon_smart_account.UserOp.Fill.{EntryPointClient, sender_of_init_code}

abbrev contract_bytes : List ℕ
contract_bytes =
    0x4e ∷ 0x59 ∷ 0xb4 ∷ 0x48 ∷ 0x47 ∷ 0xb3 ∷ 0x79 ∷ 0x57 ∷ 0x85 ∷ 0x88 ∷ 0x92 ∷ 0x0c ∷ 0xa7 ∷ 0x8f
    ∷ 0xbf ∷ 0x26 ∷ 0xc0 ∷ 0xb4 ∷ 0x95 ∷ 0x6c ∷ []

contract_address_bytes : contract_address ≡ data_hex contract_bytes
unfolding hex_digits hex_digit
contract_address_bytes = refl

-- The first twenty bytes are compared with the deployer's address.
known_deployer :
    (rest : List ℕ)
    → text_eq
        (to_lower_case (data_hex (take 20 (contract_bytes ++ rest))))
        (to_lower_case contract_address)
      ≡ true
unfolding hex_digits hex_digit
known_deployer rest = refl

contract_bytes-AllBytes : AllBytes contract_bytes
contract_bytes-AllBytes = omega arith

module _ (e : Ethers) where
  concat_two :
      (a b : List ℕ)
      → AllBytes a
      → AllBytes b
      → e.hex_concat (data_hex a ∷ data_hex b ∷ []) ≡ data_hex (a ++ b)
  concat_two a b ha hb =
      e.concat_data (a ∷ b ∷ []) (ha, (hb, tt))
      ∙ ap (λ (l : List ℕ). data_hex (a ++ l)) (append-nil b)

  salt_number : (n : ℕ) → n < 2 ^ 256 → salt_bytes32 e (number n) ≡ ok (data_hex (be_bytes 32 n))
  unfolding salt_bytes32
  salt_number n h = rw (e.pad_fits 32 n (omega arith) h h)

  salt_text :
      (bs : List ℕ)
      → AllBytes bs
      → length bs ≡ 32
      → salt_bytes32 e (text (data_hex bs)) ≡ ok (data_hex bs)
  unfolding salt_bytes32
  salt_text bs h l = rw (e.hexlify_data bs h) (
      ap (λ o. or_throw o value_too_long)
        (subst (λ (k : ℕ). e.hex_zero_pad (data_hex bs) k ≡ some (data_hex bs)) l
          (e.pad_full bs h)))

  call_data_lem :
      (n : ℕ) (code : List ℕ)
      → n < 2 ^ 256
      → AllBytes code
      → get_deploy_transaction_call_data e (data_hex code) (number n)
        ≡ ok (data_hex (be_bytes 32 n ++ code))
  unfolding get_deploy_transaction_call_data
  call_data_lem n code h hc =
      rw (salt_number n h) (ap ok (concat_two (be_bytes 32 n) code (be_bytes-AllBytes 32 n h) hc))

  deployed_text :
      (n : ℕ) (init_code : Str)
      → n < 2 ^ 256
      → get_deployed_address e init_code (text (data_hex (be_bytes 32 n)))
        ≡ get_deployed_address e init_code (number n)
  unfolding get_deployed_address
  deployed_text n init_code h =
      rw (
        salt_number n h,
        salt_text (be_bytes 32 n) (be_bytes-AllBytes 32 n h) (length-be_bytes 32 n),
      )

module _ (e : Ethers) (entry_point : Option EntryPointClient) where
  sender_lem :
      (salt code : List ℕ)
      → AllBytes salt
      → length salt ≡ 32
      → AllBytes code
      → sender_of_init_code e entry_point (data_hex (contract_bytes ++ (salt ++ code)))
        ≡ get_deployed_address e (data_hex code) (text (data_hex salt))
  unfolding sender_of_init_code
  sender_lem salt code hs ls hc = rw (
    e.slice_data_to (contract_bytes ++ (salt ++ code)) 0 20 all (omega arith),
    e.slice_data (contract_bytes ++ (salt ++ code)) 20 all,
    e.slice_data_to (salt ++ code) 0 32 (All-append _ salt code hs hc) (omega arith),
    e.slice_data (salt ++ code) 32 (All-append _ salt code hs hc),
    take-append 32 salt code ls,
    drop-append 32 salt code ls,
    known_deployer (salt ++ code),
  )
    where
      all : AllBytes (contract_bytes ++ (salt ++ code))
      all =
          All-append _ contract_bytes (salt ++ code) contract_bytes-AllBytes
            (All-append _ salt code hs hc)

  -- For init code that is the deployer's address with the call data of a deployment, a salt below
  -- 2 ^ 256 and byte code, the sender is the address that `getDeployedAddress` gives for that code
  -- and salt, whatever entry point there is.
  pub sender-get_deployed_address :
      (n : ℕ) (code : List ℕ)
      → n < 2 ^ 256
      → AllBytes code
      → (get_deploy_transaction_call_data e (data_hex code) (number n) >>= λ d.
          sender_of_init_code e entry_point (e.hex_concat (contract_address ∷ d ∷ [])))
        ≡ get_deployed_address e (data_hex code) (number n)
  sender-get_deployed_address n code h hc =
      rw
        (
          call_data_lem e n code h hc,
          contract_address_bytes,
          concat_two e contract_bytes (be_bytes 32 n ++ code) contract_bytes-AllBytes
              (All-append _ (be_bytes 32 n) code (be_bytes-AllBytes 32 n h) hc),
        )
        (sender_lem (be_bytes 32 n) code (be_bytes-AllBytes 32 n h) (length-be_bytes 32 n) hc
          ∙ deployed_text e n (data_hex code) h)
