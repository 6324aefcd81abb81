-- ===== src/EntryPoint/Hash/Agrees.antt =====
-- The hash that test/UserOp.ts signs is the one that contracts/core/EntryPoint.sol computes.
use mathlib.Core.Path.{subst}
use falcon_smart_account.Prelude.{
  ℕ, ◌≡◌, refl, sym, ap, ap₂, ◌∙◌, List, [], ◌∷◌, ◌++◌, append-nil, map, AllBytes, All-append, Bool,
  true, false, ◌&&◌, ltb, arith,
}
use falcon_smart_account.Prelude.Digits.{be_bytes, be_value}
use falcon_smart_account.Js.{Str, codes, data_hex, hex_digits, hex_digit}
use falcon_smart_account.Outcome.{ok, ◌>>=◌}
use falcon_smart_account.Ethers.{Ethers, AbiValue, bytes32, address, uint256, bytes, flatten}
use falcon_smart_account.UserOp.Types.{UserOperation, PackedUserOperation}
use falcon_smart_account.UserOp.Pack.{pack_user_op}
use falcon_smart_account.UserOp.Fill
use falcon_smart_account.UserOp.Fill.{encode_signed, encode_user_op}
use falcon_smart_account.UserOp.Sign
use falcon_smart_account.UserOp.Sign.{get_domain_separator}
use falcon_smart_account.EntryPoint.ReadBack.{calldata_of}
use falcon_smart_account.EntryPoint.Hash
use falcon_smart_account.EntryPoint.Hash.{packed_userop_type, encode, hash}

-- The word of a static value, as the ABI has it; a dynamic one has none.
unfoldable pub word_of : Ethers → AbiValue → List ℕ
word_of e (bytes32 s) = e.arrayify s
word_of e (address s) = be_bytes 32 (be_value 0 (e.arrayify s))
word_of e (uint256 n) = be_bytes 32 n
word_of e (bytes s) = []

unfoldable pub is_static : AbiValue → Bool
is_static (bytes32 s) = true
is_static (address s) = true
is_static (uint256 n) = true
is_static (bytes s) = false

unfoldable pub all_static : List AbiValue → Bool
unfolding is_static
all_static [] = true
all_static (v ∷ vs) = is_static v && all_static vs

-- What ethers and the chain have in common: Keccak of the bytes of a text, which makes bytes, and the
-- ABI encoding of static values, which is of their words.
pub record IsHashing (e : Ethers) (keccak : List ℕ → List ℕ) : Type 0 where
  pub makes_bytes : (bs : List ℕ) → AllBytes (keccak bs)
  pub same_keccak : (s : Str) → e.keccak256 s ≡ data_hex (keccak (e.arrayify s))
  pub static_encoding :
      (vs : List AbiValue)
      → all_static vs ≡ true
      → AllBytes (flatten (map (word_of e) vs))
      → e.arrayify (e.abi_encode vs) ≡ flatten (map (word_of e) vs)

unfoldable pub all_bytes : List ℕ → Bool
all_bytes [] = true
all_bytes (c ∷ cs) = ltb c 256 && all_bytes cs

pub all_bytes_sound : (cs : List ℕ) → all_bytes cs ≡ true → AllBytes cs
unfolding all_bytes
all_bytes_sound [] h = tt
all_bytes_sound (c ∷ cs) h = (ground arith, all_bytes_sound cs (ground arith))

module _ (e : Ethers) (keccak : List ℕ → List ℕ) (hashing : IsHashing e keccak) where
  keccak_word : (s : Str) → e.arrayify (e.keccak256 s) ≡ keccak (e.arrayify s)
  keccak_word s =
      ap e.arrayify (hashing.same_keccak s)
      ∙ e.arrayify_data (keccak (e.arrayify s)) (hashing.makes_bytes (e.arrayify s))

  keccak_data : (bs : List ℕ) → AllBytes bs → e.keccak256 (data_hex bs) ≡ data_hex (keccak bs)
  keccak_data bs h =
      hashing.same_keccak (data_hex bs)
      ∙ ap (λ (b : List ℕ). data_hex (keccak b)) (e.arrayify_data bs h)

  typehash_word : e.arrayify (Fill.packed_userop_typehash e) ≡ Hash.packed_userop_typehash keccak
  unfolding Fill.packed_userop_typehash Hash.packed_userop_typehash all_bytes
  typehash_word =
      keccak_word (data_hex packed_userop_type)
      ∙ ap keccak (e.arrayify_data packed_userop_type (all_bytes_sound packed_userop_type refl))

  -- What the tooling encodes to be signed.
  signed_values : PackedUserOperation → List AbiValue
  signed_values p =
      bytes32 (Fill.packed_userop_typehash e)
      ∷ address p.sender
      ∷ uint256 p.nonce
      ∷ bytes32 (e.keccak256 p.init_code)
      ∷ bytes32 (e.keccak256 p.call_data)
      ∷ bytes32 p.account_gas_limits
      ∷ uint256 p.pre_verification_gas
      ∷ bytes32 p.gas_fees
      ∷ bytes32 (e.keccak256 p.paymaster_and_data)
      ∷ []

  signed_words :
      (p : PackedUserOperation)
      → flatten (map (word_of e) (signed_values p)) ≡ encode keccak (calldata_of e p)
  unfolding signed_values encode word_of
  signed_words p =
      rw
        (
          typehash_word,
          keccak_word p.init_code,
          keccak_word p.call_data,
          keccak_word p.paymaster_and_data,
        )
        refl

  encoded :
      (p : PackedUserOperation)
      → AllBytes (encode keccak (calldata_of e p))
      → e.arrayify (encode_signed e p) ≡ encode keccak (calldata_of e p)
  unfolding encode_signed all_static is_static signed_values
  encoded p words =
      hashing.static_encoding (signed_values p) refl (subst AllBytes (sym (signed_words p)) words)
      ∙ signed_words p

  hashed :
      (p : PackedUserOperation)
      → AllBytes (encode keccak (calldata_of e p))
      → e.keccak256 (encode_signed e p) ≡ data_hex (hash keccak (calldata_of e p))
  unfolding hash
  hashed p words =
      hashing.same_keccak (encode_signed e p)
      ∙ ap (λ (b : List ℕ). data_hex (keccak b)) (encoded p words)

  prefixed :
      (d h : List ℕ)
      → AllBytes d
      → AllBytes h
      → e.keccak256 (e.hex_concat (codes "0x1901" ∷ data_hex d ∷ data_hex h ∷ []))
        ≡ data_hex (keccak (25 ∷ 1 ∷ (d ++ h)))
  unfolding hex_digits hex_digit
  prefixed d h bytes_d bytes_h =
      let two : AllBytes (25 ∷ 1 ∷ []) = (omega arith, (omega arith, tt)) in
      let nothing : AllBytes [] = tt in
      let all : AllBytes (25 ∷ 1 ∷ (d ++ (h ++ []))) = (
        omega arith,
        (omega arith, All-append _ d (h ++ []) bytes_d (All-append _ h [] bytes_h nothing)),
      ) in
      ap e.keccak256 (e.concat_data ((25 ∷ 1 ∷ []) ∷ d ∷ h ∷ []) (two, (bytes_d, (bytes_h, tt))))
      ∙ keccak_data (25 ∷ 1 ∷ (d ++ (h ++ []))) all
      ∙ ap (λ (t : List ℕ). data_hex (keccak (25 ∷ 1 ∷ (d ++ t)))) (append-nil h)

  -- When ethers and the chain hash and encode alike, the words of the packed operation are bytes, and the tooling's domain separator is the
  -- contract's, the hash that the tooling signs for an operation is the one that the entry point
  -- computes of the packed operation.
  pub get_user_op_hash-packed :
      (op : UserOperation) (p : PackedUserOperation) (entry_point : Str) (chain_id : ℕ)
      (domain_separator : List ℕ)
      → AllBytes domain_separator
      → get_domain_separator e entry_point chain_id ≡ data_hex domain_separator
      → pack_user_op e op ≡ ok p
      → AllBytes (encode keccak (calldata_of e p))
      → Sign.get_user_op_hash e op entry_point chain_id
        ≡ ok (data_hex (Hash.get_user_op_hash keccak domain_separator (calldata_of e p)))
  unfolding Sign.get_user_op_hash Hash.get_user_op_hash encode_user_op hash
  get_user_op_hash-packed op p entry_point chain_id d bytes_d same_d packed words =
      rw (packed, ◌>>=◌)
        (ap ok (
          ap₂ (λ (a b : Str). e.keccak256 (e.hex_concat (codes "0x1901" ∷ a ∷ b ∷ []))) same_d
            (hashed p words)
          ∙ prefixed d (hash keccak (calldata_of e p)) bytes_d (hashing.makes_bytes _)))
