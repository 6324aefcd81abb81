-- ===== src/Ethers.antt =====
-- What the TypeScript sources use of the ethers library (`ethers/lib/utils`), which is not part of
-- this repository: a record of its functions and of the documented behaviour that is relied on.
pub mod Reference
use falcon_smart_account.Prelude.{
  ℕ, ◌+◌, ◌-◌, ◌^◌, ◌≤◌, ◌<◌, ◌≡◌, List, [], ◌∷◌, ◌++◌, map, Option, none, some, length, take, drop,
  All, AllBytes,
}
use falcon_smart_account.Prelude.Digits.{be_bytes}
use falcon_smart_account.Js.{Str, data_hex}

-- A typed argument of `defaultAbiCoder.encode`.
pub data AbiValue : Type 0 where
  bytes32 : Str → AbiValue
  address : Str → AbiValue
  uint256 : ℕ → AbiValue
  bytes : Str → AbiValue

-- The bytes of a list of byte strings, one after the other.
abbrev pub flatten : List (List ℕ) → List ℕ
flatten [] = []
flatten (bs ∷ bss) = bs ++ flatten bss

pub record Ethers : Type 0 where
  -- `hexlify` of a number, with `{ hexPad: 'left' }`
  pub hexlify : ℕ → Str
  -- `hexlify` of a hexadecimal string
  pub hexlify_text : Str → Str
  -- `none` where it throws
  pub hex_zero_pad : Str → ℕ → Option Str
  pub hex_concat : List Str → Str
  -- `hexDataSlice(data, offset, endOffset?)`
  pub hex_data_slice : Str → ℕ → Option ℕ → Str
  pub arrayify : Str → List ℕ
  pub keccak256 : Str → Str
  pub abi_encode : List AbiValue → Str
  -- a uint256 is padded to `k` bytes if it fits, and refused otherwise
  pub pad_fits :
      (k n : ℕ)
      → 0 < k
      → n < 256 ^ k
      → n < 256 ^ 32
      → hex_zero_pad (hexlify n) k ≡ some (data_hex (be_bytes k n))
  pub pad_too_long :
      (k n : ℕ) → 0 < k → 256 ^ k ≤ n → n < 256 ^ 32 → hex_zero_pad (hexlify n) k ≡ none
  pub hexlify_data : (bs : List ℕ) → AllBytes bs → hexlify_text (data_hex bs) ≡ data_hex bs
  -- data of the full length is not changed
  pub pad_full :
      (bs : List ℕ) → AllBytes bs → hex_zero_pad (data_hex bs) (length bs) ≡ some (data_hex bs)
  pub concat_data :
      (bss : List (List ℕ))
      → All AllBytes bss
      → hex_concat (map data_hex bss) ≡ data_hex (flatten bss)
  pub slice_data_to :
      (bs : List ℕ) (i j : ℕ)
      → AllBytes bs
      → i ≤ j
      → hex_data_slice (data_hex bs) i (some j) ≡ data_hex (take (j - i) (drop i bs))
  pub slice_data :
      (bs : List ℕ) (i : ℕ)
      → AllBytes bs
      → hex_data_slice (data_hex bs) i none ≡ data_hex (drop i bs)
  pub arrayify_data : (bs : List ℕ) → AllBytes bs → arrayify (data_hex bs) ≡ bs
  pub keccak_data :
      (s : Str) → (h : List ℕ) × (length h ≡ 32) × AllBytes h × (keccak256 s ≡ data_hex h)
