-- ===== src/Ethers/Reference.antt =====
-- A concrete ethers: functions that meet the laws, so that the theorems over an `Ethers` can be
-- applied. Its hash is a constant and not Keccak; its `hexlify` always writes 32 bytes.
use mathlib.Core.Path.{subst}
use native.Mathlib.Decide.{ℕ_discrete}
use falcon_smart_account.Prelude.{
  ℕ, ◌+◌, ◌-◌, ◌*◌, ◌/◌, ◌%◌, ◌^◌, ◌≤◌, ◌<◌, ◌≡◌, refl, sym, ap, ◌∙◌, List, [], ◌∷◌, ◌++◌, map,
  Option, none, some, length, take, drop, replicate, AllBytes, arith, ◌==◌, ==-refl, ltb, lt→ltb,
  not-lt→ltb, if◌then◌else◌,
}
use falcon_smart_account.Prelude.Digits.{
  be_bytes, be_value, be_value-be_bytes, be_bytes-AllBytes, length-be_bytes,
}
use falcon_smart_account.Js.{
  Str, data_hex, hex_digits, hex_digits-append, digit_value, digit_value-hex_digit,
}
use falcon_smart_account.Ethers.{Ethers, flatten}

nibble : ℕ → ℕ
nibble c = elim (digit_value c) [ none ↦ 0 | some d ↦ d ]

-- The bytes of hexadecimal digits, two at a time.
unfoldable pub bytes_of : Str → List ℕ
unfolding nibble
bytes_of (a ∷ b ∷ s) = (nibble a * 16 + nibble b) ∷ bytes_of s
bytes_of _ = []

abbrev arrayify : Str → List ℕ
arrayify s = bytes_of (drop 2 s)

pub bytes_of-hex_digits : (bs : List ℕ) → AllBytes bs → bytes_of (hex_digits bs) ≡ bs
unfolding bytes_of hex_digits
bytes_of-hex_digits [] h = refl
bytes_of-hex_digits (b ∷ bs) h = ground (
  arith,
  digit_value-hex_digit (b / 16) (omega arith),
  digit_value-hex_digit (b % 16) (omega arith),
  bytes_of-hex_digits bs h.1,
)

abbrev hexlify : ℕ → Str
hexlify n = data_hex (be_bytes 32 n)

pad_value : ℕ → ℕ → Option Str
pad_value k n = if ltb n (256 ^ k) then some (data_hex (be_bytes k n)) else none

unfoldable pub hex_zero_pad : Str → ℕ → Option Str
unfolding pad_value
hex_zero_pad s k =
    if length (arrayify s) == k
    then some (data_hex (arrayify s))
    else pad_value k (be_value 0 (arrayify s))

value_hexlify : (n : ℕ) → n < 256 ^ 32 → be_value 0 (arrayify (hexlify n)) ≡ n
value_hexlify n h =
    rw (bytes_of-hex_digits (be_bytes 32 n) (be_bytes-AllBytes 32 n h))
      (omega (arith, be_value-be_bytes 32 n 0 h))

bytes_of_hexlify : (n : ℕ) → n < 256 ^ 32 → arrayify (hexlify n) ≡ be_bytes 32 n
bytes_of_hexlify n h = bytes_of-hex_digits (be_bytes 32 n) (be_bytes-AllBytes 32 n h)

pub pad_fits :
    (k n : ℕ)
    → 0 < k
    → n < 256 ^ k
    → n < 256 ^ 32
    → hex_zero_pad (hexlify n) k ≡ some (data_hex (be_bytes k n))
unfolding hex_zero_pad pad_value
pad_fits k n p h u = elim (ℕ_discrete 32 k) [
  | yes e ↦ rw (value_hexlify n u, bytes_of_hexlify n u, length-be_bytes 32 n, ← e) refl
  | no ne ↦
      rw (value_hexlify n u, bytes_of_hexlify n u, length-be_bytes 32 n, lt→ltb n (256 ^ k) h)
        (ground arith)
]

pub pad_too_long :
    (k n : ℕ) → 0 < k → 256 ^ k ≤ n → n < 256 ^ 32 → hex_zero_pad (hexlify n) k ≡ none
unfolding hex_zero_pad pad_value
pad_too_long k n p h u = elim (ℕ_discrete 32 k) [
  | yes e ↦ absurd (not_both k n e h u)
  | no ne ↦
      rw (value_hexlify n u, bytes_of_hexlify n u, length-be_bytes 32 n, not-lt→ltb n (256 ^ k) h)
        (ground arith)
]
  where
    not_both : (k n : ℕ) → ◌≡◌ {A = ℕ} 32 k → 256 ^ k ≤ n → n < 256 ^ 32 → ⊥
    not_both k n e h u = let h' = subst (λ (j : ℕ). 256 ^ j ≤ n) (sym e) h in absurd (omega arith)

pub pad_full :
    (bs : List ℕ) → AllBytes bs → hex_zero_pad (data_hex bs) (length bs) ≡ some (data_hex bs)
unfolding hex_zero_pad
pad_full bs h = rw (bytes_of-hex_digits bs h, ==-refl (length bs))

unfoldable pub digits_concat : List Str → Str
digits_concat [] = []
digits_concat (s ∷ ss) = drop 2 s ++ digits_concat ss

pub concat_data :
    (bss : List (List ℕ)) → digits_concat (map data_hex bss) ≡ hex_digits (flatten bss)
unfolding digits_concat hex_digits
concat_data [] = refl
concat_data (bs ∷ bss) =
    ap (λ (l : Str). hex_digits bs ++ l) (concat_data bss)
    ∙ sym (hex_digits-append bs (flatten bss))

unfoldable pub hex_data_slice : Str → ℕ → Option ℕ → Str
hex_data_slice s i none = data_hex (drop i (arrayify s))
hex_data_slice s i (some j) = data_hex (take (j - i) (drop i (arrayify s)))

pub slice_data_to :
    (bs : List ℕ) (i j : ℕ)
    → AllBytes bs
    → i ≤ j
    → hex_data_slice (data_hex bs) i (some j) ≡ data_hex (take (j - i) (drop i bs))
unfolding hex_data_slice
slice_data_to bs i j h le = rw (bytes_of-hex_digits bs h)

pub slice_data :
    (bs : List ℕ) (i : ℕ) → AllBytes bs → hex_data_slice (data_hex bs) i none ≡ data_hex (drop i bs)
unfolding hex_data_slice
slice_data bs i h = rw (bytes_of-hex_digits bs h)

abbrev pub hash_bytes : List ℕ
hash_bytes = replicate 32 7

pub hash_bytes-AllBytes : AllBytes hash_bytes
hash_bytes-AllBytes = omega arith

unfoldable pub reference : Ethers
reference = record {
  hexlify = hexlify;
  hexlify_text = λ s. s;
  hexlify_data = λ bs h. refl;
  pad_full = pad_full;
  hex_zero_pad = hex_zero_pad;
  hex_concat = λ ss. b'0' ∷ b'x' ∷ digits_concat ss;
  hex_data_slice = hex_data_slice;
  arrayify = arrayify;
  keccak256 = λ s. data_hex hash_bytes;
  abi_encode = λ vs. data_hex (length vs ∷ []);
  pad_fits = pad_fits;
  pad_too_long = pad_too_long;
  concat_data = λ bss h. ap (λ (l : Str). b'0' ∷ b'x' ∷ l) (concat_data bss);
  slice_data_to = slice_data_to;
  slice_data = slice_data;
  arrayify_data = bytes_of-hex_digits;
  keccak_data = λ s. (hash_bytes, refl, hash_bytes-AllBytes, refl);
}
