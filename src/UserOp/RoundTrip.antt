-- ===== src/UserOp/RoundTrip.antt =====
-- Packing gas limits and reading them back: `packAccountGasLimits` and
-- `unpackAccountGasLimits` of test/testutils.ts.
use mathlib.Core.Option
use falcon_smart_account.Prelude.{
  ℕ, ◌^◌, ◌≤◌, ◌<◌, ◌≡◌, ap, ap₂, ◌∙◌, Option, some, List, [], ◌∷◌, ◌++◌, append-nil, arith, length,
  take-append, drop-append, AllBytes, All-append,
}
use falcon_smart_account.Prelude.Digits.{be_bytes, be_bytes-AllBytes, length-be_bytes}
use falcon_smart_account.Js.{
  data_hex, hex_digits, hex_digits-append, length-hex_digits, parse_int_16, parse_int_16-be_bytes,
}
use falcon_smart_account.Js.Number.{to_number}
use falcon_smart_account.Outcome.{ok, throws, ◌>>=◌, value_too_long}
use falcon_smart_account.Ethers.{Ethers}
use falcon_smart_account.UserOp.Pack.{pad16, pack_account_gas_limits, unpack_account_gas_limits}

-- The bytes of two uint128 values side by side.
abbrev pub two_words : ℕ → ℕ → List ℕ
two_words high low = be_bytes 16 high ++ be_bytes 16 low

pub two_words-AllBytes :
    (high low : ℕ) → high < 2 ^ 128 → low < 2 ^ 128 → AllBytes (two_words high low)
two_words-AllBytes high low h l =
    All-append _ (be_bytes 16 high) (be_bytes 16 low) (be_bytes-AllBytes 16 high h)
      (be_bytes-AllBytes 16 low l)

length-word_digits : (n : ℕ) → length (hex_digits (be_bytes 16 n)) ≡ 32
length-word_digits n = omega (arith, length-hex_digits (be_bytes 16 n), length-be_bytes 16 n)

unpack_two_words :
    (high low : ℕ)
    → high < 2 ^ 128
    → low < 2 ^ 128
    → unpack_account_gas_limits (data_hex (two_words high low))
      ≡ (some (to_number high), some (to_number low))
unfolding unpack_account_gas_limits
unpack_two_words high low h l = rw (hex_digits-append (be_bytes 16 high) (be_bytes 16 low)) (
    ap₂ (λ (a b : Option ℕ). (Option.map to_number a, Option.map to_number b))
      (ap parse_int_16 (
          take-append 32 (hex_digits (be_bytes 16 high)) (hex_digits (be_bytes 16 low))
            (length-word_digits high))
        ∙ parse_int_16-be_bytes 15 high h)
      (ap parse_int_16 (
          drop-append 32 (hex_digits (be_bytes 16 high)) (hex_digits (be_bytes 16 low))
            (length-word_digits high))
        ∙ parse_int_16-be_bytes 15 low l))

module _ (e : Ethers) where
  pub pad16-ok : (n : ℕ) → n < 2 ^ 128 → pad16 e n ≡ ok (data_hex (be_bytes 16 n))
  unfolding pad16
  pad16-ok n h = rw (e.pad_fits 16 n (omega arith) h (omega arith))

  pub pad16-throws : (n : ℕ) → 2 ^ 128 ≤ n → n < 2 ^ 256 → pad16 e n ≡ throws value_too_long
  unfolding pad16
  pad16-throws n h u = rw (e.pad_too_long 16 n (omega arith) h u)

  pub pack_account_gas_limits_lem :
      (high low : ℕ)
      → high < 2 ^ 128
      → low < 2 ^ 128
      → pack_account_gas_limits e high low ≡ ok (data_hex (two_words high low))
  unfolding pack_account_gas_limits
  pack_account_gas_limits_lem high low h l = rw (
    pad16-ok high h,
    pad16-ok low l,
    e.concat_data (be_bytes 16 high ∷ be_bytes 16 low ∷ [])
        (be_bytes-AllBytes 16 high h, (be_bytes-AllBytes 16 low l, tt)),
    append-nil,
  )

  -- For limits of at most 128 bits, packing succeeds, and unpacking the packed string gives
  -- each limit, rounded as a JavaScript number is.
  pub unpack-pack_account_gas_limits :
      (high low : ℕ)
      → high < 2 ^ 128
      → low < 2 ^ 128
      → (pack_account_gas_limits e high low >>= λ s. ok (unpack_account_gas_limits s))
        ≡ ok (some (to_number high), some (to_number low))
  unpack-pack_account_gas_limits high low h l =
      rw (pack_account_gas_limits_lem high low h l) (ap ok (unpack_two_words high low h l))
