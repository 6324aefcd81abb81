-- ===== src/TestUtils/Validation.antt =====
-- `parseValidationData` and `packValidationData` of test/testutils.ts, with the entry point's
-- packing of contracts/core/Helpers.sol.
use mathlib.Core.Option
use mathlib.Core.Path.{subst}
use falcon_smart_account.Prelude.{
  ℕ, ◌+◌, ◌-◌, ◌*◌, ◌/◌, ◌%◌, ◌^◌, ◌<◌, ◌≡◌, sym, ap, ◌∙◌, Option, none, some, List, ◌++◌, ◌==◌,
  arith, length, length-append, drop, take-append, drop-append, append_assoc, AllBytes, All-append,
  if◌then◌else◌,
}
use falcon_smart_account.Prelude.Digits.{
  be_bytes, be_value, be_value-be_bytes, be_value-append, be_value_acc, be_value-lt,
  be_bytes-AllBytes, length-be_bytes, be_bytes-be_value,
}
use falcon_smart_account.Js.{
  Str, data_hex, parse_int_16, parse_int_16-be_bytes, parse_int_16-prefix,
}
use falcon_smart_account.Js.Number.{to_number, to_number_exact}
use falcon_smart_account.Outcome.{Outcome, ok, ◌>>=◌, or_throw, value_too_long}
use falcon_smart_account.Ethers.{Ethers}

pub record ValidationData : Type 0 where
  pub aggregator : Str
  pub valid_after : Option ℕ
  pub valid_until : Option ℕ

-- `maxUint48`
abbrev pub max_uint48 : ℕ
max_uint48 = 2 ^ 48 - 1

-- A time of zero means that there is no end; `none` is NaN.
until_or_max : Option ℕ → Option ℕ
until_or_max none = none
until_or_max (some n) = some (if n == 0 then max_uint48 else n)

-- `packValidationData`: the numbers shifted and added; `none` is a NaN, which `BigNumber` refuses.
unfoldable pub pack_validation_data : ℕ → ℕ → ℕ → ℕ
pack_validation_data valid_after valid_until aggregator =
    (valid_after * 2 ^ 48 + valid_until) * 2 ^ 160 + aggregator

module _ (e : Ethers) where
  read_number : Str → Option ℕ
  read_number s = Option.map to_number (parse_int_16 s)

  unfoldable pub parse_validation_data : ℕ → Outcome ValidationData
  unfolding until_or_max read_number
  parse_validation_data validation_data = do
    d ← or_throw (e.hex_zero_pad (e.hexlify validation_data) 32) value_too_long
    ok (record {
      aggregator = e.hex_data_slice d 12 none;
      valid_until = until_or_max (read_number (e.hex_data_slice d 6 (some 12)));
      valid_after = read_number (e.hex_data_slice d 0 (some 6));
    })

-- Six bytes are read exactly: 48 bits fit a double.
number_of :
    (after : ℕ)
    → after < 2 ^ 48
    → Option.map to_number (parse_int_16 (data_hex (be_bytes 6 after))) ≡ some after
number_of after a =
    rw
      (
        parse_int_16-prefix (be_bytes 6 after) (be_bytes-AllBytes 6 after a),
        parse_int_16-be_bytes 5 after a,
      )
      (ap some (to_number_exact after (omega arith)))

-- The three fields as bytes.
abbrev word_bytes : ℕ → ℕ → List ℕ → List ℕ
word_bytes valid_after valid_until aggregator =
    be_bytes 6 valid_after ++ (be_bytes 6 valid_until ++ aggregator)

module _ (after until : ℕ) (aggregator : List ℕ) (a : after < 2 ^ 48) (u : until < 2 ^ 48)
    (bytes : AllBytes aggregator) (twenty : length aggregator ≡ 20) where
  word_bytes-AllBytes : AllBytes (word_bytes after until aggregator)
  word_bytes-AllBytes =
      All-append _ (be_bytes 6 after) _ (be_bytes-AllBytes 6 after a)
        (All-append _ (be_bytes 6 until) aggregator (be_bytes-AllBytes 6 until u) bytes)

  length-word_bytes : length (word_bytes after until aggregator) ≡ 32
  length-word_bytes = omega (
    arith,
    length-append (be_bytes 6 after) (be_bytes 6 until ++ aggregator),
    length-append (be_bytes 6 until) aggregator,
    length-be_bytes 6 after,
    length-be_bytes 6 until,
  )

  value-word_bytes :
      be_value 0 (word_bytes after until aggregator)
      ≡ pack_validation_data after until (be_value 0 aggregator)
  unfolding pack_validation_data
  value-word_bytes = omega (
    arith,
    be_value-append 0 (be_bytes 6 after) (be_bytes 6 until ++ aggregator),
    be_value-append (be_value 0 (be_bytes 6 after)) (be_bytes 6 until) aggregator,
    be_value-be_bytes 6 after 0 a,
    be_value-be_bytes 6 until (be_value 0 (be_bytes 6 after)) u,
    be_value_acc (be_value (be_value 0 (be_bytes 6 after)) (be_bytes 6 until)) aggregator,
    ap (λ (k : ℕ). be_value (be_value 0 (be_bytes 6 after)) (be_bytes 6 until) * 256 ^ k) twenty,
  )

  -- The packed number, padded to 32 bytes, is the fields one after the other.
  bytes-pack :
      be_bytes 32 (pack_validation_data after until (be_value 0 aggregator))
      ≡ word_bytes after until aggregator
  bytes-pack =
      subst
        (λ (k : ℕ).
          be_bytes k (pack_validation_data after until (be_value 0 aggregator))
          ≡ word_bytes after until aggregator)
        length-word_bytes
        (ap (be_bytes (length (word_bytes after until aggregator))) (sym value-word_bytes)
          ∙ be_bytes-be_value (word_bytes after until aggregator) word_bytes-AllBytes)

  pack-lt : pack_validation_data after until (be_value 0 aggregator) < 2 ^ 256
  unfolding pack_validation_data
  pack-lt = omega (
    arith,
    subst (λ (k : ℕ). be_value 0 aggregator < 256 ^ k) twenty (be_value-lt aggregator bytes),
  )

  -- For times below 2^48 and an aggregator of 20 bytes, reading packed validation data gives the
  -- times and the aggregator's address, as lower-case hexadecimal text, that were packed;
  -- an end of zero is read as the greatest 48-bit time.
  pub parse-pack_validation_data :
      (e : Ethers)
      → parse_validation_data e (pack_validation_data after until (be_value 0 aggregator))
        ≡ ok (record {
          aggregator = data_hex aggregator;
          valid_after = some after;
          valid_until = some (if until == 0 then max_uint48 else until);
        })
  unfolding parse_validation_data
  parse-pack_validation_data e = rw (
    e.pad_fits 32 (pack_validation_data after until (be_value 0 aggregator)) (omega arith) pack-lt
        pack-lt,
    bytes-pack,
    e.slice_data (word_bytes after until aggregator) 12 word_bytes-AllBytes,
    e.slice_data_to (word_bytes after until aggregator) 6 12 word_bytes-AllBytes (omega arith),
    e.slice_data_to (word_bytes after until aggregator) 0 6 word_bytes-AllBytes (omega arith),
    take-append 6 (be_bytes 6 after) (be_bytes 6 until ++ aggregator) (length-be_bytes 6 after),
    drop-append 6 (be_bytes 6 after) (be_bytes 6 until ++ aggregator) (length-be_bytes 6 after),
    take-append 6 (be_bytes 6 until) aggregator (length-be_bytes 6 until),
    drop_two,
    number_of after a,
    number_of until u,
  )
    where
      drop_two : drop 12 (word_bytes after until aggregator) ≡ aggregator
      drop_two =
          ap (drop 12) (sym (append_assoc (be_bytes 6 after) (be_bytes 6 until) aggregator))
          ∙ drop-append 12 (be_bytes 6 after ++ be_bytes 6 until) aggregator (
              omega (
                arith,
                length-append (be_bytes 6 after) (be_bytes 6 until),
                length-be_bytes 6 after,
                length-be_bytes 6 until,
              ))

-- `_parseValidationData` of contracts/core/Helpers.sol: the aggregator, `validAfter`, `validUntil`.
unfoldable pub contract_parse_validation_data : ℕ → ℕ × ℕ × ℕ
contract_parse_validation_data d =
    let until = d / 2 ^ 160 % 2 ^ 48 in
    (d % 2 ^ 160, d / 2 ^ 208 % 2 ^ 48, if until == 0 then max_uint48 else until)

pack-split :
    (d : ℕ)
    → d < 2 ^ 256
    → pack_validation_data
        (d / 2 ^ 208 % 2 ^ 48)
        (d / 2 ^ 160 % 2 ^ 48)
        (be_value 0 (be_bytes 20 (d % 2 ^ 160)))
      ≡ d
unfolding pack_validation_data
pack-split d h = omega (arith, be_value-be_bytes 20 (d % 2 ^ 160) 0 (omega arith))

-- For every uint256, the tooling reads the same aggregator and times as the contract.
pub parse_validation_data-eq-contract :
    (e : Ethers) (d : ℕ)
    → d < 2 ^ 256
    → let (aggregator, after, until) = contract_parse_validation_data d in
      parse_validation_data e d
      ≡ ok (record {
        aggregator = data_hex (be_bytes 20 aggregator);
        valid_after = some after;
        valid_until = some until;
      })
unfolding contract_parse_validation_data
parse_validation_data-eq-contract e d h =
    subst
      (λ (n : ℕ).
        parse_validation_data e n
        ≡ ok (record {
          aggregator = data_hex (be_bytes 20 (d % 2 ^ 160));
          valid_after = some (d / 2 ^ 208 % 2 ^ 48);
          valid_until =
              some (if d / 2 ^ 160 % 2 ^ 48 == 0 then max_uint48 else d / 2 ^ 160 % 2 ^ 48);
        }))
      (pack-split d h)
      (parse-pack_validation_data (d / 2 ^ 208 % 2 ^ 48) (d / 2 ^ 160 % 2 ^ 48)
        (be_bytes 20 (d % 2 ^ 160)) (omega arith) (omega arith)
        (be_bytes-AllBytes 20 (d % 2 ^ 160) (omega arith)) (length-be_bytes 20 (d % 2 ^ 160)) e)
