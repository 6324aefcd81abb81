-- ===== src/Falcon/Serial.antt =====
-- decode-full.js and decode-falcon.js: the decoders that read a signature bit by bit, with eight low
-- bits to a coefficient. A count that runs out of fuel throws `out_of_fuel`, which no error of the
-- sources is: the loop goes on.
pub mod Begins
pub mod FirstRead
pub mod Differs
use falcon_smart_account.Prelude.{
  ℕ, zero, suc, ◌+◌, ◌-◌, ◌*◌, ◌/◌, ◌%◌, ◌^◌, List, [], ◌∷◌, ltb, leb, ◌==◌, length, take, drop,
  ◌||◌, not, if◌then◌else◌,
}
use falcon_smart_account.Prelude.Int.{ℤ, pos, negsuc, sub_ℕ}
use falcon_smart_account.Outcome.{Outcome, ok, throws, ◌>>=◌, unexpected_logn, out_of_fuel}
use falcon_smart_account.Falcon.Word.{byte_at}
use falcon_smart_account.Falcon.PublicKey.{decode}

-- `decodeFalconPk` of decode-full.js, whose loop is that of `decodePk`.
unfoldable pub decode_falcon_pk : List ℕ → ℕ → List ℕ
decode_falcon_pk pk_bytes n = decode n pk_bytes (record { acc = 0; acc_len = 0; buf_idx = 1 })

-- `bytePos` and `bitPos`
pub record Cursor : Type 0 where
  pub byte_pos : ℕ
  pub bit_pos : ℕ

-- The bit under the cursor, and the cursor at the next.
unfoldable pub bit_under : List ℕ → Cursor → ℕ × Cursor
bit_under comp s = (
  byte_at comp s.byte_pos / 2 ^ (7 - s.bit_pos) % 2,
  (if leb 8 (suc s.bit_pos)
      then record { byte_pos = suc s.byte_pos; bit_pos = 0 }
      else record s { bit_pos = suc s.bit_pos }),
)

-- `readBit` of `decodeFalconSigCt1`, which stays at the end.
unfoldable pub read_bit_ct1 : List ℕ → Cursor → ℕ × Cursor
read_bit_ct1 comp s = if leb (length comp) s.byte_pos then (0, s) else bit_under comp s

-- A 32-bit word as a signed number.
unfoldable pub int32 : ℕ → ℤ
int32 w = if ltb w (2 ^ 31) then pos w else negsuc (2 ^ 32 - 1 - w)

-- `(high << lowBits) | low`, where `low` has no more bits.
unfoldable pub abs_val : ℕ → ℕ → ℕ → ℤ
abs_val low_bits high low = int32 (high * 2 ^ low_bits % 2 ^ 32 + low)

-- `q - absVal` for a sign and a value that is not 0, else `absVal`.
unfoldable pub with_sign : ℕ → ℕ → ℤ → ℤ
with_sign q sign (pos zero) = pos zero
with_sign q sign (pos (suc m)) = if sign == 1 then sub_ℕ q (suc m) else pos (suc m)
with_sign q sign (negsuc m) = if sign == 1 then pos (q + suc m) else negsuc m

module _ (read_bit : Cursor → ℕ × Cursor) where
  -- `for (let j = lowBits - 1; j >= 0; j--) low |= readBit() << j`: bits that are apart add up.
  unfoldable pub read_low : ℕ → ℕ → Cursor → ℕ × Cursor
  read_low zero low s = (low, s)
  read_low (suc j) low s = let (bit, s1) = read_bit s in read_low j (low + bit * 2 ^ j) s1

  -- `while (readBit() === 0) high++`
  unfoldable pub read_high : ℕ → ℕ → Cursor → Outcome (ℕ × Cursor)
  read_high zero high s = throws out_of_fuel
  read_high (suc fuel) high s =
      let (bit, s1) = read_bit s in
      let more = read_high fuel (suc high) s1 in if bit == 0 then more else ok (high, s1)

  -- `n` coefficients from a cursor on.
  unfoldable pub serial_coefficients : ℕ → ℕ → ℕ → ℕ → Cursor → Outcome (List ℤ)
  serial_coefficients fuel q low_bits zero s = ok []
  serial_coefficients fuel q low_bits (suc n) s =
      let (sign, s1) = read_bit s in
      let (low, s2) = read_low low_bits 0 s1 in
      read_high fuel 0 s2 >>= λ counted. serial_coefficients fuel q low_bits n counted.1 >>= λ xs.
      ok (with_sign q sign (abs_val low_bits counted.0 low) ∷ xs)

-- `decodeFalconSigCt1(sigBytes, n, q)`
unfoldable pub decode_falcon_sig_ct1 : ℕ → List ℕ → ℕ → ℕ → Outcome (List ℤ)
decode_falcon_sig_ct1 fuel sig_bytes n q =
    let comp = drop 42 sig_bytes in
    let logn = byte_at comp 0 % 16 in
    if not (logn == 9) || not (2 ^ logn == n)
    then throws unexpected_logn
    else serial_coefficients (read_bit_ct1 comp) fuel q (logn - 1) n
        (record { byte_pos = 1; bit_pos = 0 })

-- `extractNonce` of decode-full.js
unfoldable pub extract_nonce : List ℕ → List ℕ
extract_nonce sig_bytes = take 40 (drop 2 sig_bytes)

-- `decodeCompressedSig(sigBytes, n)` of decode-falcon.js, whose `readBit` does not look for the end
-- and which only warns of a header.
unfoldable pub decode_compressed_sig : ℕ → List ℕ → ℕ → Outcome (List ℤ)
decode_compressed_sig fuel sig_bytes n =
    let comp = drop 42 sig_bytes in
    serial_coefficients (bit_under comp) fuel 12289 (9 - 1) n (record { byte_pos = 1; bit_pos = 0 })
