-- ===== src/Examples/Signatures.antt =====
-- The theorems on the Falcon decoders at concrete inputs.
use falcon_smart_account.Prelude.{
  ℕ, zero, suc, ◌+◌, ◌*◌, ◌^◌, ◌<◌, ◌≡◌, ◌≢◌, refl, some, List, [], ◌∷◌, ◌++◌, arith, length,
  replicate, All, All-append, AllBytes, drop, if◌then◌else◌,
}
use falcon_smart_account.Prelude.Int.{pos, negsuc}
use falcon_smart_account.Outcome.{ok, throws, coefficient_out_of_range}
use falcon_smart_account.Falcon.Word.{byte_at, shift_in}
use falcon_smart_account.Falcon.BitStream.{stream}
use falcon_smart_account.Falcon.PublicKey.{decode_pk}
use falcon_smart_account.Falcon.Signature.{decompress_s2}
use falcon_smart_account.Falcon.Checked.{
  decode_falcon_sig, Decoded, decode_falcon_signature, decode_falcon_pk, sig_loop, read_byte, load,
  unary, signed, to_mod_q, mod_q, extract_nonce,
}
use falcon_smart_account.Falcon.Checked.Codec.{encode, parse}
use falcon_smart_account.Falcon.Checked.Reads.{decode_falcon_sig-parse}
use falcon_smart_account.Falcon.Checked.RoundTrip.{IsCodable, pack_bits, decode_falcon_sig-encode}
use falcon_smart_account.Falcon.Checked.Canonical.{decode_falcon_sig-IsCodable}
use falcon_smart_account.Falcon.Checked.Simulation.{decompress_s2-decode_falcon_signature}
use falcon_smart_account.Falcon.Checked.Keys.{all_below, decode_falcon_pk-decode_pk}
use falcon_smart_account.Falcon.LowFirst
use falcon_smart_account.Falcon.LowFirst.Value.{bytes_le, digits_le, decode_pk-bytes_le}
use falcon_smart_account.Falcon.Serial.{
  decode_falcon_sig_ct1, serial_coefficients, read_low, read_high, read_bit_ct1, bit_under, int32,
  abs_val, with_sign,
}
use falcon_smart_account.Falcon.Serial.Differs.{decode_falcon_sig_ct1-ne}

-- 5 and -3
abbrev two_coefficients : List ℕ
two_coefficients = 5 ∷ 193 ∷ 192 ∷ []

two_coefficients-AllBytes : AllBytes two_coefficients
two_coefficients-AllBytes = (omega arith, (omega arith, (omega arith, tt)))

decodes_two : decode_falcon_sig two_coefficients 2 ≡ ok (pos 5 ∷ negsuc 2 ∷ [])
unfolding decode_falcon_sig sig_loop read_byte load unary signed shift_in byte_at
decodes_two = refl

decode_falcon_sig-parse_example :
    decode_falcon_sig two_coefficients 3 ≡ parse 3 (stream two_coefficients)
decode_falcon_sig-parse_example =
    decode_falcon_sig-parse two_coefficients two_coefficients-AllBytes 3

decode_falcon_sig-encode_example :
    decode_falcon_sig (pack_bits (encode (pos 5 ∷ negsuc 2046 ∷ []))) 2
    ≡ ok (pos 5 ∷ negsuc 2046 ∷ [])
decode_falcon_sig-encode_example =
    decode_falcon_sig-encode (pos 5 ∷ negsuc 2046 ∷ []) (omega arith, (omega arith, tt))

decode_falcon_sig-IsCodable_example :
    (rest : List ℕ) × (stream two_coefficients ≡ encode (pos 5 ∷ negsuc 2 ∷ []) ++ rest)
    × (length (pos 5 ∷ negsuc 2 ∷ []) ≡ 2)
    × All IsCodable (pos 5 ∷ negsuc 2 ∷ [])
decode_falcon_sig-IsCodable_example =
    decode_falcon_sig-IsCodable two_coefficients 2 (pos 5 ∷ negsuc 2 ∷ []) two_coefficients-AllBytes
      decodes_two

decode_falcon_pk-decode_pk_example : decode_falcon_pk (replicate 897 255) 512 ≡ (
    if all_below 12289 (decode_pk (replicate 897 255))
    then ok (decode_pk (replicate 897 255))
    else throws coefficient_out_of_range)
decode_falcon_pk-decode_pk_example = decode_falcon_pk-decode_pk (replicate 897 255)

decode_pk-bytes_le_example :
    (length (LowFirst.decode_pk (9 ∷ 1 ∷ 2 ∷ 3 ∷ 4 ∷ []) 2 14) ≡ 2)
    × All (λ (c : ℕ). c < 2 ^ 14) (LowFirst.decode_pk (9 ∷ 1 ∷ 2 ∷ 3 ∷ 4 ∷ []) 2 14)
    × (rest : ℕ) × (bytes_le (9 ∷ 1 ∷ 2 ∷ 3 ∷ 4 ∷ []) 1 4
        ≡ digits_le (2 ^ 14) (LowFirst.decode_pk (9 ∷ 1 ∷ 2 ∷ 3 ∷ 4 ∷ []) 2 14)
          + (2 ^ 14) ^ 2 * rest)
decode_pk-bytes_le_example =
    decode_pk-bytes_le (9 ∷ 1 ∷ 2 ∷ 3 ∷ 4 ∷ []) 2 14 4 (omega arith) (omega arith)

-- Eight coefficients that are 0, as often as asked.
abbrev pub zeros : ℕ → List ℕ
zeros zero = []
zeros (suc n) = 0 ∷ 128 ∷ 64 ∷ 32 ∷ 16 ∷ 8 ∷ 4 ∷ 2 ∷ 1 ∷ zeros n

-- A signature of 1024 of them, of which 512 are read.
abbrev pub zero_signature : List ℕ
zero_signature = replicate 42 0 ++ 57 ∷ zeros 128

abbrev zero_decoded : Decoded
zero_decoded = record {
  s2 = replicate 512 (pos 0);
  nonce = replicate 40 0;
  signed_s2 = replicate 512 (pos 0);
}

accepts_zeros : decode_falcon_signature zero_signature 512 ≡ ok zero_decoded
unfolding decode_falcon_signature decode_falcon_sig sig_loop read_byte load unary signed to_mod_q
    mod_q extract_nonce shift_in byte_at
accepts_zeros = refl

decompress_s2-decode_falcon_signature_example :
    decompress_s2 16 zero_signature ≡ (some zero_decoded.s2, zero_decoded.nonce)
decompress_s2-decode_falcon_signature_example =
    decompress_s2-decode_falcon_signature 16 zero_signature zero_decoded (omega arith) accepts_zeros

decodes_zeros : decode_falcon_sig (drop 43 zero_signature) 512 ≡ ok (pos 0 ∷ replicate 511 (pos 0))
unfolding decode_falcon_sig sig_loop read_byte load unary signed shift_in byte_at
decodes_zeros = refl

-- The decoder with eight low bits reads 2049 from two coefficients that are 0.
ct1_zeros :
    decode_falcon_sig_ct1 10 zero_signature 512 12289 ≡ ok (pos 2049 ∷ replicate 511 (pos 2049))
unfolding decode_falcon_sig_ct1 serial_coefficients read_low read_high read_bit_ct1 bit_under int32
    abs_val with_sign byte_at
ct1_zeros = refl

zeros-AllBytes : (n : ℕ) → AllBytes (zeros n)
zeros-AllBytes zero = tt
zeros-AllBytes (suc n) = ground (arith, zeros-AllBytes n)

repeated-AllBytes : (n b : ℕ) → b < 256 → AllBytes (replicate n b)
repeated-AllBytes zero b h = tt
repeated-AllBytes (suc n) b h = (h, repeated-AllBytes n b h)

zero_signature-AllBytes : AllBytes zero_signature
zero_signature-AllBytes =
    All-append (λ (b : ℕ). b < 256) (replicate 42 0) (57 ∷ zeros 128)
      (repeated-AllBytes 42 0 (omega arith)) (omega arith, zeros-AllBytes 128)

decode_falcon_sig_ct1-ne_example : pos 2049 ≢ mod_q 12289 (pos 0)
decode_falcon_sig_ct1-ne_example =
    decode_falcon_sig_ct1-ne 10 512 zero_signature (pos 0) (pos 2049) (replicate 511 (pos 0))
      (replicate 511 (pos 2049)) zero_signature-AllBytes (omega arith) decodes_zeros ct1_zeros
