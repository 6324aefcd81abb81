-- ===== src/Falcon/Checked/RoundTrip.antt =====
-- What `decodeFalconSig` of decode-final.js accepts, against the encoder of the format.
use falcon_smart_account.Prelude.{
  ℕ, zero, suc, ◌+◌, ◌*◌, ◌/◌, ◌%◌, ◌^◌, ◌≤◌, ◌<◌, ◌≡◌, refl, ap, ◌∙◌, List, [], ◌∷◌, ◌++◌,
  append_assoc, arith, length, replicate, All, All-append, AllBytes,
}
use falcon_smart_account.Prelude.Int.{ℤ, pos, negsuc}
use falcon_smart_account.Outcome.{ok}
use falcon_smart_account.Falcon.BitStream.{word_bits, stream}
use falcon_smart_account.Falcon.Checked.{signed, decode_falcon_sig}
use falcon_smart_account.Falcon.Checked.Codec.{
  sign_of, abs_of, encode_coefficient, encode, parse_unary, parse,
}
use falcon_smart_account.Falcon.Checked.Reads.{pop_8-byte, decode_falcon_sig-parse}

abbrev pub AllBits : List ℕ → Type 0
AllBits = All (λ (b : ℕ). b < 2)

-- The values that the format has room for.
abbrev pub IsCodable : ℤ → Type 0
IsCodable c = abs_of c ≤ 2047

parse_unary-replicate :
    (k m : ℕ) (rest : List ℕ)
    → m + 128 * k ≤ 2047
    → parse_unary m (replicate k 0 ++ 1 ∷ rest) ≡ ok (m + 128 * k, rest)
unfolding parse_unary
parse_unary-replicate zero m rest h = ap (λ (t : ℕ). ok (t, rest)) (omega arith)
parse_unary-replicate (suc k) m rest h = ground (arith, parse_unary-replicate k (m + 128) rest)

signed_lem : (c : ℤ) → signed (sign_of c) (abs_of c) ≡ ok c
unfolding signed
signed_lem (pos m) = refl
signed_lem (negsuc m) = ground arith

pub sign_of-lt : (c : ℤ) → sign_of c < 2
sign_of-lt (pos m) = omega arith
sign_of-lt (negsuc m) = omega arith

parse-encode :
    (cs : List ℤ) (rest : List ℕ) → All IsCodable cs → parse (length cs) (encode cs ++ rest) ≡ ok cs
unfolding parse encode encode_coefficient
parse-encode [] rest h = refl
parse-encode (c ∷ cs) rest (small, h) =
    let first = sign_of c * 128 + abs_of c % 128 in
    let behind = encode cs ++ rest in
    let bits : (encode_coefficient c ++ encode cs) ++ rest
        ≡ word_bits 8 first ++ (replicate (abs_of c / 128) 0 ++ 1 ∷ behind) =
      unfold encode_coefficient in
      append_assoc _ (encode cs) rest
      ∙ append_assoc (word_bits 8 first) _ behind
      ∙ ap (λ (xs : List ℕ). word_bits 8 first ++ xs)
          (append_assoc (replicate (abs_of c / 128) 0) (1 ∷ []) behind) in
    let low : first % 2 ^ 8 % 128 ≡ abs_of c % 128 = omega arith in
    let sign : first % 2 ^ 8 / 128 ≡ sign_of c = omega (arith, sign_of-lt c) in
    let value : abs_of c % 128 + 128 * (abs_of c / 128) ≡ abs_of c = omega arith in
    let counted : parse_unary (first % 2 ^ 8 % 128) (replicate (abs_of c / 128) 0 ++ 1 ∷ behind)
        ≡ ok (abs_of c, behind) =
      ap (λ (m : ℕ). parse_unary m (replicate (abs_of c / 128) 0 ++ 1 ∷ behind)) low
      ∙ parse_unary-replicate (abs_of c / 128) (abs_of c % 128) behind (omega arith)
      ∙ ap (λ (m : ℕ). ok (m, behind)) value in
    ap (parse (suc (length cs))) bits
    ∙ rw
        (
          pop_8-byte first (replicate (abs_of c / 128) 0 ++ 1 ∷ behind),
          counted,
          sign,
          signed_lem c,
          parse-encode cs rest h,
        )
        refl

-- Eight bits to a byte, with zeros behind the last.
pub pack_bits : List ℕ → List ℕ
pack_bits (a ∷ b ∷ c ∷ d ∷ e ∷ f ∷ g ∷ h ∷ bits) =
    (a * 128 + b * 64 + c * 32 + d * 16 + e * 8 + f * 4 + g * 2 + h) ∷ pack_bits bits
pack_bits [] = []
pack_bits (a ∷ []) = (a * 128) ∷ []
pack_bits (a ∷ b ∷ []) = (a * 128 + b * 64) ∷ []
pack_bits (a ∷ b ∷ c ∷ []) = (a * 128 + b * 64 + c * 32) ∷ []
pack_bits (a ∷ b ∷ c ∷ d ∷ []) = (a * 128 + b * 64 + c * 32 + d * 16) ∷ []
pack_bits (a ∷ b ∷ c ∷ d ∷ e ∷ []) = (a * 128 + b * 64 + c * 32 + d * 16 + e * 8) ∷ []
pack_bits (a ∷ b ∷ c ∷ d ∷ e ∷ f ∷ []) = (a * 128 + b * 64 + c * 32 + d * 16 + e * 8 + f * 4) ∷ []
pack_bits (a ∷ b ∷ c ∷ d ∷ e ∷ f ∷ g ∷ []) =
    (a * 128 + b * 64 + c * 32 + d * 16 + e * 8 + f * 4 + g * 2) ∷ []

pack_bits-AllBytes : (bits : List ℕ) → AllBits bits → AllBytes (pack_bits bits)
unfolding pack_bits
pack_bits-AllBytes (a ∷ b ∷ c ∷ d ∷ e ∷ f ∷ g ∷ h ∷ bits) p =
    ground (arith, pack_bits-AllBytes bits)
pack_bits-AllBytes [] p = tt
pack_bits-AllBytes (a ∷ []) p = omega arith
pack_bits-AllBytes (a ∷ b ∷ []) p = omega arith
pack_bits-AllBytes (a ∷ b ∷ c ∷ []) p = omega arith
pack_bits-AllBytes (a ∷ b ∷ c ∷ d ∷ []) p = omega arith
pack_bits-AllBytes (a ∷ b ∷ c ∷ d ∷ e ∷ []) p = omega arith
pack_bits-AllBytes (a ∷ b ∷ c ∷ d ∷ e ∷ f ∷ []) p = omega arith
pack_bits-AllBytes (a ∷ b ∷ c ∷ d ∷ e ∷ f ∷ g ∷ []) p = omega arith

stream-pack_bits :
    (bits : List ℕ) → AllBits bits → (rest : List ℕ) × (stream (pack_bits bits) ≡ bits ++ rest)
unfolding pack_bits stream word_bits
stream-pack_bits (a ∷ b ∷ c ∷ d ∷ e ∷ f ∷ g ∷ h ∷ bits) p =
    let (rest, eq) = stream-pack_bits bits p.1.1.1.1.1.1.1.1 in (rest, ground arith)
stream-pack_bits [] p = ([], refl)
stream-pack_bits (a ∷ []) p = (replicate 7 0, ground arith)
stream-pack_bits (a ∷ b ∷ []) p = (replicate 6 0, ground arith)
stream-pack_bits (a ∷ b ∷ c ∷ []) p = (replicate 5 0, ground arith)
stream-pack_bits (a ∷ b ∷ c ∷ d ∷ []) p = (replicate 4 0, ground arith)
stream-pack_bits (a ∷ b ∷ c ∷ d ∷ e ∷ []) p = (replicate 3 0, ground arith)
stream-pack_bits (a ∷ b ∷ c ∷ d ∷ e ∷ f ∷ []) p = (replicate 2 0, ground arith)
stream-pack_bits (a ∷ b ∷ c ∷ d ∷ e ∷ f ∷ g ∷ []) p = (replicate 1 0, ground arith)

pub word_bits-AllBits : (k a : ℕ) → AllBits (word_bits k a)
unfolding word_bits
word_bits-AllBits zero a = tt
word_bits-AllBits (suc k) a = (omega arith, word_bits-AllBits k a)

replicate-AllBits : (k : ℕ) → AllBits (replicate k 0)
replicate-AllBits zero = tt
replicate-AllBits (suc k) = (omega arith, replicate-AllBits k)

encode-AllBits : (cs : List ℤ) → AllBits (encode cs)
unfolding encode encode_coefficient
encode-AllBits [] = tt
encode-AllBits (c ∷ cs) =
    All-append _ (encode_coefficient c) (encode cs)
      (All-append _ (word_bits 8 (sign_of c * 128 + abs_of c % 128)) _ (word_bits-AllBits 8 _) (
        All-append _ (replicate (abs_of c / 128) 0) (1 ∷ []) (replicate-AllBits (abs_of c / 128))
          (omega arith, tt)))
      (encode-AllBits cs)

-- Coefficients of at most 2047 in absolute value, encoded in the compressed format and packed to
-- bytes, are decoded to themselves.
pub decode_falcon_sig-encode :
    (cs : List ℤ) → All IsCodable cs → decode_falcon_sig (pack_bits (encode cs)) (length cs) ≡ ok cs
decode_falcon_sig-encode cs h =
    let (rest, eq) = stream-pack_bits (encode cs) (encode-AllBits cs) in
    decode_falcon_sig-parse (pack_bits (encode cs))
      (pack_bits-AllBytes (encode cs) (encode-AllBits cs)) (length cs)
    ∙ ap (parse (length cs)) eq
    ∙ parse-encode cs rest h
