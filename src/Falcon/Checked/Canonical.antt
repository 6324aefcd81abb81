-- ===== src/Falcon/Checked/Canonical.antt =====
-- What `decodeFalconSig` of decode-final.js accepts is an encoding of what it gives.
use falcon_smart_account.Prelude.{
  ℕ, zero, suc, ◌+◌, ◌*◌, ◌/◌, ◌%◌, ◌≤◌, ◌<◌, ◌≡◌, refl, sym, ap, ◌∙◌, inl, inr, List, [], ◌∷◌,
  ◌++◌, append_assoc, arith, length, replicate, All, All-append, AllBytes, ltb, Bool-cases,
}
use falcon_smart_account.Prelude.Int.{ℤ, negsuc}
use falcon_smart_account.Outcome.{ok, >>=-eq-ok, ok-injective}
use falcon_smart_account.Falcon.BitStream.{word_bits, stream}
use falcon_smart_account.Falcon.Checked.{signed, decode_falcon_sig}
use falcon_smart_account.Falcon.Checked.Codec.{
  sign_of, abs_of, encode_coefficient, encode, pop_8, parse_unary, parse,
}
use falcon_smart_account.Falcon.Checked.Reads.{decode_falcon_sig-parse}
use falcon_smart_account.Falcon.Checked.RoundTrip.{AllBits, IsCodable, word_bits-AllBits}

-- Eight bits that are popped are those of the byte.
pop_8-ok :
    (bits : List ℕ) (v : ℕ) (rest : List ℕ)
    → AllBits bits
    → pop_8 bits ≡ ok (v, rest)
    → (bits ≡ word_bits 8 v ++ rest) × (v < 256) × AllBits rest
unfolding pop_8 word_bits
pop_8-ok (a ∷ b ∷ c ∷ d ∷ e ∷ f ∷ g ∷ h ∷ bits) v rest p eq =
    let same = ok-injective eq in
    let value = ap (λ (r : ℕ × List ℕ). r.0) (sym same) in
    let left = ap (λ (r : ℕ × List ℕ). r.1) (sym same) in
    rw (value, left) (ground arith, omega arith, p.1.1.1.1.1.1.1.1)
pop_8-ok [] v rest p eq = cc
pop_8-ok (a ∷ []) v rest p eq = cc
pop_8-ok (a ∷ b ∷ []) v rest p eq = cc
pop_8-ok (a ∷ b ∷ c ∷ []) v rest p eq = cc
pop_8-ok (a ∷ b ∷ c ∷ d ∷ []) v rest p eq = cc
pop_8-ok (a ∷ b ∷ c ∷ d ∷ e ∷ []) v rest p eq = cc
pop_8-ok (a ∷ b ∷ c ∷ d ∷ e ∷ f ∷ []) v rest p eq = cc
pop_8-ok (a ∷ b ∷ c ∷ d ∷ e ∷ f ∷ g ∷ []) v rest p eq = cc

parse_unary-ok :
    (bits : List ℕ) (m m' : ℕ) (rest : List ℕ)
    → AllBits bits
    → m ≤ 2047
    → parse_unary m bits ≡ ok (m', rest)
    → (k : ℕ) × (bits ≡ replicate k 0 ++ 1 ∷ rest) × (m' ≡ m + 128 * k) × (m' ≤ 2047) × AllBits rest
unfolding parse_unary
parse_unary-ok [] m m' rest p small h = cc
parse_unary-ok (zero ∷ bits) m m' rest p small h = elim (Bool-cases (ltb 2047 (m + 128))) [
  | inl large ↦ cc
  | inr fits ↦
      let (k, eq, sum, le, q) =
        parse_unary-ok bits (m + 128) m' rest p.1 (ground arith) (sym (rw fits refl) ∙ h) in
      (suc k, ap (λ (xs : List ℕ). 0 ∷ xs) eq, omega (arith, sum), le, q)
]
parse_unary-ok (suc zero ∷ bits) m m' rest p small h =
    let same = ok-injective h in
    (
      0,
      ap (λ (r : ℕ × List ℕ). 1 ∷ r.1) same,
      ap (λ (r : ℕ × List ℕ). r.0) (sym same) ∙ omega arith,
      omega (arith, ap (λ (r : ℕ × List ℕ). r.0) same),
      rw (ap (λ (r : ℕ × List ℕ). r.1) (sym same)) p.1,
    )
parse_unary-ok (suc (suc b) ∷ bits) m m' rest p small h = absurd (omega (arith, p.0))

signed-ok :
    (sign m : ℕ) (c : ℤ) → sign < 2 → signed sign m ≡ ok c → (sign_of c ≡ sign) × (abs_of c ≡ m)
unfolding signed
signed-ok zero m c lt h = (ap sign_of (sym (ok-injective h)), ap abs_of (sym (ok-injective h)))
signed-ok (suc zero) zero c lt h = ground arith
signed-ok (suc zero) (suc m) c lt h =
    let negative : signed 1 (suc m) ≡ ok (negsuc m) = ground arith in
    let same = ok-injective (sym h ∙ negative) in (ap sign_of same, ap abs_of same)
signed-ok (suc (suc sign)) m c lt h = absurd (omega arith)

encode_coefficient-eq :
    (v k m : ℕ) (c : ℤ)
    → v < 256
    → m ≡ v % 128 + 128 * k
    → (sign_of c ≡ v / 128) × (abs_of c ≡ m)
    → encode_coefficient c ≡ word_bits 8 v ++ (replicate k 0 ++ 1 ∷ [])
unfolding encode_coefficient
encode_coefficient-eq v k m c lt sum (sign, value) =
    let first : sign_of c * 128 + abs_of c % 128 ≡ v = omega (arith, sum, sign, value) in
    let count : abs_of c / 128 ≡ k = omega (arith, sum, value) in rw (first, count) refl

parts_together :
    (bits bits1 bits2 more rest first zeros : List ℕ) (c : ℤ)
    → encode_coefficient c ≡ first ++ (zeros ++ 1 ∷ [])
    → bits ≡ first ++ bits1
    → bits1 ≡ zeros ++ 1 ∷ bits2
    → bits2 ≡ more ++ rest
    → bits ≡ (encode_coefficient c ++ more) ++ rest
parts_together bits bits1 bits2 more rest first zeros c encoded whole unary eq =
    rw (whole, unary, eq, encoded)
      (sym (
        append_assoc (first ++ (zeros ++ 1 ∷ [])) more rest
        ∙ append_assoc first (zeros ++ 1 ∷ []) (more ++ rest)
        ∙ ap (λ (xs : List ℕ). first ++ xs) (append_assoc zeros (1 ∷ []) (more ++ rest))))

stream-AllBits : (d : List ℕ) → AllBits (stream d)
unfolding stream
stream-AllBits [] = tt
stream-AllBits (b ∷ d) =
    All-append _ (word_bits 8 b) (stream d) (word_bits-AllBits 8 b) (stream-AllBits d)

parse-ok :
    (n : ℕ) (bits : List ℕ) (cs : List ℤ)
    → AllBits bits
    → parse n bits ≡ ok cs
    → (rest : List ℕ) × (bits ≡ encode cs ++ rest) × (length cs ≡ n) × All IsCodable cs
unfolding parse encode
parse-ok zero bits cs p h = rw (sym (ok-injective h)) (bits, refl, refl, tt)
parse-ok (suc n) bits cs p h =
    let ((v, bits1), popped, h1) = >>=-eq-ok (pop_8 bits) _ h in
    let (whole, lt, p1) = pop_8-ok bits v bits1 p popped in
    let ((m, bits2), counted, h2) = >>=-eq-ok (parse_unary (v % 128) bits1) _ h1 in
    let (k, unary, sum, small, p2) =
      parse_unary-ok bits1 (v % 128) m bits2 p1 (omega arith) counted in
    let (c, is_signed, h3) = >>=-eq-ok (signed (v / 128) m) _ h2 in
    let parts = signed-ok (v / 128) m c (omega (arith, lt)) is_signed in
    let (cs', parsed, h4) = >>=-eq-ok (parse n bits2) _ h3 in
    let (rest, eq, count, codable) = parse-ok n bits2 cs' p2 parsed in
    rw (sym (ok-injective h4)) (
      rest,
      parts_together bits bits1 bits2 (encode cs') rest (word_bits 8 v) (replicate k 0) c
          (encode_coefficient-eq v k m c lt sum parts) whole unary eq,
      ap suc count,
      (omega (arith, parts.1, small), codable),
    )

-- Bytes that are accepted begin with the encoding of what is given, as many coefficients as were
-- asked for, of at most 2047 in absolute value.
pub decode_falcon_sig-IsCodable :
    (d : List ℕ) (n : ℕ) (cs : List ℤ)
    → AllBytes d
    → decode_falcon_sig d n ≡ ok cs
    → (rest : List ℕ) × (stream d ≡ encode cs ++ rest) × (length cs ≡ n) × All IsCodable cs
decode_falcon_sig-IsCodable d n cs bytes h =
    parse-ok n (stream d) cs (stream-AllBits d) (sym (decode_falcon_sig-parse d bytes n) ∙ h)
