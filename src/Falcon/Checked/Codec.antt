-- ===== src/Falcon/Checked/Codec.antt =====
-- The compressed format of a Falcon signature, told on bits and apart from the decoders: a sign, the
-- seven low bits of the value, the rest of the value in unary, and a one.
use falcon_smart_account.Prelude.{
  ℕ, zero, suc, ◌+◌, ◌*◌, ◌/◌, ◌%◌, List, [], ◌∷◌, ◌++◌, ltb, ◌==◌, replicate, if◌then◌else◌,
}
use falcon_smart_account.Prelude.Int.{ℤ, pos, negsuc}
use falcon_smart_account.Outcome.{Outcome, ok, throws, ◌>>=◌, unexpected_end, coefficient_too_large}
use falcon_smart_account.Falcon.BitStream.{word_bits}
use falcon_smart_account.Falcon.Checked.{signed}

-- The sign and the absolute value of a coefficient.
abbrev pub sign_of : ℤ → ℕ
sign_of (pos m) = 0
sign_of (negsuc m) = 1

abbrev pub abs_of : ℤ → ℕ
abs_of (pos m) = m
abs_of (negsuc m) = suc m

unfoldable pub encode_coefficient : ℤ → List ℕ
encode_coefficient c =
    word_bits 8 (sign_of c * 128 + abs_of c % 128) ++ (replicate (abs_of c / 128) 0 ++ 1 ∷ [])

unfoldable pub encode : List ℤ → List ℕ
encode [] = []
encode (c ∷ cs) = encode_coefficient c ++ encode cs

-- Reading the format from bits.
unfoldable pub pop_8 : List ℕ → Outcome (ℕ × List ℕ)
pop_8 (a ∷ b ∷ c ∷ d ∷ e ∷ f ∷ g ∷ h ∷ bits) =
    ok (a * 128 + b * 64 + c * 32 + d * 16 + e * 8 + f * 4 + g * 2 + h, bits)
pop_8 _ = throws unexpected_end

unfoldable pub parse_unary : ℕ → List ℕ → Outcome (ℕ × List ℕ)
parse_unary m [] = throws unexpected_end
parse_unary m (bit ∷ bits) =
    if bit == 1
    then ok (m, bits)
    else (if ltb 2047 (m + 128) then throws coefficient_too_large else parse_unary (m + 128) bits)

unfoldable pub parse : ℕ → List ℕ → Outcome (List ℤ)
parse zero bits = ok []
parse (suc n) bits = do
  (b, bits1) ← pop_8 bits
  (m, bits2) ← parse_unary (b % 128) bits1
  x ← signed (b / 128) m
  xs ← parse n bits2
  ok (x ∷ xs)
