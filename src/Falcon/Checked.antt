-- ===== src/Falcon/Checked.antt =====
-- decode-final.js: the decoders of Falcon keys and compressed signatures that refuse what is not
-- well formed. `>>>` reads a word without its sign. A loop that runs out of fuel throws
-- `out_of_fuel`, which no error of the source is.
pub mod Behind
pub mod Simulation
pub mod Codec
pub mod Reads
pub mod RoundTrip
pub mod Keys
pub mod Canonical
use falcon_smart_account.Prelude.{
  ℕ, zero, suc, ◌+◌, ◌-◌, ◌*◌, ◌/◌, ◌%◌, ◌^◌, List, [], ◌∷◌, ltb, leb, ◌==◌, length, take, drop,
  map, if◌then◌else◌,
}
use falcon_smart_account.Prelude.Int.{ℤ, pos, negsuc, sub_ℕ, neg}
use falcon_smart_account.Outcome.{
  Outcome, ok, throws, ◌>>=◌, coefficient_out_of_range, unexpected_end, coefficient_too_large,
  minus_zero, out_of_fuel,
}
use falcon_smart_account.Falcon.Word.{shift_in, byte_at}
use falcon_smart_account.Falcon.PublicKey.{Bits, next_byte}

-- `(acc >>> k) & (2 ^ bits - 1)`
abbrev pub field_at : ℕ → ℕ → ℕ → ℕ
field_at acc k bits = acc / 2 ^ k % 2 ^ bits

-- The rest of a round of `decodeFalconPk`: when 14 bits are there, a coefficient is put out, unless
-- it is out of range.
unfoldable pub put_coefficient : ℕ → Outcome (List ℕ) → Outcome (List ℕ)
put_coefficient w rest =
    if leb 12289 w then throws coefficient_out_of_range else (rest >>= λ ws. ok (w ∷ ws))

-- `while (u < n)` of `decodeFalconPk`, with `n` coefficients to go.
unfoldable pub pk_loop : ℕ → ℕ → List ℕ → Bits → Outcome (List ℕ)
unfolding put_coefficient
pk_loop fuel zero d s = ok []
pk_loop zero (suc n) d s = throws out_of_fuel
pk_loop (suc fuel) (suc n) d s =
    let s1 = next_byte d s in
    let more = pk_loop fuel (suc n) d s1 in
    let after = pk_loop fuel n d (record s1 { acc_len = s1.acc_len - 14 }) in
    if leb 14 s1.acc_len then put_coefficient (field_at s1.acc (s1.acc_len - 14) 14) after else more

-- `decodeFalconPk(pkBytes, n)`: a coefficient takes at most two bytes.
unfoldable pub decode_falcon_pk : List ℕ → ℕ → Outcome (List ℕ)
decode_falcon_pk d n = pk_loop (2 * n) n d (record { acc = 0; acc_len = 0; buf_idx = 1 })

-- `if (v >= maxLen) throw …; acc = ((acc << 8) | buf[v++]) >>> 0`
unfoldable pub read_byte : List ℕ → Bits → Outcome Bits
read_byte d s =
    if leb (length d) s.buf_idx
    then throws unexpected_end
    else ok (record s { acc = shift_in s.acc (byte_at d s.buf_idx); buf_idx = suc s.buf_idx })

-- `if (accLen === 0) …`
unfoldable pub load : List ℕ → Bits → Outcome Bits
load d s = if s.acc_len == 0 then (read_byte d s >>= λ s1. ok (record s1 { acc_len = 8 })) else ok s

-- `accLen--; (acc >>> accLen) & 1`
abbrev pub top_bit : Bits → ℕ
top_bit s = field_at s.acc (s.acc_len - 1) 1

abbrev pub drop_bit : Bits → Bits
drop_bit s = record s { acc_len = s.acc_len - 1 }

-- `for (;;) …`: the high bits in unary, and the greatest value 2047.
unfoldable pub unary : ℕ → ℕ → List ℕ → Bits → Outcome (ℕ × Bits)
unary zero m d s = throws out_of_fuel
unary (suc fuel) m d s = load d s >>= λ s1.
    (let rest = unary fuel (m + 128) d (drop_bit s1) in
      if top_bit s1 == 1
      then ok (m, drop_bit s1)
      else (if ltb 2047 (m + 128) then throws coefficient_too_large else rest))

-- `if (s && m === 0) throw …; x[u] = s ? -m : m`
unfoldable pub signed : ℕ → ℕ → Outcome ℤ
signed sign m = if sign == 0 then ok (pos m) else (if m == 0 then throws minus_zero else ok (neg m))

-- `decodeFalconSig(compData, n)`, from a state of the loop. The unary count takes at most 16 rounds.
unfoldable pub sig_loop : ℕ → List ℕ → Bits → Outcome (List ℤ)
sig_loop zero d s = ok []
sig_loop (suc n) d s = do
  s1 ← read_byte d s
  let b = field_at s1.acc s1.acc_len 8
  (m, s2) ← unary 16 (b % 128) d s1
  x ← signed (b / 128) m
  xs ← sig_loop n d s2
  ok (x ∷ xs)

unfoldable pub decode_falcon_sig : List ℕ → ℕ → Outcome (List ℤ)
decode_falcon_sig d n = sig_loop n d (record { acc = 0; acc_len = 0; buf_idx = 0 })

-- `c < 0 ? q + c : c`
unfoldable pub mod_q : ℕ → ℤ → ℤ
mod_q q (pos c) = pos c
mod_q q (negsuc c) = sub_ℕ q (suc c)

-- `toModQ(signedCoeffs, q)`
unfoldable pub to_mod_q : List ℤ → ℕ → List ℤ
to_mod_q cs q = map (mod_q q) cs

-- `extractNonce`
unfoldable pub extract_nonce : List ℕ → List ℕ
extract_nonce sig_bytes = take 40 (drop 2 sig_bytes)

pub record Decoded : Type 0 where
  pub s2 : List ℤ
  pub nonce : List ℕ
  pub signed_s2 : List ℤ

-- `decodeFalconSignature(sigBytes, n)`, with the default modulus.
unfoldable pub decode_falcon_signature : List ℕ → ℕ → Outcome Decoded
decode_falcon_signature sig_bytes n = do
  signed_s2 ← decode_falcon_sig (drop 43 sig_bytes) n
  ok (record {
    s2 = to_mod_q signed_s2 12289;
    nonce = extract_nonce sig_bytes;
    signed_s2 = signed_s2;
  })
