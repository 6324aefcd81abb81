-- ===== src/Falcon/Signature.antt =====
-- `decompressS2` of scripts/anvil-falcon-tx.ts: the salt and the 512 coefficients of a compressed
-- signature. Each coefficient is a sign bit, seven low bits and a unary count of 128; `none` means
-- that the fuel of a unary count ran out.
pub mod Endless
use mathlib.Core.Option
use falcon_smart_account.Prelude.{
  ℕ, zero, suc, ◌+◌, ◌-◌, ◌*◌, ◌/◌, ◌%◌, ◌^◌, true, Option, none, some, List, [], ◌∷◌, ltb, leb,
  ◌==◌, take, drop, if◌then◌else◌,
}
use falcon_smart_account.Prelude.Int.{ℤ, pos, negsuc}
use falcon_smart_account.Falcon.Word.{shift_in, shift_right, byte_at}
use falcon_smart_account.Falcon.PublicKey.{Bits, next_byte}

-- `q`
abbrev pub q : ℕ
q = 12289

-- `while (state.accLen < bits) …`, which needs at most `bits` bytes.
unfoldable pub fill_bits : ℕ → ℕ → List ℕ → Bits → Bits
fill_bits zero bits d s = s
fill_bits (suc fuel) bits d s =
    let filled = fill_bits fuel bits d (next_byte d s) in if ltb s.acc_len bits then filled else s

-- `readBits`
unfoldable pub read_bits : ℕ → List ℕ → Bits → ℕ × Bits
read_bits bits d s =
    let s1 = fill_bits bits bits d s in
    (shift_right s1.acc (s1.acc_len - bits) % 2 ^ bits, record s1 { acc_len = s1.acc_len - bits })

-- `readBit`, from a word that is not empty
unfoldable pub take_bit : Bits → ℕ × Bits
take_bit s = (shift_right s.acc (s.acc_len - 1) % 2, record s { acc_len = s.acc_len - 1 })

unfoldable pub read_bit : List ℕ → Bits → ℕ × Bits
read_bit d s = take_bit (if s.acc_len == 0 then record (next_byte d s) { acc_len = 8 } else s)

-- `while (readBit() === 0) m += 128`
unfoldable pub read_unary : ℕ → ℕ → List ℕ → Bits → Option (ℕ × Bits)
read_unary zero m d s = none
read_unary (suc fuel) m d s =
    let rest = read_unary fuel (m + 128) d (read_bit d s).1 in
    if (read_bit d s).0 == 0 then rest else some (m, (read_bit d s).1)

-- `s ? -m : m`, with `q` added to what is negative.
unfoldable pub coefficient : ℕ → ℕ → ℤ
coefficient sign m =
    if (if sign == 0 then true else m == 0)
    then pos m
    else (if leb m q then pos (q - m) else negsuc (m - q - 1))

unfoldable pub coefficients : ℕ → ℕ → List ℕ → Bits → Option (List ℤ)
coefficients fuel zero d s = some []
coefficients fuel (suc n) d s =
    let (b, s1) = read_bits 8 d s in
    elim (read_unary fuel (b % 128) d s1) [
      | none ↦ none
      | some (m, s2) ↦
          Option.map (λ (cs : List ℤ). coefficient (b / 128) m ∷ cs) (coefficients fuel n d s2)
    ]

-- The coefficients, and the bytes 2 to 41.
unfoldable pub decompress_s2 : ℕ → List ℕ → Option (List ℤ) × List ℕ
decompress_s2 fuel sign_msg = (
  coefficients fuel 512 sign_msg (record { acc = 0; acc_len = 0; buf_idx = 43 }),
  take 40 (drop 2 sign_msg),
)
