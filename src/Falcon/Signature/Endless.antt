-- ===== src/Falcon/Signature/Endless.antt =====
-- `decompressS2` of scripts/anvil-falcon-tx.ts on a signature whose bytes have run out.
use native.Mathlib.Nat.{zero-div}
use falcon_smart_account.Prelude.{
  ℕ, zero, suc, ◌+◌, ◌-◌, ◌≤◌, ◌≡◌, refl, ap, ◌∙◌, Bool-cases, inl, inr, none, List, [], ◌∷◌, arith,
  length, ◌==◌, ◌^◌, ◌%◌,
}
use falcon_smart_account.Falcon.Word.{shift_in, shift_right, byte_at}
use falcon_smart_account.Falcon.PublicKey.{Bits, next_byte}
use falcon_smart_account.Falcon.Signature.{
  fill_bits, read_bits, take_bit, read_bit, read_unary, coefficients, decompress_s2,
}

byte_at_past : (d : List ℕ) (i : ℕ) → length d ≤ i → byte_at d i ≡ 0
unfolding byte_at
byte_at_past [] i h = refl
byte_at_past (b ∷ bs) zero h = absurd (omega arith)
byte_at_past (b ∷ bs) (suc i) h = byte_at_past bs i (omega arith)

-- No bits are left: the word is zero and every byte was read.
record IsSpent (d : List ℕ) (s : Bits) : Type 0 where
  word : s.acc ≡ 0
  index : length d ≤ s.buf_idx

next_byte-IsSpent : (d : List ℕ) (s : Bits) → IsSpent d s → IsSpent d (next_byte d s)
unfolding next_byte shift_in
next_byte-IsSpent d s h = record {
  word = omega (arith, h.word, byte_at_past d s.buf_idx h.index);
  index = omega (arith, h.index);
}

fill_bits-IsSpent :
    (fuel bits : ℕ) (d : List ℕ) (s : Bits) → IsSpent d s → IsSpent d (fill_bits fuel bits d s)
unfolding fill_bits
fill_bits-IsSpent zero bits d s h = h
fill_bits-IsSpent (suc fuel) bits d s h =
    ground (arith, fill_bits-IsSpent fuel bits d (next_byte d s) (next_byte-IsSpent d s h))

read_bits-IsSpent :
    (bits : ℕ) (d : List ℕ) (s : Bits) → IsSpent d s → IsSpent d (read_bits bits d s).1
unfolding read_bits
read_bits-IsSpent bits d s h =
    let filled = fill_bits-IsSpent bits bits d s h in
    record { word = filled.word; index = filled.index }

shift_right_zero : (k : ℕ) → shift_right 0 k ≡ 0
unfolding shift_right
shift_right_zero k = zero-div (2 ^ k)

take_bit-IsSpent :
    (d : List ℕ) (s : Bits) → IsSpent d s → ((take_bit s).0 ≡ 0) × IsSpent d (take_bit s).1
unfolding take_bit
take_bit-IsSpent d s h = (
  ap (λ (w : ℕ). shift_right w (s.acc_len - 1) % 2) h.word
      ∙ ap (λ (w : ℕ). w % 2) (shift_right_zero (s.acc_len - 1)),
  record { word = h.word; index = h.index },
)

read_bit-IsSpent :
    (d : List ℕ) (s : Bits) → IsSpent d s → ((read_bit d s).0 ≡ 0) × IsSpent d (read_bit d s).1
unfolding read_bit
read_bit-IsSpent d s h = elim (Bool-cases (s.acc_len == 0)) [
  | inl used ↦
      let left = next_byte-IsSpent d s h in
      rw used (
        take_bit-IsSpent d (record (next_byte d s) { acc_len = 8 })
          (record { word = left.word; index = left.index }))
  | inr more ↦ rw more (take_bit-IsSpent d s h)
]

read_unary-none : (fuel m : ℕ) (d : List ℕ) (s : Bits) → IsSpent d s → read_unary fuel m d s ≡ none
unfolding read_unary
read_unary-none zero m d s h = refl
read_unary-none (suc fuel) m d s h =
    let (bit, left) = read_bit-IsSpent d s h in
    rw bit (read_unary-none fuel (m + 128) d (read_bit d s).1 left)

coefficients-none :
    (fuel n : ℕ) (d : List ℕ) (s : Bits) → IsSpent d s → coefficients fuel (suc n) d s ≡ none
unfolding coefficients
coefficients-none fuel n d s h =
    rw
      (
        read_unary-none fuel ((read_bits 8 d s).0 % 128) d (read_bits 8 d s).1
            (read_bits-IsSpent 8 d s h),
        coefficients,
      )
      refl

-- A signature with nothing behind its header and salt is never decompressed: the first unary count
-- does not end, whatever the fuel.
pub decompress_s2-endless :
    (fuel : ℕ) (sign_msg : List ℕ) → length sign_msg ≤ 43 → (decompress_s2 fuel sign_msg).0 ≡ none
unfolding decompress_s2
decompress_s2-endless fuel sign_msg h =
    coefficients-none fuel 511 sign_msg (record { acc = 0; acc_len = 0; buf_idx = 43 })
      (record { word = refl; index = h })
