-- ===== src/Falcon/Serial/Begins.antt =====
-- The first two bytes of a compressed signature whose first coefficient is small, by the format that
-- decode-final.js reads.
use falcon_smart_account.Prelude.{
  ℕ, zero, suc, ◌+◌, ◌*◌, ◌/◌, ◌%◌, ◌^◌, ◌<◌, ◌≡◌, ap, List, [], ◌∷◌, ◌++◌, append_assoc, arith,
  drop, AllBytes,
}
use falcon_smart_account.Prelude.Int.{ℤ}
use falcon_smart_account.Falcon.Word.{byte_at}
use falcon_smart_account.Falcon.BitStream.{word_bits, stream}
use falcon_smart_account.Falcon.Checked.Codec.{sign_of, abs_of, encode_coefficient}

pub drop_uncons :
    (k : ℕ) (d : List ℕ) (y : ℕ) (ys : List ℕ)
    → drop (suc k) d ≡ y ∷ ys
    → (h : ℕ) × (drop k d ≡ h ∷ y ∷ ys)
drop_uncons zero [] y ys eq = cc
drop_uncons zero (b ∷ d) y ys eq = (b, ap (λ (t : List ℕ). b ∷ t) eq)
drop_uncons (suc k) [] y ys eq = cc
drop_uncons (suc k) (b ∷ d) y ys eq = drop_uncons k d y ys eq

pub drop-AllBytes : (k : ℕ) (d : List ℕ) → AllBytes d → AllBytes (drop k d)
drop-AllBytes zero d h = h
drop-AllBytes (suc k) [] h = tt
drop-AllBytes (suc k) (b ∷ d) h = drop-AllBytes k d h.1

-- The first two bytes of an accepted signature whose first coefficient has no more than seven bits.
pub record Begins (d : List ℕ) (c : ℤ) : Type 0 where
  pub b2 : ℕ
  pub more : List ℕ
  pub bytes : d ≡ (sign_of c * 128 + abs_of c) ∷ b2 ∷ more
  pub one : b2 / 128 % 2 ≡ 1

pub small_bits :
    (c : ℤ) (behind : List ℕ)
    → abs_of c < 128
    → encode_coefficient c ++ behind ≡ word_bits 8 (sign_of c * 128 + abs_of c) ++ 1 ∷ behind
unfolding encode_coefficient
small_bits c behind h =
    let high : abs_of c / 128 ≡ 0 = omega arith in
    let low : abs_of c % 128 ≡ abs_of c = omega arith in
    rw (high, low) (append_assoc (word_bits 8 (sign_of c * 128 + abs_of c)) (1 ∷ []) behind)

byte-eq :
    (a b : ℕ)
    → a < 256
    → b < 256
    → a / 2 ^ 7 % 2 ≡ b / 2 ^ 7 % 2
    → a / 2 ^ 6 % 2 ≡ b / 2 ^ 6 % 2
    → a / 2 ^ 5 % 2 ≡ b / 2 ^ 5 % 2
    → a / 2 ^ 4 % 2 ≡ b / 2 ^ 4 % 2
    → a / 2 ^ 3 % 2 ≡ b / 2 ^ 3 % 2
    → a / 2 ^ 2 % 2 ≡ b / 2 ^ 2 % 2
    → a / 2 ^ 1 % 2 ≡ b / 2 ^ 1 % 2
    → a / 2 ^ 0 % 2 ≡ b / 2 ^ 0 % 2
    → a ≡ b
byte-eq a b ha hb h7 h6 h5 h4 h3 h2 h1 h0 = omega arith

pub stream-Begins :
    (d : List ℕ) (c : ℤ) (behind : List ℕ)
    → AllBytes d
    → sign_of c < 2
    → abs_of c < 128
    → stream d ≡ word_bits 8 (sign_of c * 128 + abs_of c) ++ 1 ∷ behind
    → Begins d c
unfolding stream word_bits byte_at
stream-Begins [] c behind bytes sign h eq = cc
stream-Begins (b ∷ []) c behind bytes sign h eq = cc
stream-Begins (b ∷ b2 ∷ more) c behind bytes sign h eq =
    let v = sign_of c * 128 + abs_of c in
    let bit : (k : ℕ)
        → byte_at (stream (b ∷ b2 ∷ more)) k ≡ byte_at (word_bits 8 v ++ 1 ∷ behind) k =
      λ k. ap (λ (t : List ℕ). byte_at t k) eq in
    let same : b ≡ v =
      byte-eq b v bytes.0 (omega arith) (bit 0) (bit 1) (bit 2) (bit 3) (bit 4) (bit 5) (bit 6)
        (bit 7) in
    record { b2 = b2; more = more; bytes = ap (λ (t : ℕ). t ∷ b2 ∷ more) same; one = bit 8 }
