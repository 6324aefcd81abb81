-- ===== src/Falcon/BitStream.antt =====
-- Bytes as a stream of bits, the most significant first: what the decoders of compressed
-- signatures read. A bit is the number 0 or 1.
use native.Mathlib.Nat.{div-div-eq-div-mul, pow-suc, mul_assoc}
use falcon_smart_account.Prelude.{
  ℕ, zero, suc, ◌+◌, ◌*◌, ◌/◌, ◌%◌, ◌^◌, ◌≤◌, ◌<◌, ◌≡◌, refl, sym, ap, ap₂, ◌∙◌, List, [], ◌∷◌,
  ◌++◌, arith, length, drop,
}
use falcon_smart_account.Falcon.Word.{byte_at, shift_in}

-- The `k` low bits of a number.
unfoldable pub word_bits : ℕ → ℕ → List ℕ
word_bits zero a = []
word_bits (suc k) a = a / 2 ^ k % 2 ∷ word_bits k a

unfoldable pub stream : List ℕ → List ℕ
stream [] = []
stream (b ∷ bs) = word_bits 8 b ++ stream bs

pub pow_add : (j k : ℕ) → 2 ^ (j + k) ≡ 2 ^ k * 2 ^ j
pow_add zero k = let same : 0 + k ≡ k = omega arith in rw same (omega arith)
pow_add (suc j) k =
    let sum : suc j + k ≡ suc (j + k) = omega arith in
    rw sum (
      pow-suc 2 (j + k)
      ∙ omega (
        arith,
        pow_add j k,
        ap (λ (t : ℕ). 2 ^ k * t) (pow-suc 2 j),
        mul_assoc (2 ^ k) (2 ^ j) 2,
      ))

pub word_bits-add : (j k a : ℕ) → word_bits (j + k) a ≡ word_bits j (a / 2 ^ k) ++ word_bits k a
unfolding word_bits
word_bits-add zero k a = let same : 0 + k ≡ k = omega arith in rw same refl
word_bits-add (suc j) k a =
    let sum : suc j + k ≡ suc (j + k) = omega arith in
    rw sum (
      ap₂ (λ (x : ℕ) (xs : List ℕ). x ∷ xs)
        (ap (λ (t : ℕ). t % 2)
          (ap (λ (t : ℕ). a / t) (pow_add j k) ∙ sym (div-div-eq-div-mul a (2 ^ k) (2 ^ j))))
        (word_bits-add j k a))

bit_mask : (k a : ℕ) → k < 8 → a % 2 ^ 24 / 2 ^ k % 2 ≡ a / 2 ^ k % 2
bit_mask zero a h = omega arith
bit_mask (suc zero) a h = omega arith
bit_mask (suc (suc zero)) a h = omega arith
bit_mask (suc (suc (suc zero))) a h = omega arith
bit_mask (suc (suc (suc (suc zero)))) a h = omega arith
bit_mask (suc (suc (suc (suc (suc zero))))) a h = omega arith
bit_mask (suc (suc (suc (suc (suc (suc zero)))))) a h = omega arith
bit_mask (suc (suc (suc (suc (suc (suc (suc zero))))))) a h = omega arith
bit_mask (suc (suc (suc (suc (suc (suc (suc (suc k)))))))) a h = absurd (omega arith)

-- The low bits of a number are those of what a mask of 24 bits leaves.
pub word_bits_mask : (k a : ℕ) → k ≤ 8 → word_bits k (a % 2 ^ 24) ≡ word_bits k a
unfolding word_bits
word_bits_mask zero a h = refl
word_bits_mask (suc k) a h =
    ap₂ (λ (x : ℕ) (xs : List ℕ). x ∷ xs) (bit_mask k a (omega arith))
      (word_bits_mask k a (omega arith))

byte_bits : (w b : ℕ) → b < 256 → w % 256 ≡ b → word_bits 8 w ≡ word_bits 8 b
unfolding word_bits
byte_bits w b lt e = ground arith

-- A byte behind a word: its bits come behind those that the word held.
pub word_bits-shift_in :
    (k acc b : ℕ)
    → k ≤ 8
    → b < 256
    → word_bits 8 (shift_in acc b / 2 ^ k) ++ word_bits k (shift_in acc b)
      ≡ word_bits k acc ++ word_bits 8 b
unfolding shift_in
word_bits-shift_in k acc b le lt =
    let w = acc * 256 % 2 ^ 32 + b in
    let comm : 8 + k ≡ k + 8 = omega arith in
    let upper : w / 2 ^ 8 ≡ acc % 2 ^ 24 = omega arith in
    sym (word_bits-add 8 k w)
    ∙ ap (λ (n : ℕ). word_bits n w) comm
    ∙ word_bits-add k 8 w
    ∙ ap₂ (λ (xs ys : List ℕ). xs ++ ys) (ap (word_bits k) upper ∙ word_bits_mask k acc le)
        (byte_bits w b lt (omega arith))

pub drop-byte_at : (d : List ℕ) (i : ℕ) → i < length d → drop i d ≡ byte_at d i ∷ drop (suc i) d
unfolding byte_at
drop-byte_at [] i h = absurd (omega arith)
drop-byte_at (b ∷ bs) zero h = refl
drop-byte_at (b ∷ bs) (suc i) h = drop-byte_at bs i (omega arith)

pub drop_past : (d : List ℕ) (i : ℕ) → length d ≤ i → drop i d ≡ []
drop_past [] zero h = refl
drop_past [] (suc i) h = refl
drop_past (b ∷ bs) zero h = absurd (omega arith)
drop_past (b ∷ bs) (suc i) h = drop_past bs i (omega arith)
