-- ===== src/Falcon/LowFirst/Value.antt =====
-- The coefficients that the readers of decode-falcon.js and investigate.js find are the bits of the
-- key's bytes from the low ones up.
use native.Mathlib.Nat.{
  pow-suc, mul_assoc, mod-add-div, mod-lt, mul-add, mul_comm, mul-suc, pow-zero,
}
use falcon_smart_account.Prelude.{
  ℕ, zero, suc, ◌+◌, ◌-◌, ◌*◌, ◌/◌, ◌%◌, ◌^◌, ◌≤◌, ◌<◌, ◌≡◌, refl, sym, ap, ◌∙◌, inl, inr, List, [],
  ◌∷◌, arith, ltb, length, All, Bool-cases,
}
use falcon_smart_account.Falcon.Word.{byte_at}
use falcon_smart_account.Falcon.BitStream.{pow_add}
use falcon_smart_account.Falcon.PublicKey.Value.{pow_8}
use falcon_smart_account.Falcon.LowFirst.{Buffer, add_byte, fill, low_first, decode_pk}

-- The number of `k` bytes from an index on, the least significant first.
pub bytes_le : List ℕ → ℕ → ℕ → ℕ
bytes_le d i zero = 0
bytes_le d i (suc k) = byte_at d i + 256 * bytes_le d (suc i) k

-- The number of digits below `p`, the least significant first.
pub digits_le : ℕ → List ℕ → ℕ
digits_le p [] = 0
digits_le p (c ∷ cs) = c + p * digits_le p cs

product : (x b p more : ℕ) → x + b * p + 256 * p * more ≡ x + p * (b + 256 * more)
product x b p more = omega (
  arith,
  mul_assoc 256 p more,
  mul-add p b (256 * more),
  mul_comm p b,
  mul_comm p (256 * more),
  mul_assoc 256 more p,
  mul_comm more p,
)

pos_pow : (k : ℕ) → 0 < 2 ^ k
pos_pow zero = omega arith
pos_pow (suc k) = omega (arith, pos_pow k, pow-suc 2 k)

with_digit :
    (c p whole digits n rest : ℕ)
    → whole ≡ digits + p ^ n * rest
    → c + p * whole ≡ c + p * digits + p ^ suc n * rest
with_digit c p whole digits n rest eq =
    let power : p ^ suc n * rest ≡ p * (p ^ n * rest) =
      ap (λ (t : ℕ). t * rest) (pow-suc p n ∙ mul_comm (p ^ n) p) ∙ mul_assoc p (p ^ n) rest in
    ap (λ (t : ℕ). c + p * t) eq ∙ omega (arith, mul-add p digits (p ^ n * rest), power)

module _ (d : List ℕ) where
  -- What the buffer and `k` bytes more stand for.
  total : Buffer → ℕ → ℕ
  total s k = s.bit_buf + 2 ^ s.bit_count * bytes_le d s.byte_idx k

  add_byte-total : (s : Buffer) (k : ℕ) → total (add_byte d s) k ≡ total s (suc k)
  unfolding total add_byte bytes_le
  add_byte-total s k =
      let p = 2 ^ s.bit_count in
      let b = byte_at d s.byte_idx in
      let more = bytes_le d (suc s.byte_idx) k in
      ap (λ (t : ℕ). s.bit_buf + b * p + t * more) (pow_8 s.bit_count) ∙ product s.bit_buf b p more

  add_byte-count : (s : Buffer) → (add_byte d s).bit_count ≡ s.bit_count + 8
  unfolding add_byte
  add_byte-count s = refl

  add_byte_room :
      (k : ℕ) (s : Buffer) (logq : ℕ)
      → logq ≤ s.bit_count + 8 * suc k
      → logq ≤ (add_byte d s).bit_count + 8 * k
  add_byte_room k s logq h = omega (arith, add_byte-count s)

  fill-total :
      (fuel logq : ℕ) (s : Buffer) (k : ℕ)
      → logq ≤ s.bit_count + 8 * fuel
      → logq ≤ s.bit_count + 8 * k
      → (k' : ℕ) × (total (fill fuel logq d s) k' ≡ total s k)
        × (logq ≤ (fill fuel logq d s).bit_count)
        × ((fill fuel logq d s).bit_count + 8 * k' ≡ s.bit_count + 8 * k)
  unfolding fill
  fill-total zero logq s k enough there = (k, refl, omega arith, refl)
  fill-total (suc fuel) logq s zero enough there = elim (Bool-cases (ltb s.bit_count logq)) [
    | inl short ↦ absurd (ground arith)
    | inr full ↦ rw full (0, refl, omega arith, refl)
  ]
  fill-total (suc fuel) logq s (suc k) enough there = elim (Bool-cases (ltb s.bit_count logq)) [
    | inl short ↦
        let (k', same, ge, count) =
          fill-total fuel logq (add_byte d s) k (add_byte_room fuel s logq enough)
            (add_byte_room k s logq there) in
        rw short (k', same ∙ add_byte-total s k, ge, count ∙ omega (arith, add_byte-count s))
    | inr full ↦ rw full (suc k, refl, ground arith, refl)
  ]

  next_digit :
      (logq : ℕ) (s : Buffer) (k : ℕ)
      → logq ≤ s.bit_count
      → total s k
        ≡ s.bit_buf % 2 ^ logq
          + 2 ^ logq
            * total (record s { bit_buf = s.bit_buf / 2 ^ logq; bit_count = s.bit_count - logq }) k
  unfolding total
  next_digit logq s k le =
      let p = 2 ^ logq in
      let r = 2 ^ (s.bit_count - logq) in
      let more = bytes_le d s.byte_idx k in
      let count : s.bit_count - logq + logq ≡ s.bit_count = omega arith in
      let split : 2 ^ s.bit_count ≡ p * r =
        ap (λ (t : ℕ). 2 ^ t) (sym count) ∙ pow_add (s.bit_count - logq) logq in
      ap (λ (t : ℕ). s.bit_buf + t * more) split
      ∙ omega
          (arith, mul_assoc p r more, mul-add p (s.bit_buf / p) (r * more), mod-add-div s.bit_buf p)

  low_first-total :
      (n logq : ℕ) (s : Buffer) (k : ℕ)
      → logq * n ≤ s.bit_count + 8 * k
      → (rest : ℕ) × (total s k
          ≡ digits_le (2 ^ logq) (low_first n logq d s) + (2 ^ logq) ^ n * rest)
  unfolding low_first digits_le
  low_first-total zero logq s k enough =
      (total s k, omega (arith, ap (λ (t : ℕ). t * total s k) (pow-zero (2 ^ logq))))
  low_first-total (suc n) logq s k enough =
      let (k', same, ge, count) =
        fill-total logq logq s k (omega arith) (omega (arith, mul-suc logq n)) in
      let s1 = fill logq logq d s in
      let s2 : Buffer = record s1 {
        bit_buf = s1.bit_buf / 2 ^ logq;
        bit_count = s1.bit_count - logq;
      } in
      let (rest, eq) = low_first-total n logq s2 k' (omega (arith, mul-suc logq n, ge, count)) in
      (
        rest,
        sym same
            ∙ next_digit logq s1 k' ge
            ∙ with_digit (s1.bit_buf % 2 ^ logq) (2 ^ logq) _ _ n rest eq,
      )

  whole : (k : ℕ) → total (record { bit_buf = 0; bit_count = 0; byte_idx = 1 }) k ≡ bytes_le d 1 k
  unfolding total
  whole k = omega arith

  length-low_first : (n logq : ℕ) (s : Buffer) → length (low_first n logq d s) ≡ n
  unfolding low_first
  length-low_first zero logq s = refl
  length-low_first (suc n) logq s = ap suc (length-low_first n logq _)

  low_first-lt : (n logq : ℕ) (s : Buffer) → All (λ (c : ℕ). c < 2 ^ logq) (low_first n logq d s)
  unfolding low_first
  low_first-lt zero logq s = tt
  low_first-lt (suc n) logq s = (mod-lt _ (pos_pow logq), low_first-lt n logq _)

  -- For up to 24 bits to a coefficient, the `n` coefficients have `logq` bits each, and when the `k`
  -- bytes behind the header byte have enough bits for them, they are the low digits of those bytes'
  -- number, its first byte the least significant.
  pub decode_pk-bytes_le :
      (n logq k : ℕ)
      → logq ≤ 24
      → logq * n ≤ 8 * k
      → (length (decode_pk d n logq) ≡ n)
        × All (λ (c : ℕ). c < 2 ^ logq) (decode_pk d n logq)
        × (rest : ℕ) × (bytes_le d 1 k
            ≡ digits_le (2 ^ logq) (decode_pk d n logq) + (2 ^ logq) ^ n * rest)
  unfolding decode_pk
  decode_pk-bytes_le n logq k in_word enough =
      let start : Buffer = record { bit_buf = 0; bit_count = 0; byte_idx = 1 } in
      let (rest, eq) = low_first-total n logq start k (omega arith) in
      (length-low_first n logq start, low_first-lt n logq start, rest, sym (whole k) ∙ eq)
