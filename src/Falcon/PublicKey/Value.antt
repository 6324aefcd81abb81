-- ===== src/Falcon/PublicKey/Value.antt =====
-- The coefficients that `decodePk` (scripts/anvil-falcon-tx.ts) finds are the bits of its bytes.
use native.Mathlib.Nat.{div-div-eq-div-mul, pow-suc, div-add-mod', div-one}
use native.Mathlib.Numerals.{towards_suc}
use falcon_smart_account.Prelude.{
  length, All, ℕ, zero, suc, ◌+◌, ◌-◌, ◌*◌, ◌/◌, ◌%◌, ◌^◌, ◌≤◌, ◌<◌, ◌≡◌, refl, sym, ap, ◌∙◌, List,
  [], ◌∷◌, ltb, arith, AllBytes, Bool-cases, inl, inr,
}
use falcon_smart_account.Falcon.Word.{shift_in, shift_right, shift_right-word, byte_at, byte_at-lt}
use falcon_smart_account.Falcon.PublicKey.{Bits, next_byte, refill, decode, decode_pk}

-- The number of the `n` bytes from index 1 on.
pub bytes_number : List ℕ → ℕ → ℕ
bytes_number d zero = 0
bytes_number d (suc n) = bytes_number d n * 256 + byte_at d (suc n)

-- The number that 14-bit coefficients stand for, the most significant first, behind `acc`.
pub coefficients_number : ℕ → List ℕ → ℕ
coefficients_number acc [] = acc
coefficients_number acc (c ∷ cs) = coefficients_number (acc * 2 ^ 14 + c) cs

-- After `i` bytes the word has their number, and what is above `accLen` was put out.
record Inv (d : List ℕ) (i out : ℕ) (s : Bits) : Type 0 where
  index : s.buf_idx ≡ suc i
  word : s.acc ≡ bytes_number d i % 2 ^ 32
  above : bytes_number d i / 2 ^ s.acc_len ≡ out

pub pow_8 : (k : ℕ) → 2 ^ (k + 8) ≡ 256 * 2 ^ k
pow_8 k = simp towards_suc (omega (arith, pow-suc 2 k))

pow_6 : (k : ℕ) → 2 ^ (k + 6) ≡ 64 * 2 ^ k
pow_6 k = simp towards_suc (omega (arith, pow-suc 2 k))

pow_14 : (k : ℕ) → 2 ^ (k + 14) ≡ 2 ^ k * 2 ^ 14
pow_14 k =
    let sum : k + 14 ≡ k + 6 + 8 = omega arith in
    let outer : 2 ^ (k + 14) ≡ 256 * 2 ^ (k + 6) = ap (λ (t : ℕ). 2 ^ t) sum ∙ pow_8 (k + 6) in
    omega (arith, outer, pow_6 k)

shift_8 : (v b k : ℕ) → b < 256 → (v * 256 + b) / 2 ^ (k + 8) ≡ v / 2 ^ k
shift_8 v b k h =
    ap (λ (t : ℕ). (v * 256 + b) / t) (pow_8 k)
    ∙ sym (div-div-eq-div-mul (v * 256 + b) 256 (2 ^ k))
    ∙ ap (λ (t : ℕ). t / 2 ^ k) (omega arith)

-- Fourteen bits more of a number, behind those above them.
split_14 : (v k : ℕ) → v / 2 ^ k ≡ v / 2 ^ (k + 14) * 2 ^ 14 + v / 2 ^ k % 2 ^ 14
split_14 v k = sym (
    ap (λ (t : ℕ). t * 2 ^ 14 + v / 2 ^ k % 2 ^ 14)
      (ap (λ (t : ℕ). v / t) (pow_14 k) ∙ sym (div-div-eq-div-mul v (2 ^ k) (2 ^ 14)))
    ∙ div-add-mod' (v / 2 ^ k) (2 ^ 14))

put_out :
    {d : List ℕ} (i out : ℕ) (s : Bits)
    → Inv d i out s
    → 14 ≤ s.acc_len
    → s.acc_len < 22
    → bytes_number d i / 2 ^ (s.acc_len - 14)
      ≡ out * 2 ^ 14 + shift_right s.acc (s.acc_len - 14) % 2 ^ 14
put_out {d} i out s h ge lt =
    let v = bytes_number d i in
    let k = s.acc_len - 14 in
    let full : k + 14 ≡ s.acc_len = omega (arith, ge) in
    let upper : v / 2 ^ (k + 14) ≡ out = ap (λ (t : ℕ). v / 2 ^ t) full ∙ h.above in
    let lower : shift_right s.acc k % 2 ^ 14 ≡ v / 2 ^ k % 2 ^ 14 =
      ap (λ (t : ℕ). shift_right t k % 2 ^ 14) h.word ∙ shift_right-word v k (omega arith) in
    split_14 v k
    ∙ ap (λ (t : ℕ). t * 2 ^ 14 + v / 2 ^ k % 2 ^ 14) upper
    ∙ ap (λ (t : ℕ). out * 2 ^ 14 + t) (sym lower)

module _ (d : List ℕ) (bytes : AllBytes d) where
  next_byte-Inv : (i out : ℕ) (s : Bits) → Inv d i out s → Inv d (suc i) out (next_byte d s)
  unfolding next_byte shift_in bytes_number
  next_byte-Inv i out s h = record {
    index = ap suc h.index;
    word = omega (arith, h.word, ap (byte_at d) h.index, byte_at-lt d (suc i) bytes);
    above =
        shift_8 (bytes_number d i) (byte_at d (suc i)) s.acc_len (byte_at-lt d (suc i) bytes)
        ∙ h.above;
  }

  refill_lem :
      (fuel i out : ℕ) (s : Bits)
      → Inv d i out s
      → s.acc_len < 22
      → 14 ≤ s.acc_len + 8 * fuel
      → (i' : ℕ) × Inv d i' out (refill fuel d s)
        × (8 * i' + s.acc_len ≡ 8 * i + (refill fuel d s).acc_len)
        × (14 ≤ (refill fuel d s).acc_len)
        × ((refill fuel d s).acc_len < 22)
  unfolding refill next_byte
  refill_lem zero i out s h lt enough = (i, h, omega arith, omega arith, lt)
  refill_lem (suc fuel) i out s h lt enough = elim (Bool-cases (ltb s.acc_len 14)) [
    | inl short ↦
        let (i', h', eq, ge, lt') =
          refill_lem fuel (suc i) out (next_byte d s) (next_byte-Inv i out s h) (ground arith)
            (omega arith) in
        rw short (i', h', omega (arith, eq), ge, lt')
    | inr full ↦ rw full (i, h, refl, ground arith, lt)
  ]

  -- Decoding on from a state that has put out `out` puts out the bits of the bytes read.
  decode_lem :
      (n i out : ℕ) (s : Bits)
      → Inv d i out s
      → s.acc_len < 8
      → (i' : ℕ) × (rest : ℕ) × (coefficients_number out (decode n d s)
          ≡ bytes_number d i' / 2 ^ rest)
        × (8 * i' + s.acc_len ≡ 8 * i + 14 * n + rest)
        × (rest < 8)
  unfolding decode coefficients_number
  decode_lem zero i out s h lt = (i, s.acc_len, sym h.above, omega arith, lt)
  decode_lem (suc n) i out s h lt =
      let (i1, h1, eq1, ge, lt1) = refill_lem 2 i out s h (omega arith) (omega arith) in
      let s1 : Bits = refill 2 d s in
      let step = put_out i1 out s1 h1 ge lt1 in
      let (i', rest, value, eq2, small) =
        decode_lem n i1 (out * 2 ^ 14 + shift_right s1.acc (s1.acc_len - 14) % 2 ^ 14)
          (record s1 { acc_len = s1.acc_len - 14 })
          (record { index = h1.index; word = h1.word; above = step }) (omega arith) in
      (i', rest, value, omega (arith, eq1, eq2, ge), small)

  start-Inv : Inv d 0 0 (record { acc = 0; acc_len = 0; buf_idx = 1 })
  unfolding bytes_number
  start-Inv = record { index = refl; word = refl; above = refl }

  read_all :
      (i rest : ℕ)
      → 8 * i + 0 ≡ 8 * 0 + 14 * 512 + rest
      → rest < 8
      → bytes_number d i / 2 ^ rest ≡ bytes_number d 896
  read_all i rest eq small =
      let none_left : rest ≡ 0 = omega arith in
      let all : i ≡ 896 = omega arith in
      ap (λ (t : ℕ). bytes_number d i / 2 ^ t) none_left
      ∙ div-one (bytes_number d i)
      ∙ ap (bytes_number d) all

  length-decode : (n : ℕ) (s : Bits) → length (decode n d s) ≡ n
  unfolding decode
  length-decode zero s = refl
  length-decode (suc n) s = ap suc (length-decode n _)

  decode-lt : (n : ℕ) (s : Bits) → All (λ (c : ℕ). c < 2 ^ 14) (decode n d s)
  unfolding decode
  decode-lt zero s = tt
  decode-lt (suc n) s = (omega arith, decode-lt n _)

  -- For bytes below 256, there are 512 coefficients below 2 ^ 14, which stand for the number of
  -- the 896 bytes behind the header: they are those bytes' bits, fourteen at a time.
  pub decode_pk-value :
      (length (decode_pk d) ≡ 512)
      × All (λ (c : ℕ). c < 2 ^ 14) (decode_pk d)
      × (coefficients_number 0 (decode_pk d) ≡ bytes_number d 896)
  unfolding decode_pk
  decode_pk-value =
      let (i, rest, value, eq, small) =
        decode_lem 512 0 0 (record { acc = 0; acc_len = 0; buf_idx = 1 }) start-Inv (omega arith) in
      (
        length-decode 512 (record { acc = 0; acc_len = 0; buf_idx = 1 }),
        decode-lt 512 (record { acc = 0; acc_len = 0; buf_idx = 1 }),
        value ∙ read_all i rest eq small,
      )
