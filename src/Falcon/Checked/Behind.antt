-- ===== src/Falcon/Checked/Behind.antt =====
-- The reads of `decodeFalconSig` (decode-final.js) and of `decompressS2` (scripts/anvil-falcon-tx.ts)
-- side by side: the latter's index is 43 more, for the bytes before the compressed part.
use falcon_smart_account.Prelude.{
  ℕ, zero, suc, ◌+◌, ◌-◌, ◌/◌, ◌%◌, ◌^◌, ◌≤◌, ◌<◌, ◌≡◌, refl, sym, ap, ◌∙◌, inl, inr, true, false,
  some, List, [], ◌∷◌, arith, length, drop, leb, ◌==◌, Bool-cases, lt→ltb, not-lt→ltb,
}
use falcon_smart_account.Prelude.Int.{ℤ, negsuc}
use falcon_smart_account.Outcome.{ok, ◌>>=◌, >>=-eq-ok, ok-injective}
use falcon_smart_account.Falcon.Word.{shift_in, shift_right, byte_at}
use falcon_smart_account.Falcon.PublicKey.{Bits, next_byte}
use falcon_smart_account.Falcon.Signature.{
  fill_bits, read_bits, take_bit, read_bit, read_unary, coefficient, coefficients,
}
use falcon_smart_account.Falcon.Checked.{
  field_at, read_byte, load, top_bit, drop_bit, signed, mod_q,
}

-- `i + k`, by steps.
unfoldable pub past : ℕ → ℕ → ℕ
past zero i = i
past (suc k) i = suc (past k i)

byte_at-drop : (k i : ℕ) (d : List ℕ) → byte_at (drop k d) i ≡ byte_at d (past k i)
unfolding byte_at past
byte_at-drop zero i d = refl
byte_at-drop (suc k) i [] = refl
byte_at-drop (suc k) i (b ∷ d) = byte_at-drop k i d

shift_right-bit : (a k : ℕ) → k < 8 → shift_right a k % 2 ≡ field_at a k 1
unfolding shift_right
shift_right-bit a zero h = ground arith
shift_right-bit a (suc zero) h = ground arith
shift_right-bit a (suc (suc zero)) h = ground arith
shift_right-bit a (suc (suc (suc zero))) h = ground arith
shift_right-bit a (suc (suc (suc (suc zero)))) h = ground arith
shift_right-bit a (suc (suc (suc (suc (suc zero))))) h = ground arith
shift_right-bit a (suc (suc (suc (suc (suc (suc zero)))))) h = ground arith
shift_right-bit a (suc (suc (suc (suc (suc (suc (suc zero))))))) h = ground arith
shift_right-bit a (suc (suc (suc (suc (suc (suc (suc (suc k)))))))) h = absurd (omega arith)

shift_right-byte : (a k : ℕ) → k < 8 → shift_right a k % 2 ^ 8 ≡ field_at a k 8
unfolding shift_right
shift_right-byte a zero h = ground arith
shift_right-byte a (suc zero) h = ground arith
shift_right-byte a (suc (suc zero)) h = ground arith
shift_right-byte a (suc (suc (suc zero))) h = ground arith
shift_right-byte a (suc (suc (suc (suc zero)))) h = ground arith
shift_right-byte a (suc (suc (suc (suc (suc zero))))) h = ground arith
shift_right-byte a (suc (suc (suc (suc (suc (suc zero)))))) h = ground arith
shift_right-byte a (suc (suc (suc (suc (suc (suc (suc zero))))))) h = ground arith
shift_right-byte a (suc (suc (suc (suc (suc (suc (suc (suc k)))))))) h = absurd (omega arith)

signed_neg : (sign m : ℕ) → signed (suc sign) (suc m) ≡ ok (negsuc m)
unfolding signed
signed_neg sign m = ground arith

coefficient_neg : (sign m : ℕ) → coefficient (suc sign) (suc m) ≡ mod_q 12289 (negsuc m)
unfolding coefficient mod_q
coefficient_neg sign m = ground arith

-- A signed coefficient that is accepted is the other decoder's, modulo q.
pub coefficient-signed :
    (sign m : ℕ) (c : ℤ) → signed sign m ≡ ok c → coefficient sign m ≡ mod_q 12289 c
unfolding signed coefficient mod_q
coefficient-signed zero m c h = ap (mod_q 12289) (ok-injective h)
coefficient-signed (suc sign) zero c h = ground arith
coefficient-signed (suc sign) (suc m) c h =
    coefficient_neg sign m ∙ ap (mod_q 12289) (ok-injective (sym (signed_neg sign m) ∙ h))

-- The state of the other decoder, whose bytes begin 43 before.
unfoldable pub behind : Bits → Bits
behind s = record s { buf_idx = past 43 s.buf_idx }

pub read_byte-ok :
    (d : List ℕ) (s s1 : Bits)
    → read_byte d s ≡ ok s1
    → s1 ≡ record s { acc = shift_in s.acc (byte_at d s.buf_idx); buf_idx = suc s.buf_idx }
unfolding read_byte
read_byte-ok d s s1 h = elim (Bool-cases (leb (length d) s.buf_idx)) [
  | inl ended ↦ cc
  | inr more ↦ cc
]

load-ok_empty :
    (d : List ℕ) (s s1 : Bits)
    → (s.acc_len == 0) ≡ true
    → load d s ≡ ok s1
    → s1
      ≡ record { acc = shift_in s.acc (byte_at d s.buf_idx); acc_len = 8; buf_idx = suc s.buf_idx }
unfolding load
load-ok_empty d s s1 empty h =
    let fresh : load d s ≡ (read_byte d s >>= λ s0. ok (record s0 { acc_len = 8 })) =
      rw empty refl in
    let (s0, read, eq) =
      >>=-eq-ok (read_byte d s) (λ (s0 : Bits). ok (record s0 { acc_len = 8 })) (sym fresh ∙ h) in
    sym (ok-injective eq) ∙ ap (λ (t : Bits). record t { acc_len = 8 }) (read_byte-ok d s s0 read)

load-ok_held : (d : List ℕ) (s s1 : Bits) → (s.acc_len == 0) ≡ false → load d s ≡ ok s1 → s1 ≡ s
unfolding load
load-ok_held d s s1 held h =
    let same : load d s ≡ ok s = rw held refl in ok-injective (sym h ∙ same)

pub load-le :
    (d : List ℕ) (s s1 : Bits)
    → s.acc_len ≤ 8
    → load d s ≡ ok s1
    → (0 < s1.acc_len) × (s1.acc_len ≤ 8)
load-le d s s1 le h = elim (Bool-cases (s.acc_len == 0)) [
  | inl empty ↦ rw (load-ok_empty d s s1 empty h) (omega arith, omega arith)
  | inr held ↦ rw (load-ok_held d s s1 held h) (ground arith, le)
]

fill_bits-once : (d : List ℕ) (s : Bits) → s.acc_len < 8 → fill_bits 8 8 d s ≡ next_byte d s
unfolding fill_bits
fill_bits-once d s few =
    rw
      (
        lt→ltb s.acc_len 8 few,
        not-lt→ltb (next_byte d s).acc_len 8 (unfold next_byte in omega arith),
      )
      refl

pub coefficients_step :
    (fuel n : ℕ) (d : List ℕ) (t t1 t2 : Bits) (b m : ℕ) (cs : List ℤ)
    → read_bits 8 d t ≡ (b, t1)
    → read_unary fuel (b % 128) d t1 ≡ some (m, t2)
    → coefficients fuel n d t2 ≡ some cs
    → coefficients fuel (suc n) d t ≡ some (coefficient (b / 128) m ∷ cs)
unfolding coefficients
coefficients_step fuel n d t t1 t2 b m cs read counted rest =
    let first : (read_bits 8 d t).0 ≡ b = ap (λ (r : ℕ × Bits). r.0) read in
    rw (read, counted, rest, first, coefficients) refl

module _ (sig : List ℕ) where
  abbrev comp : List ℕ
  comp = drop 43 sig

  -- The other decoder's state after a byte.
  next_byte-behind :
      (s : Bits)
      → next_byte sig (behind s) ≡ record {
        acc = shift_in s.acc (byte_at comp s.buf_idx);
        acc_len = s.acc_len + 8;
        buf_idx = past 43 (suc s.buf_idx);
      }
  unfolding next_byte behind past
  next_byte-behind s = rw (byte_at-drop 43 s.buf_idx sig) refl

  pub read_bits-behind :
      (s s1 : Bits)
      → s.acc_len < 8
      → read_byte comp s ≡ ok s1
      → read_bits 8 sig (behind s) ≡ (field_at s1.acc s1.acc_len 8, behind s1)
  unfolding read_bits behind
  read_bits-behind s s1 few h =
      let back : s.acc_len + 8 - 8 ≡ s.acc_len = omega arith in
      rw
        (
          read_byte-ok comp s s1 h,
          fill_bits-once sig (behind s) few,
          next_byte-behind s,
          back,
          shift_right-byte (shift_in s.acc (byte_at comp s.buf_idx)) s.acc_len few,
        )
        refl

  pub read_bit-behind :
      (s s1 : Bits)
      → s.acc_len ≤ 8
      → load comp s ≡ ok s1
      → read_bit sig (behind s) ≡ (top_bit s1, behind (drop_bit s1))
  unfolding read_bit take_bit behind
  read_bit-behind s s1 le h = elim (Bool-cases (s.acc_len == 0)) [
    | inl empty ↦
        rw
          (
            load-ok_empty comp s s1 empty h,
            empty,
            next_byte-behind s,
            shift_right-bit (shift_in s.acc (byte_at comp s.buf_idx)) 7 (omega arith),
          )
          refl
    | inr held ↦
        rw
          (
            load-ok_held comp s s1 held h,
            held,
            shift_right-bit s.acc (s.acc_len - 1) (ground arith),
          )
          refl
  ]
