-- ===== src/Falcon/Serial/FirstRead.antt =====
-- What `decodeFalconSigCt1` of decode-full.js puts out first, by the first two bytes behind the header.
use falcon_smart_account.Prelude.{
  ℕ, zero, suc, ◌+◌, ◌-◌, ◌*◌, ◌/◌, ◌%◌, ◌^◌, ◌<◌, ◌≡◌, refl, sym, ap, ◌∙◌, false, List, [], ◌∷◌,
  arith, length, leb, not-le→leb,
}
use falcon_smart_account.Prelude.Int.{ℤ, pos}
use falcon_smart_account.Outcome.{ok, ◌>>=◌, >>=-eq-ok, ok-injective}
use falcon_smart_account.Falcon.Word.{byte_at}
use falcon_smart_account.Falcon.Serial.{
  Cursor, bit_under, read_bit_ct1, abs_val, with_sign, read_low, read_high, serial_coefficients,
}

head_or : ℤ → List ℤ → ℤ
head_or x [] = x
head_or x (y ∷ ys) = y

module _ (head b1 b2 : ℕ) (more : List ℕ) where
  abbrev comp : List ℕ
  comp = head ∷ b1 ∷ b2 ∷ more

  in_1 : leb (length comp) 1 ≡ false
  in_1 = ground arith

  in_2 : leb (length comp) 2 ≡ false
  in_2 = ground arith

  bit_of_1 :
      (j : ℕ)
      → j < 7
      → read_bit_ct1 comp (record { byte_pos = 1; bit_pos = j })
        ≡ (b1 / 2 ^ (7 - j) % 2, record { byte_pos = 1; bit_pos = suc j })
  unfolding read_bit_ct1 bit_under byte_at
  bit_of_1 j h = rw (in_1, not-le→leb 8 (suc j) (omega arith)) refl

  last_of_1 :
      read_bit_ct1 comp (record { byte_pos = 1; bit_pos = 7 })
      ≡ (b1 / 2 ^ 0 % 2, record { byte_pos = 2; bit_pos = 0 })
  unfolding read_bit_ct1 bit_under byte_at
  last_of_1 = rw in_1 refl

  first_of_2 :
      read_bit_ct1 comp (record { byte_pos = 2; bit_pos = 0 })
      ≡ (b2 / 2 ^ 7 % 2, record { byte_pos = 2; bit_pos = 1 })
  unfolding read_bit_ct1 bit_under byte_at
  first_of_2 = rw in_2 refl

  read_low_step :
      (j low bit : ℕ) (s s1 : Cursor)
      → read_bit_ct1 comp s ≡ (bit, s1)
      → read_low (read_bit_ct1 comp) (suc j) low s
        ≡ read_low (read_bit_ct1 comp) j (low + bit * 2 ^ j) s1
  unfolding read_low
  read_low_step j low bit s s1 h =
      ap (λ (r : ℕ × Cursor). read_low (read_bit_ct1 comp) j (low + r.0 * 2 ^ j) r.1) h

  -- Seven bits of the first byte, and the first of the second.
  read_low-value :
      read_low (read_bit_ct1 comp) 8 0 (record { byte_pos = 1; bit_pos = 1 })
      ≡ (b1 % 128 * 2 + b2 / 128 % 2, record { byte_pos = 2; bit_pos = 1 })
  unfolding read_low
  read_low-value =
      read_low_step 7 _ _ _ _ (bit_of_1 1 (omega arith))
      ∙ read_low_step 6 _ _ _ _ (bit_of_1 2 (omega arith))
      ∙ read_low_step 5 _ _ _ _ (bit_of_1 3 (omega arith))
      ∙ read_low_step 4 _ _ _ _ (bit_of_1 4 (omega arith))
      ∙ read_low_step 3 _ _ _ _ (bit_of_1 5 (omega arith))
      ∙ read_low_step 2 _ _ _ _ (bit_of_1 6 (omega arith))
      ∙ read_low_step 1 _ _ _ _ last_of_1
      ∙ read_low_step 0 _ _ _ _ first_of_2
      ∙ ap (λ (low : ℕ). (low, record { byte_pos = 2; bit_pos = 1 })) (omega arith)

  coefficients_step :
      (fuel n : ℕ) (s s1 s2 : Cursor) (sign low : ℕ)
      → read_bit_ct1 comp s ≡ (sign, s1)
      → read_low (read_bit_ct1 comp) 8 0 s1 ≡ (low, s2)
      → serial_coefficients (read_bit_ct1 comp) fuel 12289 8 (suc n) s ≡ (
          read_high (read_bit_ct1 comp) fuel 0 s2 >>= λ counted.
          serial_coefficients (read_bit_ct1 comp) fuel 12289 8 n counted.1 >>= λ xs.
          ok (with_sign 12289 sign (abs_val 8 counted.0 low) ∷ xs))
  unfolding serial_coefficients
  coefficients_step fuel n s s1 s2 sign low read_sign low_read = rw (read_sign, low_read) refl

  -- The first coefficient that the decoder puts out.
  pub first_coefficient :
      (fuel n : ℕ) (x : ℤ) (xs : List ℤ)
      → serial_coefficients
          (read_bit_ct1 comp)
          fuel
          12289
          8
          n
          (record { byte_pos = 1; bit_pos = 0 })
        ≡ ok (x ∷ xs)
      → (high : ℕ) × (x
          ≡ with_sign 12289 (b1 / 128 % 2) (abs_val 8 high (b1 % 128 * 2 + b2 / 128 % 2)))
  unfolding serial_coefficients head_or
  first_coefficient fuel zero x xs h = cc
  first_coefficient fuel (suc n) x xs h =
      let sign = b1 / 2 ^ 7 % 2 in
      let low = b1 % 128 * 2 + b2 / 128 % 2 in
      let read =
        coefficients_step fuel n _ _ _ sign low (bit_of_1 0 (omega arith)) read_low-value in
      let ((high, s3), counted, h1) =
        >>=-eq-ok (read_high (read_bit_ct1 comp) fuel 0 (record { byte_pos = 2; bit_pos = 1 })) _
          (sym read ∙ h) in
      let (rest, others, h2) =
        >>=-eq-ok (serial_coefficients (read_bit_ct1 comp) fuel 12289 8 n s3) _ h1 in
      (high, sym (ap (head_or (pos 0)) (ok-injective h2)))
