-- ===== src/Falcon/Serial/Differs.antt =====
-- `decodeFalconSigCt1` of decode-full.js on signatures that decode-final.js accepts.
use falcon_smart_account.Prelude.{
  ℕ, zero, suc, ◌+◌, ◌-◌, ◌*◌, ◌/◌, ◌%◌, ◌^◌, ◌≤◌, ◌<◌, ◌≡◌, ◌≢◌, ◌⊎◌, refl, sym, ap, ◌∙◌, inl, inr,
  List, ◌∷◌, ◌++◌, append_assoc, arith, drop, AllBytes, ltb, ◌==◌, Bool-cases,
}
use falcon_smart_account.Prelude.Int.{ℤ, pos, negsuc, sub_ℕ}
use falcon_smart_account.Outcome.{ok, throws, unexpected_logn}
use falcon_smart_account.Falcon.Word.{byte_at}
use falcon_smart_account.Falcon.Checked.{decode_falcon_sig, mod_q}
use falcon_smart_account.Falcon.Checked.Codec.{sign_of, abs_of, encode_coefficient, encode}
use falcon_smart_account.Falcon.Checked.RoundTrip.{sign_of-lt}
use falcon_smart_account.Falcon.Checked.Canonical.{decode_falcon_sig-IsCodable}
use falcon_smart_account.Falcon.Serial.{
  Cursor, read_bit_ct1, int32, abs_val, with_sign, serial_coefficients, decode_falcon_sig_ct1,
}
use falcon_smart_account.Falcon.Serial.Begins.{
  drop_uncons, drop-AllBytes, small_bits, stream-Begins,
}
use falcon_smart_account.Falcon.Serial.FirstRead.{first_coefficient}

with_sign_plus : (q : ℕ) (v : ℤ) → with_sign q 0 v ≡ v
unfolding with_sign
with_sign_plus q (pos zero) = refl
with_sign_plus q (pos (suc m)) = refl
with_sign_plus q (negsuc m) = refl

with_sign_minus : (q w : ℕ) → with_sign q 1 (pos (suc w)) ≡ sub_ℕ q (suc w)
unfolding with_sign
with_sign_minus q w = refl

with_sign_wrapped : (q w : ℕ) → with_sign q 1 (negsuc w) ≡ pos (q + suc w)
unfolding with_sign
with_sign_wrapped q w = refl

int32-cases : (w : ℕ) → (int32 w ≡ pos w) ⊎ ((k : ℕ) × (int32 w ≡ negsuc k))
unfolding int32
int32-cases w = elim (Bool-cases (ltb w (2 ^ 31))) [
  | inl low ↦ inl (rw low refl)
  | inr high ↦ inr (2 ^ 32 - 1 - w, rw high refl)
]

sub_ℕ-ne : (q a b : ℕ) → a < q → a < b → sub_ℕ q b ≢ sub_ℕ q a
sub_ℕ-ne q a b lt less = λ h. ground arith

larger : (high m : ℕ) → (w : ℕ) × (high * 2 ^ 8 % 2 ^ 32 + (m * 2 + 1) ≡ suc w) × (m ≤ w)
larger high m = (high * 2 ^ 8 % 2 ^ 32 + m * 2, omega arith, omega arith)

with_sign-ne :
    (c : ℤ) (high : ℕ)
    → abs_of c < 128
    → with_sign 12289 (sign_of c) (abs_val 8 high (abs_of c * 2 + 1)) ≢ mod_q 12289 c
unfolding abs_val mod_q
with_sign-ne (pos m) high h =
    let (w, eq, le) = larger high m in
    rw (eq, with_sign_plus 12289 (int32 (suc w)))
      (elim (int32-cases (suc w)) [
        | inl low ↦ rw low (λ e. ground arith)
        | inr (k, wrapped) ↦ rw wrapped (λ e. cc)
      ])
with_sign-ne (negsuc m) high h =
    let (w, eq, le) = larger high (suc m) in
    rw eq (elim (int32-cases (suc w)) [
      | inl low ↦
          rw (low, with_sign_minus 12289 w)
            (sub_ℕ-ne 12289 (suc m) (suc w) (omega arith) (omega arith))
      | inr (k, wrapped) ↦ rw (wrapped, with_sign_wrapped 12289 k) (λ e. ground arith)
    ])

refused : {ys : List ℤ} → throws unexpected_logn ≢ ok ys
refused h = cc

-- A signature is only read when its header has 9 for the logarithm of the degree.
ct1-ok :
    (fuel n q : ℕ) (sig : List ℕ) (ys : List ℤ)
    → decode_falcon_sig_ct1 fuel sig n q ≡ ok ys
    → serial_coefficients
        (read_bit_ct1 (drop 42 sig))
        fuel
        q
        8
        n
        (record { byte_pos = 1; bit_pos = 0 })
      ≡ ok ys
unfolding decode_falcon_sig_ct1
ct1-ok fuel n q sig ys h =
    let logn = byte_at (drop 42 sig) 0 % 16 in
    elim (Bool-cases (logn == 9)) [
      | inr other ↦ absurd (refused (sym (rw other refl) ∙ h))
      | inl nine ↦
          let is_nine : logn ≡ 9 = ground arith in
          elim (Bool-cases (2 ^ 9 == n)) [
            | inr other ↦ absurd (refused (sym (rw (is_nine, other) refl) ∙ h))
            | inl degree ↦ sym (rw (is_nine, degree) refl) ∙ h
          ]
    ]

ct1-ne :
    (fuel n : ℕ) (sig : List ℕ) (head b1 b2 : ℕ) (more : List ℕ) (c x : ℤ) (xs : List ℤ)
    → drop 42 sig ≡ head ∷ b1 ∷ b2 ∷ more
    → b1 ≡ sign_of c * 128 + abs_of c
    → b2 / 128 % 2 ≡ 1
    → sign_of c < 2
    → abs_of c < 128
    → decode_falcon_sig_ct1 fuel sig n 12289 ≡ ok (x ∷ xs)
    → x ≢ mod_q 12289 c
ct1-ne fuel n sig head b1 b2 more c x xs comp_eq byte one sign small h =
    let start : Cursor = record { byte_pos = 1; bit_pos = 0 } in
    let (high, eq) = first_coefficient head b1 b2 more fuel n x xs (
      ap (λ (d : List ℕ). serial_coefficients (read_bit_ct1 d) fuel 12289 8 n start) (sym comp_eq)
      ∙ ct1-ok fuel n 12289 sig (x ∷ xs) h) in
    let sign_bit : b1 / 128 % 2 ≡ sign_of c = omega arith in
    let low : b1 % 128 * 2 + b2 / 128 % 2 ≡ abs_of c * 2 + 1 = omega arith in
    rw (eq, sign_bit, low) (with_sign-ne c high small)

-- When decode-final.js accepts a signature whose first coefficient is below 128 in absolute value,
-- `decodeFalconSigCt1` gives another first coefficient, if it ends.
pub decode_falcon_sig_ct1-ne :
    (fuel n : ℕ) (sig : List ℕ) (c x : ℤ) (cs xs : List ℤ)
    → AllBytes sig
    → abs_of c < 128
    → decode_falcon_sig (drop 43 sig) n ≡ ok (c ∷ cs)
    → decode_falcon_sig_ct1 fuel sig n 12289 ≡ ok (x ∷ xs)
    → x ≢ mod_q 12289 c
unfolding encode
decode_falcon_sig_ct1-ne fuel n sig c x cs xs bytes small strict serial =
    let comp = drop 43 sig in
    let (rest, eq, _, _) =
      decode_falcon_sig-IsCodable comp n (c ∷ cs) (drop-AllBytes 43 sig bytes) strict in
    let begins =
      stream-Begins comp c (encode cs ++ rest) (drop-AllBytes 43 sig bytes) (sign_of-lt c) small (
        eq
        ∙ append_assoc (encode_coefficient c) (encode cs) rest
        ∙ small_bits c (encode cs ++ rest) small) in
    let (head, whole) =
      drop_uncons 42 sig (sign_of c * 128 + abs_of c) (begins.b2 ∷ begins.more) begins.bytes in
    ct1-ne fuel n sig head (sign_of c * 128 + abs_of c) begins.b2 begins.more c x xs whole refl
      begins.one (sign_of-lt c) small serial
