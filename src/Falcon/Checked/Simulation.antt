-- ===== src/Falcon/Checked/Simulation.antt =====
-- `decodeFalconSignature` of decode-final.js and `decompressS2` of scripts/anvil-falcon-tx.ts, which
-- reads on with zeros where the former throws.
use falcon_smart_account.Prelude.{
  ℕ, zero, suc, ◌+◌, ◌/◌, ◌%◌, ◌≤◌, ◌<◌, ◌≡◌, refl, sym, ap, ◌∙◌, inl, inr, true, false, some, List,
  ◌∷◌, arith, drop, ltb, ◌==◌, if◌then◌else◌, map, Bool-cases,
}
use falcon_smart_account.Prelude.Int.{ℤ}
use falcon_smart_account.Outcome.{ok, throws, coefficient_too_large, >>=-eq-ok, ok-injective}
use falcon_smart_account.Falcon.PublicKey.{Bits}
use falcon_smart_account.Falcon.Signature.{read_bit, read_unary, coefficients, decompress_s2}
use falcon_smart_account.Falcon.Checked.{
  field_at, read_byte, load, top_bit, drop_bit, unary, signed, sig_loop, decode_falcon_sig, mod_q,
  to_mod_q, extract_nonce, Decoded, decode_falcon_signature,
}
use falcon_smart_account.Falcon.Checked.Behind.{
  past, behind, coefficient-signed, read_byte-ok, load-le, coefficients_step, read_bits-behind,
  read_bit-behind,
}

module _ (sig : List ℕ) where
  abbrev comp : List ℕ
  comp = drop 43 sig

  -- The other decoder counts to the same, with as much fuel.
  Counts : ℕ → ℕ → Bits → ℕ → Bits → Type 0
  Counts fuel m s m' s' =
      (read_unary fuel m sig (behind s) ≡ some (m', behind s')) × (s'.acc_len < 8)

  unary_round :
      (fuel fuel' m : ℕ) (s s1 : Bits) (m' : ℕ) (s' : Bits)
      → (0 < s1.acc_len) × (s1.acc_len ≤ 8)
      → read_bit sig (behind s) ≡ (top_bit s1, behind (drop_bit s1))
      → (if top_bit s1 == 1
          then ok (m, drop_bit s1)
          else (if ltb 2047 (m + 128)
              then throws coefficient_too_large
              else unary fuel (m + 128) comp (drop_bit s1)))
        ≡ ok (m', s')
      → (unary fuel (m + 128) comp (drop_bit s1) ≡ ok (m', s')
          → Counts fuel' (m + 128) (drop_bit s1) m' s')
      → Counts (suc fuel') m s m' s'
  unfolding Counts read_unary
  unary_round fuel fuel' m s s1 m' s' (ge, le) read next ih = elim (Bool-cases (top_bit s1 == 1)) [
    | inl one ↦
        let not_zero : (top_bit s1 == 0) ≡ false = ground arith in
        let here : ok (m, drop_bit s1) ≡ ok (m', s') = sym (rw one refl) ∙ next in
        let same = ok-injective here in
        (
          rw (read, not_zero) (ap (λ (r : ℕ × Bits). some (r.0, behind r.1)) same),
          rw (sym (ap (λ (r : ℕ × Bits). r.1.acc_len) same)) (omega (arith, ge, le)),
        )
    | inr zero_bit ↦ elim (Bool-cases (ltb 2047 (m + 128))) [
      | inl large ↦ cc
      | inr fits ↦
          let is_zero : (top_bit s1 == 0) ≡ true = ground arith in
          let (counted, few) = ih (sym (rw (zero_bit, fits) refl) ∙ next) in
          (rw (read, is_zero) counted, few)
    ]
  ]

  unary-behind :
      (fuel fuel' m : ℕ) (s : Bits) (m' : ℕ) (s' : Bits)
      → s.acc_len ≤ 8
      → fuel ≤ fuel'
      → unary fuel m comp s ≡ ok (m', s')
      → Counts fuel' m s m' s'
  unfolding unary
  unary-behind zero fuel' m s m' s' le more h = cc
  unary-behind (suc fuel) zero m s m' s' le more h = absurd (omega arith)
  unary-behind (suc fuel) (suc fuel') m s m' s' le more h =
      let (s1, loads, next) = >>=-eq-ok (load comp s) _ h in
      let bounds = load-le comp s s1 le loads in
      unary_round fuel fuel' m s s1 m' s' bounds (read_bit-behind sig s s1 le loads) next (
        unary-behind fuel fuel' (m + 128) (drop_bit s1) m' s' (omega (arith, bounds.1))
          (omega arith))

  sig_loop-behind :
      (fuel n : ℕ) (s : Bits) (cs : List ℤ)
      → s.acc_len < 8
      → 16 ≤ fuel
      → sig_loop n comp s ≡ ok cs
      → coefficients fuel n sig (behind s) ≡ some (to_mod_q cs 12289)
  unfolding sig_loop coefficients to_mod_q Counts
  sig_loop-behind fuel zero s cs few enough h =
      ap (λ (xs : List ℤ). some (map (mod_q 12289) xs)) (ok-injective h)
  sig_loop-behind fuel (suc n) s cs few enough h =
      let (s1, read, h1) = >>=-eq-ok (read_byte comp s) _ h in
      let b = field_at s1.acc s1.acc_len 8 in
      let same_len : s1.acc_len ≡ s.acc_len =
        ap (λ (t : Bits). t.acc_len) (read_byte-ok comp s s1 read) in
      let ((m, s2), counted, h2) = >>=-eq-ok (unary 16 (b % 128) comp s1) _ h1 in
      let (c, is_signed, h3) = >>=-eq-ok (signed (b / 128) m) _ h2 in
      let (rest, looped, h4) = >>=-eq-ok (sig_loop n comp s2) _ h3 in
      let (others, few2) =
        unary-behind 16 fuel (b % 128) s1 m s2 (omega (arith, same_len)) enough counted in
      coefficients_step fuel n sig (behind s) (behind s1) (behind s2) b m (to_mod_q rest 12289)
        (read_bits-behind sig s s1 few read) others
        (sig_loop-behind fuel n s2 rest few2 enough looped)
      ∙ ap (λ (x : ℤ). some (x ∷ to_mod_q rest 12289)) (coefficient-signed (b / 128) m c is_signed)
      ∙ ap (λ (xs : List ℤ). some (map (mod_q 12289) xs)) (ok-injective h4)

-- On a signature that the strict decoder accepts, the other decoder gives the same coefficients
-- modulo q and the same nonce, when its unary counts have sixteen rounds or more of fuel.
pub decompress_s2-decode_falcon_signature :
    (fuel : ℕ) (sig : List ℕ) (decoded : Decoded)
    → 16 ≤ fuel
    → decode_falcon_signature sig 512 ≡ ok decoded
    → decompress_s2 fuel sig ≡ (some decoded.s2, decoded.nonce)
unfolding decompress_s2 decode_falcon_signature decode_falcon_sig extract_nonce behind past
decompress_s2-decode_falcon_signature fuel sig decoded enough h =
    let start : Bits = record { acc = 0; acc_len = 0; buf_idx = 0 } in
    let (cs, looped, made) = >>=-eq-ok (sig_loop 512 (drop 43 sig) start) _ h in
    rw (sig_loop-behind sig fuel 512 start cs (omega arith) enough looped)
      (ap (λ (t : Decoded). (some t.s2, t.nonce)) (ok-injective made))
