-- ===== src/Falcon/Checked/Keys.antt =====
-- `decodeFalconPk` of decode-final.js and `decodePk` of scripts/anvil-falcon-tx.ts, which puts out
-- any 14 bits.
use falcon_smart_account.Prelude.{
  ℕ, zero, suc, ◌+◌, ◌-◌, ◌*◌, ◌%◌, ◌^◌, ◌≤◌, ◌<◌, ◌≡◌, refl, sym, ap, ◌∙◌, inl, inr, Bool, true,
  false, ◌&&◌, List, [], ◌∷◌, arith, leb, ltb, if◌then◌else◌, Bool-cases, lt→ltb, not-lt→ltb,
  le→leb, not-le→leb,
}
use falcon_smart_account.Outcome.{Outcome, ok, throws, coefficient_out_of_range}
use falcon_smart_account.Falcon.Word.{shift_right}
use falcon_smart_account.Falcon.PublicKey.{Bits, next_byte, refill, decode, decode_pk}
use falcon_smart_account.Falcon.Checked.{field_at, put_coefficient, pk_loop, decode_falcon_pk}

-- Whether all are below a number.
pub all_below : ℕ → List ℕ → Bool
all_below q [] = true
all_below q (c ∷ cs) = ltb c q && all_below q cs

checked : List ℕ → Outcome (List ℕ)
checked cs = if all_below 12289 cs then ok cs else throws coefficient_out_of_range

put_coefficient-checked : (c : ℕ) (cs : List ℕ) → put_coefficient c (checked cs) ≡ checked (c ∷ cs)
unfolding put_coefficient checked all_below
put_coefficient-checked c cs = elim (Bool-cases (ltb c 12289)) [
  | inr high ↦ let refused : leb 12289 c ≡ true = ground arith in rw (high, refused) refl
  | inl low ↦
      let accepted : leb 12289 c ≡ false = ground arith in
      elim (Bool-cases (all_below 12289 cs)) [
        | inl rest ↦ rw (low, accepted, rest) refl
        | inr rest ↦ rw (low, accepted, rest) refl
      ]
]

shift_right-field : (a k : ℕ) → k < 8 → shift_right a k % 2 ^ 14 ≡ field_at a k 14
unfolding shift_right
shift_right-field a zero h = ground arith
shift_right-field a (suc zero) h = ground arith
shift_right-field a (suc (suc zero)) h = ground arith
shift_right-field a (suc (suc (suc zero))) h = ground arith
shift_right-field a (suc (suc (suc (suc zero)))) h = ground arith
shift_right-field a (suc (suc (suc (suc (suc zero))))) h = ground arith
shift_right-field a (suc (suc (suc (suc (suc (suc zero)))))) h = ground arith
shift_right-field a (suc (suc (suc (suc (suc (suc (suc zero))))))) h = ground arith
shift_right-field a (suc (suc (suc (suc (suc (suc (suc (suc k)))))))) h = absurd (omega arith)

module _ (d : List ℕ) where
  -- Fourteen bits are taken from a word.
  take_14 : Bits → Bits
  take_14 s = record s { acc_len = s.acc_len - 14 }

  next_byte-len : (s : Bits) → (next_byte d s).acc_len ≡ s.acc_len + 8
  unfolding next_byte
  next_byte-len s = refl

  pk_loop-short :
      (fuel n : ℕ) (s : Bits)
      → s.acc_len < 6
      → pk_loop (suc fuel) (suc n) d s ≡ pk_loop fuel (suc n) d (next_byte d s)
  unfolding pk_loop
  pk_loop-short fuel n s short =
      rw (not-le→leb 14 (next_byte d s).acc_len (omega (arith, next_byte-len s))) refl

  pk_loop-full :
      (fuel n : ℕ) (s : Bits)
      → 6 ≤ s.acc_len
      → pk_loop (suc fuel) (suc n) d s
        ≡ put_coefficient
            (field_at (next_byte d s).acc ((next_byte d s).acc_len - 14) 14)
            (pk_loop fuel n d (take_14 (next_byte d s)))
  unfolding pk_loop take_14
  pk_loop-full fuel n s full =
      rw (le→leb 14 (next_byte d s).acc_len (omega (arith, next_byte-len s))) refl

  refill_short : (s : Bits) → s.acc_len < 6 → refill 2 d s ≡ next_byte d (next_byte d s)
  unfolding refill
  refill_short s short =
      rw
        (
          lt→ltb s.acc_len 14 (omega arith),
          lt→ltb (next_byte d s).acc_len 14 (omega (arith, next_byte-len s)),
        )
        refl

  refill_full : (s : Bits) → 6 ≤ s.acc_len → s.acc_len < 14 → refill 2 d s ≡ next_byte d s
  unfolding refill
  refill_full s full few =
      rw
        (
          lt→ltb s.acc_len 14 few,
          not-lt→ltb (next_byte d s).acc_len 14 (omega (arith, next_byte-len s)),
        )
        refl

  decode_step :
      (n : ℕ) (s s1 : Bits)
      → refill 2 d s ≡ s1
      → 14 ≤ s1.acc_len
      → s1.acc_len < 22
      → decode (suc n) d s ≡ field_at s1.acc (s1.acc_len - 14) 14 ∷ decode n d (take_14 s1)
  unfolding decode take_14
  decode_step n s s1 filled ge lt =
      rw (filled, shift_right-field s1.acc (s1.acc_len - 14) (omega arith)) refl

  none_left : (fuel : ℕ) (s : Bits) → pk_loop fuel 0 d s ≡ checked (decode 0 d s)
  unfolding pk_loop checked decode all_below
  none_left zero s = refl
  none_left (suc fuel) s = refl

  -- A coefficient of a full word, before what the rest gives.
  put_out :
      (n : ℕ) (s s1 : Bits) (rest : Outcome (List ℕ))
      → refill 2 d s ≡ s1
      → 14 ≤ s1.acc_len
      → s1.acc_len < 22
      → rest ≡ checked (decode n d (take_14 s1))
      → put_coefficient (field_at s1.acc (s1.acc_len - 14) 14) rest ≡ checked (decode (suc n) d s)
  put_out n s s1 rest filled ge lt eq =
      ap (put_coefficient (field_at s1.acc (s1.acc_len - 14) 14)) eq
      ∙ put_coefficient-checked _ _
      ∙ ap checked (sym (decode_step n s s1 filled ge lt))

  pk_loop-decode :
      (fuel n : ℕ) (s : Bits)
      → s.acc_len < 8
      → 2 * n ≤ fuel
      → pk_loop fuel n d s ≡ checked (decode n d s)
  unfolding take_14
  pk_loop-decode fuel zero s few enough = none_left fuel s
  pk_loop-decode zero (suc n) s few enough = absurd (omega arith)
  pk_loop-decode (suc zero) (suc n) s few enough = absurd (omega arith)
  pk_loop-decode (suc (suc fuel)) (suc n) s few enough = elim (Bool-cases (ltb s.acc_len 6)) [
    | inl short ↦
        let s1 = next_byte d s in
        let s2 = next_byte d s1 in
        pk_loop-short (suc fuel) n s (ground arith)
        ∙ pk_loop-full fuel n s1 (ground (arith, next_byte-len s))
        ∙ put_out n s s2 _ (refill_short s (ground arith))
            (ground (arith, next_byte-len s, next_byte-len s1))
            (ground (arith, next_byte-len s, next_byte-len s1))
            (pk_loop-decode fuel n (take_14 s2) (ground (arith, next_byte-len s, next_byte-len s1))
              (omega arith))
    | inr full ↦
        let s1 = next_byte d s in
        pk_loop-full (suc fuel) n s (ground arith)
        ∙ put_out n s s1 _ (refill_full s (ground arith) (omega arith))
            (ground (arith, next_byte-len s)) (ground (arith, next_byte-len s))
            (pk_loop-decode (suc fuel) n (take_14 s1) (ground (arith, next_byte-len s))
              (omega arith))
  ]

  -- The strict decoder of keys gives the 512 coefficients that the other decoder gives if all are
  -- below 12289, and else throws, with the fuel that the model has.
  pub decode_falcon_pk-decode_pk : decode_falcon_pk d 512 ≡ (
      if all_below 12289 (decode_pk d) then ok (decode_pk d) else throws coefficient_out_of_range)
  unfolding decode_falcon_pk decode_pk checked
  decode_falcon_pk-decode_pk =
      pk_loop-decode 1024 512 (record { acc = 0; acc_len = 0; buf_idx = 1 }) (omega arith)
        (omega arith)
