-- ===== src/Falcon/Checked/Reads.antt =====
-- `decodeFalconSig` of decode-final.js reads the compressed format: over any bytes it gives what the
-- reader of bits gives, errors included.
use falcon_smart_account.Prelude.{
  ℕ, zero, suc, ◌+◌, ◌-◌, ◌*◌, ◌/◌, ◌%◌, ◌^◌, ◌≤◌, ◌<◌, ◌≡◌, refl, sym, ap, ◌∙◌, ◌⊎◌, inl, inr,
  List, [], ◌∷◌, ◌++◌, append-nil, append_assoc, arith, length, drop, AllBytes, leb, ltb, ◌==◌,
  Bool-cases,
}
use falcon_smart_account.Outcome.{Error, Outcome, ok, throws, unexpected_end, coefficient_too_large}
use falcon_smart_account.Falcon.Word.{shift_in, byte_at, byte_at-lt}
use falcon_smart_account.Falcon.PublicKey.{Bits}
use falcon_smart_account.Falcon.BitStream.{
  word_bits, stream, word_bits-shift_in, drop-byte_at, drop_past,
}
use falcon_smart_account.Falcon.Checked.{
  field_at, read_byte, load, top_bit, drop_bit, unary, sig_loop, decode_falcon_sig,
}
use falcon_smart_account.Falcon.Checked.Codec.{pop_8, parse_unary, parse}

-- The bits that are still to be read.
unfoldable pub view : List ℕ → Bits → List ℕ
view d s = word_bits s.acc_len s.acc ++ stream (drop s.buf_idx d)

pop_8-word_bits : (k a : ℕ) → k < 8 → pop_8 (word_bits k a) ≡ throws unexpected_end
unfolding pop_8 word_bits
pop_8-word_bits zero a h = refl
pop_8-word_bits (suc zero) a h = refl
pop_8-word_bits (suc (suc zero)) a h = refl
pop_8-word_bits (suc (suc (suc zero))) a h = refl
pop_8-word_bits (suc (suc (suc (suc zero)))) a h = refl
pop_8-word_bits (suc (suc (suc (suc (suc zero))))) a h = refl
pop_8-word_bits (suc (suc (suc (suc (suc (suc zero)))))) a h = refl
pop_8-word_bits (suc (suc (suc (suc (suc (suc (suc zero))))))) a h = refl
pop_8-word_bits (suc (suc (suc (suc (suc (suc (suc (suc k)))))))) a h = absurd (omega arith)

pub pop_8-byte : (a : ℕ) (bits : List ℕ) → pop_8 (word_bits 8 a ++ bits) ≡ ok (a % 2 ^ 8, bits)
unfolding pop_8 word_bits
pop_8-byte a bits = ap (λ (t : ℕ). ok (t, bits)) (omega arith)

module _ (d : List ℕ) (bytes : AllBytes d) where
  -- Past the last byte only the word has bits.
  view_end : (s : Bits) → length d ≤ s.buf_idx → view d s ≡ word_bits s.acc_len s.acc
  unfolding view stream
  view_end s h = rw (drop_past d s.buf_idx h) (append-nil (word_bits s.acc_len s.acc))

  view_byte :
      (s : Bits)
      → s.buf_idx < length d
      → s.acc_len ≤ 8
      → let acc = shift_in s.acc (byte_at d s.buf_idx) in
        view d s
        ≡ word_bits 8 (acc / 2 ^ s.acc_len)
          ++ view d (record s { acc = acc; buf_idx = suc s.buf_idx })
  unfolding view stream
  view_byte s h le =
      let b = byte_at d s.buf_idx in
      rw (drop-byte_at d s.buf_idx h) (
        sym (append_assoc (word_bits s.acc_len s.acc) (word_bits 8 b) _)
        ∙ ap (λ (xs : List ℕ). xs ++ stream (drop (suc s.buf_idx) d))
            (sym (word_bits-shift_in s.acc_len s.acc b le (byte_at-lt d s.buf_idx bytes)))
        ∙ append_assoc (word_bits 8 (shift_in s.acc b / 2 ^ s.acc_len)) _ _)

  -- An empty word takes the next byte whole.
  view_fresh :
      (s : Bits)
      → s.buf_idx < length d
      → s.acc_len ≡ 0
      → view d (record {
        acc = shift_in s.acc (byte_at d s.buf_idx);
        acc_len = 8;
        buf_idx = suc s.buf_idx;
      })
        ≡ view d s
  view_fresh s h empty =
      let acc = shift_in s.acc (byte_at d s.buf_idx) in
      let whole : acc / 2 ^ s.acc_len ≡ acc = ap (λ (k : ℕ). acc / 2 ^ k) empty ∙ omega arith in
      let none_left : word_bits s.acc_len acc ≡ [] =
        ap (λ (k : ℕ). word_bits k acc) empty ∙ unfold word_bits in refl in
      sym (view_byte s h (omega arith) ∙ unfold view in rw (whole, none_left) refl)

  record Loaded (s s1 : Bits) : Type 0 where
    loads : load d s ≡ ok s1
    same : view d s1 ≡ view d s
    held : ℕ
    count : s1.acc_len ≡ suc held
    few : held < 8

  load_cases :
      (s : Bits)
      → s.acc_len ≤ 8
      → ((s1 : Bits) × Loaded s s1) ⊎ ((load d s ≡ throws unexpected_end) × (view d s ≡ []))
  unfolding load read_byte
  load_cases s le = elim (Bool-cases (s.acc_len == 0)) [
    | inr held ↦ inl (
      s,
      record {
        loads = rw held refl;
        same = refl;
        held = s.acc_len - 1;
        count = ground arith;
        few = ground arith;
      },
    )
    | inl empty ↦ elim (Bool-cases (leb (length d) s.buf_idx)) [
      | inl past ↦
          let zero_left : s.acc_len ≡ 0 = ground arith in
          inr (
            rw (empty, past) refl,
            view_end s (ground arith)
                ∙ ap (λ (k : ℕ). word_bits k s.acc) zero_left
                ∙ unfold word_bits in refl,
          )
      | inr more ↦ inl (
        record { acc = shift_in s.acc (byte_at d s.buf_idx); acc_len = 8; buf_idx = suc s.buf_idx },
        record {
          loads = rw (empty, more) refl;
          same = view_fresh s (ground arith) (ground arith);
          held = 7;
          count = refl;
          few = omega arith;
        },
      )
    ]
  ]

  -- A word that holds a bit shows it first.
  view_bit : (s : Bits) (k : ℕ) → s.acc_len ≡ suc k → view d s ≡ top_bit s ∷ view d (drop_bit s)
  unfolding view
  view_bit s k count =
      let rest : suc k - 1 ≡ k = omega arith in rw (count, rest) (unfold word_bits in refl)

  -- The unary count from a state, and from its bits, end alike.
  abbrev UnaryAgrees : Outcome (ℕ × Bits) → Outcome (ℕ × List ℕ) → Type 0
  UnaryAgrees read parsed =
      ((m : ℕ) × (s : Bits) × (read ≡ ok (m, s)) × (parsed ≡ ok (m, view d s)) × (s.acc_len < 8))
      ⊎ ((err : Error) × (read ≡ throws err) × (parsed ≡ throws err))

  parse_unary_step :
      (m : ℕ) (s s1 : Bits)
      → Loaded s s1
      → parse_unary m (view d s) ≡ parse_unary m (top_bit s1 ∷ view d (drop_bit s1))
  parse_unary_step m s s1 l = ap (parse_unary m) (sym l.same ∙ view_bit s1 l.held l.count)

  unary-UnaryAgrees :
      (fuel m : ℕ) (s : Bits)
      → s.acc_len ≤ 8
      → m ≤ 2047
      → 2048 ≤ m + 128 * fuel
      → UnaryAgrees (unary fuel m d s) (parse_unary m (view d s))
  unfolding unary parse_unary
  unary-UnaryAgrees zero m s le small enough = absurd (omega arith)
  unary-UnaryAgrees (suc fuel) m s le small enough = elim (load_cases s le) [
    | inr (ended, empty) ↦ inr (unexpected_end, rw ended refl, rw (empty, parse_unary) refl)
    | inl (s1, l) ↦ elim (Bool-cases (top_bit s1 == 1)) [
      | inl one ↦ inl (
        m,
        drop_bit s1,
        rw (l.loads, one) refl,
        parse_unary_step m s s1 l ∙ rw one refl,
        omega (arith, l.count, l.few),
      )
      | inr more ↦ elim (Bool-cases (ltb 2047 (m + 128))) [
        | inl large ↦ inr (
          coefficient_too_large,
          rw (l.loads, more, large) refl,
          parse_unary_step m s s1 l ∙ rw (more, large) refl,
        )
        | inr fits ↦
            elim (unary-UnaryAgrees fuel (m + 128) (drop_bit s1) (omega (arith, l.count, l.few))
              (ground arith) (omega arith)) [
                | inl (m', s', read, parsed, few) ↦ inl (
                  m',
                  s',
                  rw (l.loads, more, fits) read,
                  parse_unary_step m s s1 l ∙ rw (more, fits) parsed,
                  few,
                )
                | inr (err, read, parsed) ↦ inr (
                  err,
                  rw (l.loads, more, fits) read,
                  parse_unary_step m s s1 l ∙ rw (more, fits) parsed,
                )
              ]
      ]
    ]
  ]

  -- The first byte of a coefficient.
  byte_cases :
      (s : Bits)
      → s.acc_len < 8
      → ((s1 : Bits) × (read_byte d s ≡ ok s1)
          × (s1.acc_len ≡ s.acc_len)
          × (pop_8 (view d s) ≡ ok (field_at s1.acc s1.acc_len 8, view d s1)))
        ⊎ ((read_byte d s ≡ throws unexpected_end) × (pop_8 (view d s) ≡ throws unexpected_end))
  unfolding read_byte
  byte_cases s few = elim (Bool-cases (leb (length d) s.buf_idx)) [
    | inl past ↦
        inr
          (rw past refl, ap pop_8 (view_end s (ground arith)) ∙ pop_8-word_bits s.acc_len s.acc few)
    | inr more ↦
        let acc = shift_in s.acc (byte_at d s.buf_idx) in
        inl (
          record s { acc = acc; buf_idx = suc s.buf_idx },
          rw more refl,
          refl,
          ap pop_8 (view_byte s (ground arith) (omega arith)) ∙ pop_8-byte (acc / 2 ^ s.acc_len) _,
        )
  ]

  sig_loop-parse : (n : ℕ) (s : Bits) → s.acc_len < 8 → sig_loop n d s ≡ parse n (view d s)
  unfolding sig_loop parse
  sig_loop-parse zero s few = refl
  sig_loop-parse (suc n) s few = elim (byte_cases s few) [
    | inr (read, popped) ↦ rw (read, popped) refl
    | inl (s1, read, same, popped) ↦
        let b = field_at s1.acc s1.acc_len 8 in
        elim (unary-UnaryAgrees 16 (b % 128) s1 (omega arith) (omega arith) (omega arith)) [
          | inr (err, counted, parsed) ↦ rw (read, popped, counted, parsed) refl
          | inl (m, s2, counted, parsed, few2) ↦
              rw (read, popped, counted, parsed, sig_loop-parse n s2 few2) refl
        ]
  ]

  -- Over bytes, decoding gives what the format's reader gives for the bits of the bytes, whether it
  -- ends with coefficients or with an error.
  pub decode_falcon_sig-parse : (n : ℕ) → decode_falcon_sig d n ≡ parse n (stream d)
  unfolding decode_falcon_sig
  decode_falcon_sig-parse n =
      sig_loop-parse n (record { acc = 0; acc_len = 0; buf_idx = 0 }) (omega arith)
      ∙ ap (parse n) (unfold view word_bits in refl)
