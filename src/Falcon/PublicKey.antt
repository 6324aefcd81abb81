-- ===== src/Falcon/PublicKey.antt =====
-- `decodePk` of scripts/anvil-falcon-tx.ts: 512 coefficients of 14 bits from the bytes behind the
-- header byte.
pub mod Value
use falcon_smart_account.Prelude.{
  ℕ, zero, suc, ◌+◌, ◌-◌, ◌*◌, ◌/◌, ◌%◌, ◌^◌, ◌≤◌, ◌<◌, ◌≡◌, refl, sym, ap, ◌∙◌, List, [], ◌∷◌, ltb,
  arith, if◌then◌else◌, AllBytes, All, length,
}
use falcon_smart_account.Falcon.Word.{shift_in, shift_right, shift_right-word, byte_at, byte_at-lt}

-- The loop's variables `acc`, `accLen` and `bufIdx`.
pub record Bits : Type 0 where
  pub acc : ℕ
  pub acc_len : ℕ
  pub buf_idx : ℕ

unfoldable pub next_byte : List ℕ → Bits → Bits
next_byte d s = record {
  acc = shift_in s.acc (byte_at d s.buf_idx);
  acc_len = s.acc_len + 8;
  buf_idx = suc s.buf_idx;
}

-- `while (accLen < 14) …`, which two bytes always end.
unfoldable pub refill : ℕ → List ℕ → Bits → Bits
refill zero d s = s
refill (suc fuel) d s = if ltb s.acc_len 14 then refill fuel d (next_byte d s) else s

unfoldable pub decode : ℕ → List ℕ → Bits → List ℕ
decode zero d s = []
decode (suc n) d s =
    let s1 = refill 2 d s in
    shift_right s1.acc (s1.acc_len - 14) % 2 ^ 14
    ∷ decode n d (record s1 { acc_len = s1.acc_len - 14 })

unfoldable pub decode_pk : List ℕ → List ℕ
unfolding decode
decode_pk d = decode 512 d (record { acc = 0; acc_len = 0; buf_idx = 1 })
