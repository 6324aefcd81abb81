-- ===== src/Falcon/LowFirst.antt =====
-- The readers that take a key's bytes from their low bits up: `decodePk` of decode-falcon.js and
-- `decodePk14bit` of investigate.js, with what the latter finds in a signature's header.
pub mod Value
use falcon_smart_account.Prelude.{
  ℕ, zero, suc, ◌+◌, ◌-◌, ◌*◌, ◌/◌, ◌%◌, ◌^◌, List, [], ◌∷◌, ltb, length, take, drop, if◌then◌else◌,
}
use falcon_smart_account.Falcon.Word.{byte_at}

-- `bitBuf`, `bitCount` and `byteIdx`
pub record Buffer : Type 0 where
  pub bit_buf : ℕ
  pub bit_count : ℕ
  pub byte_idx : ℕ

-- `bitBuf |= pkBytes[byteIdx++] << bitCount`: the byte's bits are above those of the buffer, and
-- stay below 2 ^ 31 when a coefficient has up to 24 bits (it has 14 in every call).
unfoldable pub add_byte : List ℕ → Buffer → Buffer
add_byte d s = record {
  bit_buf = s.bit_buf + byte_at d s.byte_idx * 2 ^ s.bit_count;
  bit_count = s.bit_count + 8;
  byte_idx = suc s.byte_idx;
}

-- `while (bitCount < logq) …`, which at most `logq` bytes end.
unfoldable pub fill : ℕ → ℕ → List ℕ → Buffer → Buffer
fill zero logq d s = s
fill (suc fuel) logq d s =
    let filled = fill fuel logq d (add_byte d s) in if ltb s.bit_count logq then filled else s

unfoldable pub low_first : ℕ → ℕ → List ℕ → Buffer → List ℕ
low_first zero logq d s = []
low_first (suc n) logq d s =
    let s1 = fill logq logq d s in
    s1.bit_buf % 2 ^ logq
    ∷ low_first n logq d
        (record s1 { bit_buf = s1.bit_buf / 2 ^ logq; bit_count = s1.bit_count - logq })

-- `decodePk(pkBytes, n, logq)` of decode-falcon.js
unfoldable pub decode_pk : List ℕ → ℕ → ℕ → List ℕ
decode_pk pk_bytes n logq =
    low_first n logq pk_bytes (record { bit_buf = 0; bit_count = 0; byte_idx = 1 })

-- `decodePk14bit(pkBytes, n)` of investigate.js
unfoldable pub decode_pk_14bit : List ℕ → ℕ → List ℕ
unfolding decode_pk
decode_pk_14bit pk_bytes n = decode_pk pk_bytes n 14

-- What investigate.js prints of a signature, given the kernel's number of nonce bytes.
pub record Structure : Type 0 where
  pub sig_len : ℕ
  pub sig_len_le : ℕ
  pub nonce : List ℕ
  pub comp_sig : List ℕ
  pub logn : ℕ
  pub enc_type : ℕ
  pub ring_size : ℕ

unfoldable pub inspect : ℕ → List ℕ → Structure
inspect nonce_byte sign_msg =
    let comp_sig = drop (2 + nonce_byte) sign_msg in
    let header = byte_at comp_sig 0 in
    record {
      sig_len = byte_at sign_msg 0 * 256 + byte_at sign_msg 1;
      sig_len_le = byte_at sign_msg 0 + byte_at sign_msg 1 * 256;
      nonce = take nonce_byte (drop 2 sign_msg);
      comp_sig = comp_sig;
      logn = header % 16;
      enc_type = header / 16 % 16;
      ring_size = 2 ^ (header % 16);
    }
