-- ===== src/EntryPoint/Nonce/Next.antt =====
-- `getNonce` of contracts/core/NonceManager.sol gives the nonce that is accepted next.
use falcon_smart_account.Prelude.{ℕ, ◌+◌, ◌-◌, ◌*◌, ◌%◌, ◌^◌, ◌<◌, ◌≡◌, true, arith, ==-refl}
use falcon_smart_account.Prelude.Bits.{bit_or-disjoint}
use falcon_smart_account.EntryPoint.Nonce.{
  Sequences, increment, get_nonce, validate_and_update_nonce, key_of, seq_of,
}

get_nonce-sum :
    (sender key : ℕ) (m : Sequences)
    → key < 2 ^ 192
    → m sender key < 2 ^ 64
    → get_nonce sender key m ≡ m sender key + key * 2 ^ 64
unfolding get_nonce
get_nonce-sum sender key m k s =
    let whole : key * 2 ^ 64 % 2 ^ 256 ≡ key * 2 ^ 64 = omega arith in
    rw (whole) (bit_or-disjoint 64 (m sender key) key s)

-- For a key of 192 bits and a sequence number below 2 ^ 64 - 1, the nonce that is read is made of
-- these two; it is accepted, and the nonce that is read after that is the next number.
pub validate-get_nonce :
    (sender key : ℕ) (m : Sequences)
    → key < 2 ^ 192
    → m sender key < 2 ^ 64 - 1
    → let nonce = get_nonce sender key m in
      let (accepted, m') = validate_and_update_nonce sender nonce m in
      (key_of nonce ≡ key)
      × (seq_of nonce ≡ m sender key)
      × (accepted ≡ true)
      × (get_nonce sender key m' ≡ nonce + 1)
unfolding validate_and_update_nonce increment
validate-get_nonce sender key m k s =
    let sum = get_nonce-sum sender key m k (omega (arith, s)) in
    let next = get_nonce-sum sender key (increment sender key m) k (ground arith) in
    let same_key : key_of (get_nonce sender key m) ≡ key = omega (arith, sum, s, k) in
    let same_seq : seq_of (get_nonce sender key m) ≡ m sender key = omega (arith, sum, s) in
    let more : increment sender key m sender key ≡ m sender key + 1 = ground arith in
    (
      same_key,
      same_seq,
      rw (same_key, same_seq) (==-refl (m sender key)),
      rw (same_key) (omega (arith, next, sum, more)),
    )
