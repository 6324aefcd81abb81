-- ===== src/EntryPoint/Nonce.antt =====
-- contracts/core/NonceManager.sol: a sequence number for each sender and key.
pub mod Grows
pub mod Next
use falcon_smart_account.Prelude.{
  ℕ, ◌+◌, ◌*◌, ◌/◌, ◌%◌, ◌^◌, bit_or, Bool, ◌&&◌, ◌==◌, if◌then◌else◌,
}

-- `nonceSequenceNumber`
abbrev pub Sequences : Type 0
Sequences = ℕ → ℕ → ℕ

-- `nonceSequenceNumber[sender][key]++`
unfoldable pub increment : ℕ → ℕ → Sequences → Sequences
increment sender key m s k = if (s == sender) && (k == key) then m s k + 1 else m s k

abbrev pub key_of : ℕ → ℕ
key_of nonce = nonce / 2 ^ 64 % 2 ^ 192

abbrev pub seq_of : ℕ → ℕ
seq_of nonce = nonce % 2 ^ 64

-- `getNonce`: the next nonce of a sender and key
unfoldable pub get_nonce : ℕ → ℕ → Sequences → ℕ
get_nonce sender key m = bit_or (m sender key) (key * 2 ^ 64 % 2 ^ 256)

-- `incrementNonce`, called by the sender
unfoldable pub increment_nonce : ℕ → ℕ → Sequences → Sequences
unfolding increment
increment_nonce sender key m = increment sender key m

-- `_validateAndUpdateNonce`
unfoldable pub validate_and_update_nonce : ℕ → ℕ → Sequences → Bool × Sequences
unfolding increment
validate_and_update_nonce sender nonce m =
    (m sender (key_of nonce) == seq_of nonce, increment sender (key_of nonce) m)
