-- ===== src/Falcon/Word.antt =====
-- 32-bit words of JavaScript's bit operations, as patterns below 2 ^ 32.
use falcon_smart_account.Prelude.{
  ℕ, zero, suc, ◌+◌, ◌-◌, ◌*◌, ◌/◌, ◌%◌, ◌^◌, ◌<◌, ◌≡◌, List, [], ◌∷◌, ltb, arith, if◌then◌else◌,
  AllBytes,
}

-- `(acc << 8) | byte`
unfoldable pub shift_in : ℕ → ℕ → ℕ
shift_in acc byte = acc * 256 % 2 ^ 32 + byte

-- `acc >> k`, which copies the sign bit.
unfoldable pub shift_right : ℕ → ℕ → ℕ
shift_right acc k =
    if ltb acc (2 ^ 31) then acc / 2 ^ k else acc / 2 ^ k + (2 ^ k - 1) * 2 ^ (32 - k)

-- `data[i]`, where an element that is not there counts as 0 in a bit operation.
unfoldable pub byte_at : List ℕ → ℕ → ℕ
byte_at [] i = 0
byte_at (b ∷ bs) zero = b
byte_at (b ∷ bs) (suc i) = byte_at bs i

pub byte_at-lt : (bs : List ℕ) (i : ℕ) → AllBytes bs → byte_at bs i < 256
unfolding byte_at
byte_at-lt [] i h = omega arith
byte_at-lt (b ∷ bs) zero h = h.0
byte_at-lt (b ∷ bs) (suc i) h = byte_at-lt bs i h.1

-- Fourteen bits above `k` are those of the whole number, though the word keeps 32 bits of it.
pub shift_right-word : (v k : ℕ) → k < 8 → shift_right (v % 2 ^ 32) k % 2 ^ 14 ≡ v / 2 ^ k % 2 ^ 14
unfolding shift_right
shift_right-word v zero h = ground arith
shift_right-word v (suc zero) h = ground arith
shift_right-word v (suc (suc zero)) h = ground arith
shift_right-word v (suc (suc (suc zero))) h = ground arith
shift_right-word v (suc (suc (suc (suc zero)))) h = ground arith
shift_right-word v (suc (suc (suc (suc (suc zero))))) h = ground arith
shift_right-word v (suc (suc (suc (suc (suc (suc zero)))))) h = ground arith
shift_right-word v (suc (suc (suc (suc (suc (suc (suc zero))))))) h = ground arith
shift_right-word v (suc (suc (suc (suc (suc (suc (suc (suc k)))))))) h = absurd (omega arith)
