-- ===== src/Js/Number.antt =====
-- Doubles that hold whole numbers: 53 bits of mantissa, ties to even.
use falcon_smart_account.Prelude.{
  ℕ, zero, suc, ◌+◌, ◌*◌, ◌/◌, ◌%◌, ◌^◌, ◌≤◌, ◌≡◌, refl, ltb, ◌==◌, leb, le→leb, if◌then◌else◌,
}

-- n / 2 rounded to the even neighbour of a tie, given the bits that were cut off.
round_half_even : ℕ → ℕ → ℕ → ℕ
round_half_even q r half = if ltb r half then q else (if r == half then q + q % 2 else q + 1)

-- The double nearest to `n`, at the first scale 2 ^ e where 53 bits hold it.
to_number_at : ℕ → ℕ → ℕ → ℕ
to_number_at zero e n = n
to_number_at (suc f) e n =
    let wider = to_number_at f (e + 1) n in
    if ltb (n / 2 ^ e) 9007199254740992
    then round_half_even (n / 2 ^ e) (n % 2 ^ e) (2 ^ e / 2) * 2 ^ e
    else wider

-- The value of a whole number below 2 ^ 1023 as a JavaScript number.
pub round_large : ℕ → ℕ
unfolding to_number_at round_half_even
round_large n = to_number_at 1024 1 n

unfoldable pub to_number : ℕ → ℕ
to_number n = if leb n 9007199254740992 then n else round_large n

pub to_number_exact : (n : ℕ) → n ≤ 9007199254740992 → to_number n ≡ n
unfolding to_number
to_number_exact n h = rw (le→leb n 9007199254740992 h)

to_number_rounds : to_number 9007199254740993 ≡ 9007199254740992
unfolding to_number round_large
to_number_rounds = refl

to_number_rounds_up : to_number 9007199254740995 ≡ 9007199254740996
unfolding to_number round_large
to_number_rounds_up = refl
