-- ===== src/Js/Decimal.antt =====
-- The decimal text of a whole number, and the order of texts, which is that of their first
-- differing characters.
use native.Mathlib.Nat.{mul_assoc, pow-suc, pow-succ'}
use mathlib.Core.Logic.{◌↔◌}
use mathlib.Core.Path.{subst}
use falcon_smart_account.Prelude.{
  ℕ, zero, suc, ◌+◌, ◌-◌, ◌*◌, ◌/◌, ◌%◌, ◌^◌, ◌≤◌, ◌<◌, ◌≡◌, refl, sym, ap, ap₂, ◌∙◌, ◌⊎◌, inl, inr,
  Bool, true, false, Bool-cases, [], ◌∷◌, ◌++◌, arith, replicate, All, All-append, ltb,
  if◌then◌else◌,
}
use falcon_smart_account.Js.{Str}

digits_of : ℕ → ℕ → Str
digits_of zero n = (48 + n % 10) ∷ []
digits_of (suc fuel) n =
    let high = digits_of fuel (n / 10) in
    if ltb n 10 then (48 + n) ∷ [] else high ++ ((48 + n % 10) ∷ [])

-- `toString()` of a `BigNumber`; a number has fewer digits than it counts.
unfoldable pub decimal : ℕ → Str
unfolding digits_of
decimal n = digits_of n n

-- `x < y` of texts
unfoldable pub text_lt : Str → Str → Bool
text_lt [] [] = false
text_lt [] (y ∷ ys) = true
text_lt (x ∷ xs) [] = false
text_lt (x ∷ xs) (y ∷ ys) =
    let rest = text_lt xs ys in if ltb x y then true else (if ltb y x then false else rest)

-- The number that decimal digits say.
value : ℕ → Str → ℕ
value acc [] = acc
value acc (c ∷ cs) = value (acc * 10 + (c - 48)) cs

value-append : (acc : ℕ) (xs ys : Str) → value acc (xs ++ ys) ≡ value (value acc xs) ys
unfolding value
value-append acc [] ys = refl
value-append acc (x ∷ xs) ys = value-append (acc * 10 + (x - 48)) xs ys

value-digits_of : (fuel n : ℕ) → n ≤ fuel → value 0 (digits_of fuel n) ≡ n
unfolding value digits_of
value-digits_of zero n h = omega arith
value-digits_of (suc fuel) n h = elim (Bool-cases (ltb n 10)) [
  | inl one ↦ rw (one) (omega arith)
  | inr more ↦ rw (more) (
      omega (
        arith,
        value-append 0 (digits_of fuel (n / 10)) ((48 + n % 10) ∷ []),
        value-digits_of fuel (n / 10) (ground arith),
      ))
]

-- A digit, and a first digit.
abbrev IsDigit : ℕ → Type 0
IsDigit c = (48 ≤ c) × (c ≤ 57)

abbrev IsNumeral : Str → Type 0
IsNumeral s = (c : ℕ) × (cs : Str) × (s ≡ c ∷ cs) × (49 ≤ c) × All IsDigit cs

digits_of-IsNumeral : (fuel n : ℕ) → n ≤ fuel → 0 < n → IsNumeral (digits_of fuel n)
unfolding digits_of
digits_of-IsNumeral zero n h p = absurd (omega arith)
digits_of-IsNumeral (suc fuel) n h p = elim (Bool-cases (ltb n 10)) [
  | inl one ↦ rw (one) (48 + n, [], refl, omega arith, tt)
  | inr more ↦
      let (c, cs, eq, first, rest) =
        digits_of-IsNumeral fuel (n / 10) (ground arith) (ground arith) in
      rw (more, eq)
        (
          c,
          cs ++ ((48 + n % 10) ∷ []),
          refl,
          first,
          All-append IsDigit cs ((48 + n % 10) ∷ []) rest ((omega arith, omega arith), tt),
        )
]

first_not_less :
    (x y : ℕ) (rest : Bool)
    → y ≤ x
    → (if ltb x y then true else (if ltb y x then false else rest)) ≡ true
    → (x ≡ y) × (rest ≡ true)
first_not_less x y rest h lt = ground arith

-- Texts of digits below a text of zeros are shorter texts of zeros.
zeros-text_lt :
    (cs : Str) (k : ℕ)
    → All IsDigit cs
    → text_lt cs (replicate k 48) ≡ true
    → (j : ℕ) × (j < k) × (cs ≡ replicate j 48)
unfolding text_lt
zeros-text_lt [] zero h lt = cc
zeros-text_lt [] (suc k) h lt = (0, omega arith, refl)
zeros-text_lt (c ∷ cs) zero h lt = cc
zeros-text_lt (c ∷ cs) (suc k) h lt =
    let (same, rest) = first_not_less c 48 (text_lt cs (replicate k 48)) h.0.0 lt in
    let (j, less, eq) = zeros-text_lt cs k h.1 rest in
    (suc j, omega (arith, less), ap₂ (λ d ds. d ∷ ds) same eq)

text_lt-zeros : (j k : ℕ) → j < k → text_lt (replicate j 48) (replicate k 48) ≡ true
unfolding text_lt
text_lt-zeros zero zero h = absurd (omega arith)
text_lt-zeros zero (suc k) h = refl
text_lt-zeros (suc j) zero h = absurd (omega arith)
text_lt-zeros (suc j) (suc k) h = text_lt-zeros j k (omega arith)

value-zeros : (acc j : ℕ) → value acc (replicate j 48) ≡ acc * 10 ^ j
unfolding value
value-zeros acc zero = omega arith
value-zeros acc (suc j) =
    let plain : acc * 10 + 0 ≡ acc * 10 = omega arith in
    ap (λ a. value a (replicate j 48)) plain
    ∙ value-zeros (acc * 10) j
    ∙ rw (pow-succ' 10 j) (mul_assoc acc 10 (10 ^ j))

pow_pos : (j : ℕ) → 0 < 10 ^ j
pow_pos zero = omega arith
pow_pos (suc j) = omega (arith, pow-suc 10 j, pow_pos j)

one_more_zero : (f m : ℕ) → 0 < m → digits_of (suc f) (m * 10) ≡ digits_of f m ++ (48 ∷ [])
unfolding digits_of
one_more_zero f m h =
    let large : ltb (m * 10) 10 ≡ false = ground arith in
    let high : m * 10 / 10 ≡ m = omega arith in
    let low : m * 10 % 10 ≡ 0 = omega arith in rw (large, high, low) refl

replicate_last : (j : ℕ) → ◌++◌ {A = ℕ} (replicate j 48) (48 ∷ []) ≡ replicate (suc j) 48
replicate_last zero = refl
replicate_last (suc j) = ap (λ l. 48 ∷ l) (replicate_last j)

-- A power of ten is a one and zeros.
decimal_power : (f j : ℕ) → 10 ^ j ≤ f → digits_of f (10 ^ j) ≡ 49 ∷ replicate j 48
unfolding digits_of
decimal_power zero j h = absurd (omega (arith, pow_pos j))
decimal_power (suc f) zero h = refl
decimal_power (suc f) (suc j) h =
    let ten : 10 ^ suc j ≡ 10 ^ j * 10 = pow-suc 10 j in
    rw (ten) (
      one_more_zero f (10 ^ j) (pow_pos j)
      ∙ rw (decimal_power f j (omega (arith, ten, pow_pos j)))
          (ap (λ l. 49 ∷ l) (replicate_last j)))

power_of_zeros :
    (n : ℕ) (cs : Str) → n ≡ value 0 (49 ∷ cs) → (j : ℕ) → cs ≡ replicate j 48 → n ≡ 10 ^ j
unfolding value
power_of_zeros n cs h j eq = h ∙ ap (value 1) eq ∙ value-zeros 1 j ∙ omega arith

power_below :
    (n k : ℕ)
    → 0 < n
    → text_lt (digits_of n n) (49 ∷ replicate k 48) ≡ true
    → (j : ℕ) × (j < k) × (n ≡ 10 ^ j)
unfolding text_lt
power_below n k p lt =
    let (c, cs, eq, first, digits) = digits_of-IsNumeral n n (omega arith) p in
    let lt1 : text_lt (c ∷ cs) (49 ∷ replicate k 48) ≡ true =
      subst (λ t. text_lt t (49 ∷ replicate k 48) ≡ true) eq lt in
    let (same, rest) = first_not_less c 49 (text_lt cs (replicate k 48)) first lt1 in
    let (j, less, zeros) = zeros-text_lt cs k digits rest in
    let said : n ≡ value 0 (49 ∷ cs) =
      sym (value-digits_of n n (omega arith)) ∙ ap (value 0) (eq ∙ ap (λ d. d ∷ cs) same) in
    (j, less, power_of_zeros n cs said j zeros)

-- The text of a number comes before the text of a power of ten exactly when the number is 0 or a
-- smaller power of ten.
pub decimal-text_lt :
    (n k : ℕ)
    → (text_lt (decimal n) (decimal (10 ^ k)) ≡ true)
      ↔ ((n ≡ 0) ⊎ ((j : ℕ) × (j < k) × (n ≡ 10 ^ j)))
unfolding decimal text_lt digits_of
decimal-text_lt n k = rw (decimal_power (10 ^ k) k (omega arith)) (forth n, back)
  where
    forth :
        (m : ℕ)
        → text_lt (digits_of m m) (49 ∷ replicate k 48) ≡ true
        → (m ≡ 0) ⊎ ((j : ℕ) × (j < k) × (m ≡ 10 ^ j))
    forth zero lt = inl refl
    forth (suc m) lt = inr (power_below (suc m) k (omega arith) lt)

    back :
        (n ≡ 0) ⊎ ((j : ℕ) × (j < k) × (n ≡ 10 ^ j))
        → text_lt (digits_of n n) (49 ∷ replicate k 48) ≡ true
    back (inl none) = rw (none) refl
    back (inr (j, less, eq)) =
        rw (eq, decimal_power (10 ^ j) j (omega arith)) (text_lt-zeros j k less)
