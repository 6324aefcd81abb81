-- ===== src/Prelude/Digits.antt =====
-- Big-endian byte strings and the numbers that they stand for.
use native.Mathlib.Nat.{
  div-add-mod', mod-lt, pow-suc, one-le-pow, div-lt_iff_lt-mul, mul-add-div_right, div-eq_of_lt,
  mul-add-mod_self_right, mod-eq_of_lt, mul-le-mul_right, add-zero, mul_comm,
}
use falcon_smart_account.Prelude.{
  ℕ, zero, suc, ◌+◌, ◌*◌, ◌/◌, ◌%◌, ◌^◌, ◌<◌, ◌≡◌, refl, ap, ◌∙◌, List, [], ◌∷◌, ◌++◌, arith,
  length, AllBytes,
}

-- The number of a byte string, the most significant byte first, behind `acc`.
unfoldable pub be_value : ℕ → List ℕ → ℕ
be_value acc [] = acc
be_value acc (b ∷ bs) = be_value (acc * 256 + b) bs

-- The `k` bytes of a number below 256 ^ k.
unfoldable pub be_bytes : ℕ → ℕ → List ℕ
be_bytes zero n = []
be_bytes (suc k) n = n / 256 ^ k ∷ be_bytes k (n % 256 ^ k)

pow_pos : (k : ℕ) → 0 < 256 ^ k
pow_pos k = one-le-pow k 256 (omega arith)

pub length-be_bytes : (k n : ℕ) → length (be_bytes k n) ≡ k
unfolding be_bytes
length-be_bytes zero n = refl
length-be_bytes (suc k) n = ap suc (length-be_bytes k (n % 256 ^ k))

pub be_bytes-AllBytes : (k n : ℕ) → n < 256 ^ k → AllBytes (be_bytes k n)
unfolding be_bytes
be_bytes-AllBytes zero n h = tt
be_bytes-AllBytes (suc k) n h = (
  (div-lt_iff_lt-mul (pow_pos k)).1 (omega (arith, pow-suc 256 k)),
  be_bytes-AllBytes k (n % 256 ^ k) (mod-lt n (pow_pos k)),
)

pub be_value-be_bytes :
    (k n acc : ℕ) → n < 256 ^ k → be_value acc (be_bytes k n) ≡ acc * 256 ^ k + n
unfolding be_value be_bytes
be_value-be_bytes zero n acc h = omega arith
be_value-be_bytes (suc k) n acc h = omega (
  arith,
  be_value-be_bytes k (n % 256 ^ k) (acc * 256 + n / 256 ^ k) (mod-lt n (pow_pos k)),
  div-add-mod' n (256 ^ k),
  ap (λ (t : ℕ). acc * t) (pow-suc 256 k),
)

pub be_value-append :
    (acc : ℕ) (xs ys : List ℕ) → be_value acc (xs ++ ys) ≡ be_value (be_value acc xs) ys
unfolding be_value
be_value-append acc [] ys = refl
be_value-append acc (x ∷ xs) ys = be_value-append (acc * 256 + x) xs ys

be_value-cons : (b : ℕ) (bs : List ℕ) → be_value 0 (b ∷ bs) ≡ be_value b bs
unfolding be_value
be_value-cons b bs = ap (λ (t : ℕ). be_value t bs) (omega arith)

pow-cons : (b : ℕ) (bs : List ℕ) → 256 ^ length (b ∷ bs) ≡ 256 * 256 ^ length bs
pow-cons b bs = pow-suc 256 (length bs) ∙ mul_comm (256 ^ length bs) 256

pub be_value_acc : (acc : ℕ) (bs : List ℕ) → be_value acc bs ≡ acc * 256 ^ length bs + be_value 0 bs
unfolding be_value
be_value_acc acc [] = omega arith
be_value_acc acc (b ∷ bs) = omega (
  arith,
  be_value_acc (acc * 256 + b) bs,
  be_value_acc b bs,
  be_value-cons b bs,
  ap (λ (t : ℕ). acc * t) (pow-cons b bs),
)

pub be_value-lt : (bs : List ℕ) → AllBytes bs → be_value 0 bs < 256 ^ length bs
unfolding be_value
be_value-lt [] h = omega arith
be_value-lt (b ∷ bs) h = omega (
  arith,
  be_value-cons b bs,
  be_value_acc b bs,
  be_value-lt bs h.1,
  pow-cons b bs,
  mul-le-mul_right {m = b} {n = 255} (256 ^ length bs) (omega arith),
)

-- The bytes of the number of a byte string are that string.
pub be_bytes-be_value : (bs : List ℕ) → AllBytes bs → be_bytes (length bs) (be_value 0 bs) ≡ bs
unfolding be_bytes
be_bytes-be_value [] h = refl
be_bytes-be_value (b ∷ bs) h =
    let p = pow_pos (length bs) in
    let small = be_value-lt bs h.1 in
    rw (
      be_value-cons b bs,
      be_value_acc b bs,
      mul-add-div_right p b (be_value 0 bs),
      div-eq_of_lt small,
      mul-add-mod_self_right b (256 ^ length bs) (be_value 0 bs),
      mod-eq_of_lt small,
      be_bytes-be_value bs h.1,
      add-zero,
    )
