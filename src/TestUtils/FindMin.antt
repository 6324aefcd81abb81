-- ===== src/TestUtils/FindMin.antt =====
-- `findMin` of test/testutils.ts: bisection between a value where a test fails and one where it
-- passes. The test answers the same each time it is asked.
use native.Mathlib.Decide.{dec_le}
use falcon_smart_account.Prelude.{
  ℕ, zero, suc, ◌+◌, ◌-◌, ◌/◌, ◌≤◌, ◌<◌, ◌≡◌, ◌≢◌, ap, refl, Option, none, some, Bool, true, false,
  ltb, arith, Bool-cases, inl, inr, if◌then◌else◌,
}
use falcon_smart_account.Outcome.{Outcome, ok, throws, already_true_at_min, false_at_max}

-- `Math.abs(max - min)`
abbrev distance : ℕ → ℕ → ℕ
distance a b = a - b + (b - a)

-- The endless loop, with fuel; `none` means that the fuel ran out.
unfoldable pub bisect : ℕ → (ℕ → Bool) → ℕ → ℕ → ℕ → Option ℕ
bisect zero test min max delta = none
bisect (suc fuel) test min max delta =
    let avg = (max + min) / 2 in
    let lower = bisect fuel test min avg delta in
    let upper = bisect fuel test avg max delta in
    if test avg
    then (if ltb (distance avg min) delta then some avg else lower)
    else (if ltb (distance max avg) delta then some max else upper)

unfoldable pub find_min : ℕ → (ℕ → Bool) → ℕ → ℕ → ℕ → Outcome (Option ℕ)
find_min fuel test min max delta =
    let found = bisect fuel test min max delta in
    if test min
    then throws already_true_at_min
    else (if test max then ok found else throws false_at_max)

-- The test passes at `r`, and fails at a value less than `delta` below it.
pub record IsFound (test : ℕ → Bool) (min max delta r : ℕ) : Type 0 where
  pub low : ℕ
  pub fails : test low ≡ false
  pub passes : test r ≡ true
  pub above_min : min ≤ low
  pub order : low < r
  pub below_max : r ≤ max
  pub close : r < low + delta

module _ (test : ℕ → Bool) (delta : ℕ) where
  -- A range that passes in the middle and fails at its start is not empty below the middle.
  middle-ne : (min avg : ℕ) → test avg ≡ true → test min ≡ false → min ≢ avg
  middle-ne min avg pass lo eq = cc (ap test eq)

  widen_max :
      {min max max' r : ℕ}
      → IsFound test min max' delta r
      → max' ≤ max
      → IsFound test min max delta r
  widen_max found le = record {
    low = found.low;
    fails = found.fails;
    passes = found.passes;
    above_min = found.above_min;
    order = found.order;
    below_max = omega (arith, found.below_max);
    close = found.close;
  }

  widen_min :
      {min max min' r : ℕ}
      → IsFound test min' max delta r
      → min ≤ min'
      → IsFound test min max delta r
  widen_min found le = record {
    low = found.low;
    fails = found.fails;
    passes = found.passes;
    above_min = omega (arith, found.above_min);
    order = found.order;
    below_max = found.below_max;
    close = found.close;
  }

  bisect_lem :
      (fuel min max : ℕ)
      → 2 ≤ delta
      → min < max
      → max ≤ min + fuel
      → test min ≡ false
      → test max ≡ true
      → (r : ℕ) × (bisect fuel test min max delta ≡ some r) × IsFound test min max delta r
  unfolding bisect
  bisect_lem zero min max d lt f lo hi = absurd (omega arith)
  bisect_lem (suc fuel) min max d lt f lo hi = elim (Bool-cases (test ((max + min) / 2))) [
    | inl pass ↦ elim (Bool-cases (ltb (distance ((max + min) / 2) min) delta)) [
      | inl done ↦ (
        (max + min) / 2,
        rw (pass, done),
        record {
          low = min;
          fails = lo;
          passes = pass;
          above_min = omega arith;
          order = ground (arith, middle-ne min ((max + min) / 2) pass lo);
          below_max = omega arith;
          close = ground arith;
        },
      )
      | inr more ↦
          let (r, eq, found) =
            bisect_lem fuel min ((max + min) / 2) d
              (ground (arith, middle-ne min ((max + min) / 2) pass lo)) (ground arith) lo pass in
          (r, rw (pass, more) eq, widen_max found (omega arith))
    ]
    | inr fail ↦ elim (Bool-cases (ltb (distance max ((max + min) / 2)) delta)) [
      | inl done ↦ (
        max,
        rw (fail, done),
        record {
          low = (max + min) / 2;
          fails = fail;
          passes = hi;
          above_min = omega arith;
          order = omega arith;
          below_max = omega arith;
          close = ground arith;
        },
      )
      | inr more ↦
          let (r, eq, found) =
            bisect_lem fuel ((max + min) / 2) max d (ground arith) (ground arith) fail hi in
          (r, rw (fail, more) eq, widen_min found (omega arith))
    ]
  ]

  -- With a delta of two or more, a test that fails at `min` and passes at a greater `max`, and
  -- fuel for as many rounds as the range is wide, the search returns a value where the test passes,
  -- less than delta above a value where it fails.
  pub find_min-IsFound :
      (fuel min max : ℕ)
      → 2 ≤ delta
      → min < max
      → max ≤ min + fuel
      → test min ≡ false
      → test max ≡ true
      → (r : ℕ) × (find_min fuel test min max delta ≡ ok (some r)) × IsFound test min max delta r
  unfolding find_min
  find_min-IsFound fuel min max d lt f lo hi =
      let (r, eq, found) = bisect_lem fuel min max d lt f lo hi in (r, rw (lo, hi, eq), found)

  -- If moreover the test passes above wherever it passes, then no value where it passes lies delta
  -- or more below the result of the search.
  find_min-least :
      (monotone : (a b : ℕ) → a ≤ b → test a ≡ true → test b ≡ true) (fuel min max v : ℕ)
      → 2 ≤ delta
      → min < max
      → max ≤ min + fuel
      → test min ≡ false
      → test max ≡ true
      → test v ≡ true
      → (r : ℕ) × (find_min fuel test min max delta ≡ ok (some r)) × (r < v + delta)
  find_min-least monotone fuel min max v d lt f lo hi pass =
      let (r, eq, found) = find_min-IsFound fuel min max d lt f lo hi in
      (
        r,
        eq,
        elim (dec_le found.low v) [
          | yes above ↦ omega (arith, found.close)
          | no below ↦ absurd (cc (monotone v found.low (omega arith) pass, found.fails))
        ],
      )

  -- Over whole numbers: with a delta of 0 or 1, and a test that fails at `min` and passes at a
  -- greater `max`, the loop never ends: no fuel is enough.
  pub bisect-endless :
      (fuel min max : ℕ)
      → delta ≤ 1
      → min < max
      → test min ≡ false
      → test max ≡ true
      → bisect fuel test min max delta ≡ none
  unfolding bisect
  bisect-endless zero min max d lt lo hi = refl
  bisect-endless (suc fuel) min max d lt lo hi = elim (Bool-cases (test ((max + min) / 2))) [
    | inl pass ↦
        ground (
          arith,
          middle-ne min ((max + min) / 2) pass lo,
          bisect-endless fuel min ((max + min) / 2),
        )
    | inr fail ↦ ground (arith, bisect-endless fuel ((max + min) / 2) max)
  ]
