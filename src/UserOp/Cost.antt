-- ===== src/UserOp/Cost.antt =====
-- The cost of bytes as call data (`callDataCost` of test/testutils.ts, and the same sum in
-- src/Create2Factory.ts).
use falcon_smart_account.Prelude.{ℕ, ◌+◌, List, [], ◌∷◌, map, ◌==◌, if◌then◌else◌}
use falcon_smart_account.Outcome.{Outcome, ok, throws, reduce_of_empty}

-- `array.map(x => x === 0 ? 4 : 16).reduce((sum, x) => sum + x)`, which throws on no bytes.
byte_cost : ℕ → ℕ
byte_cost x = if x == 0 then 4 else 16

sum_from : ℕ → List ℕ → ℕ
sum_from acc [] = acc
sum_from acc (x ∷ xs) = sum_from (acc + x) xs

unfoldable pub bytes_cost : List ℕ → Outcome ℕ
unfolding byte_cost sum_from
bytes_cost [] = throws reduce_of_empty
bytes_cost (x ∷ xs) = ok (sum_from (byte_cost x) (map byte_cost xs))
