-- ===== src/GasCheck/Report.antt =====
-- `GasCheckCollector` of gascalc/GasChecker.ts: the table of the reports and its file. The library
-- that draws tables is a parameter.
pub mod Delta
use falcon_smart_account.Prelude.{
  ℕ, ◌+◌, Option, none, some, Bool, true, false, List, [], ◌∷◌, ◌++◌, map, text_eq, if◌then◌else◌,
}
use falcon_smart_account.Prelude.Int.{ℤ, pos, negsuc, sub_ℕ}
use falcon_smart_account.Js.{Str, codes}
use falcon_smart_account.Outcome.{Outcome, ok, throws, ◌>>=◌}
use falcon_smart_account.GasCheck.Run.{Estimate, Estimates, Difference, number, nan, GasTestResult}

-- A cell of the table; `blank` is the empty string.
pub data Cell : Type 0 where
  text : Str → Cell
  amount : ℕ → Cell
  difference : Difference → Cell
  blank : Cell

abbrev pub Row : Type 0
Row = List Cell

pub record Collector : Type 0 where
  pub entry_point : Str
  pub tab_rows : List Row

-- `initTable(tableHeaders)`
unfoldable pub init_table : List Str → Collector → Collector
init_table table_headers c = record c { tab_rows = map text table_headers ∷ [] }

abbrev pub table_headers : List Str
table_headers =
    codes "handleOps description         "
    ∷ codes "count"
    ∷ codes "total gasUsed"
    ∷ codes "per UserOp gas\n(delta for\none UserOp)"
    ∷ codes "per UserOp overhead\n(compared to\naccount.exec())"
    ∷ []

-- `_init(entryPointAddressOrTest)`, given what deploying an entry point ends with.
unfoldable pub init_collector : Outcome Str → Str → Outcome Collector
init_collector deployed address_or_test =
    (if text_eq address_or_test (codes "test") then deployed else ok address_or_test) >>= λ address.
    ok (init_table table_headers (record { entry_point = address; tab_rows = [] }))

-- `gasDiff - accountEst`
unfoldable pub minus : Difference → ℕ → Difference
minus nan est = nan
minus (number (pos a)) est = number (sub_ℕ a est)
minus (number (negsuc a)) est = number (negsuc (a + est))

-- `addRow(res)`
unfoldable pub row_of : GasTestResult → Row
row_of res = elim res.gas_diff [
  | none ↦ text res.title ∷ amount res.count ∷ amount res.gas_used ∷ blank ∷ blank ∷ []
  | some diff ↦
      text res.title
      ∷ amount res.count
      ∷ blank
      ∷ difference diff
      ∷ difference (minus diff res.account_est)
      ∷ []
]

unfoldable pub add_row : GasTestResult → Collector → Collector
add_row res c = record c { tab_rows = c.tab_rows ++ row_of res ∷ [] }

-- A row of the first table of `doneTable`.
unfoldable pub estimate_row : Str × Estimate → Row
estimate_row (key, est) =
    text (codes "gas estimate \"" ++ est.title ++ codes "\"") ∷ amount est.account_est ∷ []

-- `doneTable`: what the report's file has in place of what it had, given how a table is drawn.
unfoldable pub done_table : (List Row → Str) → Estimates → Collector → List Str
done_table table estimates c =
    map (λ (line : Str). line ++ codes "\n")
      (codes "== gas estimate of direct calling the account's \"execute\" method"
        ∷ codes
            "   the destination is \"account.entryPoint()\", which is known to be \"hot\" address used by this account"
        ∷ codes
            "   it little higher than EOA call: its an exec from entrypoint (or account owner) into account contract, verifying msg.sender and exec to target)"
        ∷ table (map estimate_row estimates)
        ∷ table c.tab_rows
        ∷ [])
