-- ===== src/EntryPoint/Bundle/Handle.antt =====
-- `handleOps` and `handleAggregatedOps` of contracts/core/EntryPoint.sol: all operations are
-- validated, then all are executed, and the beneficiary gets what was collected.
use falcon_smart_account.Prelude.{
  ℕ, ◌+◌, ◌-◌, ◌%◌, ◌^◌, Option, none, some, Bool, true, false, not, List, [], ◌∷◌, ◌++◌, map,
  length, ltb, leb, ◌==◌, if◌then◌else◌,
}
use falcon_smart_account.Outcome.{
  ok, throws, refused, panic, call_reverted, signature_validation_failed,
}
use falcon_smart_account.EntryPoint.Memory.{CalldataUserOp}
use falcon_smart_account.EntryPoint.Bundle.Outside.{
  Outside, Meter, Code, ◌>>=◌, return, expect, calling,
}
use falcon_smart_account.EntryPoint.Bundle.Validate.{
  UserOpInfo, validate_prepayment, check_validation_data,
}
use falcon_smart_account.EntryPoint.Bundle.Execute.{execute_user_op}

-- The operations of a call, each with what its gas measures.
abbrev pub Ops : Type 0
Ops = List (CalldataUserOp × Meter)

-- A validated operation: its info is filled.
pub record Prepared : Type 0 where
  pub op : CalldataUserOp
  pub meter : Meter
  pub info : UserOpInfo

-- `UserOpsPerAggregator` (contracts/interfaces/IEntryPoint.sol)
pub record UserOpsPerAggregator : Type 0 where
  pub user_ops : Ops
  pub aggregator : ℕ
  pub signature : List ℕ

-- `collected +=`, in an unchecked block and not.
abbrev pub unchecked_sum : {W : Type 0} → ℕ → ℕ → Code W ℕ
unchecked_sum collected cost = return ((collected + cost) % 2 ^ 256)

abbrev pub checked_sum : {W : Type 0} → ℕ → ℕ → Code W ℕ
checked_sum collected cost s =
    if ltb (collected + cost) (2 ^ 256) then ok (collected + cost, s) else throws panic

unfoldable pub send_ether : {W : Type 0} → ℕ → Code W Unit
send_ether amount s =
    if leb amount s.contract.ether
    then ok (
      tt,
      record s {
        contract = record { deposits = s.contract.deposits; ether = s.contract.ether - amount };
      },
    )
    else throws (refused 91)

module _ {W : Type 0} (o : Outside W) where
  -- The validation of one operation, under an index for each of its two checks.
  unfoldable pub validate_one : ℕ → ℕ → ℕ → CalldataUserOp → Meter → Code W Prepared
  unfolding validate_prepayment check_validation_data
  validate_one expected op_index i op meter = do
    v ← validate_prepayment o op_index op meter
    _ ← check_validation_data o i v.0 v.1 expected
    return (record { op = op; meter = meter; info = v.2 })

  -- The validation loop, for one expected aggregator.
  unfoldable pub validate_ops : ℕ → ℕ → ℕ → Ops → Code W (List Prepared)
  unfolding validate_one
  validate_ops expected op_index i [] = return []
  validate_ops expected op_index i ((op, meter) ∷ ops) = do
    p ← validate_one expected op_index i op meter
    ps ← validate_ops expected (op_index + 1) (i + 1) ops
    return (p ∷ ps)

  -- The execution loop.
  unfoldable pub execute_ops : (ℕ → ℕ → Code W ℕ) → ℕ → ℕ → List Prepared → Code W ℕ
  unfolding execute_user_op
  execute_ops sum op_index collected [] = return collected
  execute_ops sum op_index collected (p ∷ ps) = do
    cost ← execute_user_op o op_index p.op p.info p.meter
    total ← sum collected cost
    execute_ops sum (op_index + 1) total ps

  -- `_compensate`
  unfoldable pub compensate : ℕ → ℕ → Code W Unit
  unfolding send_ether
  compensate beneficiary amount = do
    _ ← expect (not (beneficiary == 0)) (refused 90)
    _ ← send_ether amount
    calling o (refused 91) (o.receive beneficiary amount)

  -- `handleOps`
  unfoldable pub handle_ops : Ops → ℕ → Code W Unit
  unfolding validate_ops execute_ops compensate
  handle_ops ops beneficiary = do
    ps ← validate_ops 0 0 0 ops
    collected ← execute_ops unchecked_sum 0 0 ps
    compensate beneficiary collected

  unfoldable pub signature_checked : ℕ → Option Bool → Code W Unit
  signature_checked aggregator none s = throws call_reverted
  signature_checked aggregator (some true) s = ok (tt, s)
  signature_checked aggregator (some false) s = throws (signature_validation_failed aggregator)

  -- The first loop of `handleAggregatedOps`.
  unfoldable pub check_aggregators : List UserOpsPerAggregator → Code W Unit
  unfolding signature_checked
  check_aggregators [] = return tt
  check_aggregators (opa ∷ rest) = do
    _ ← expect (not (opa.aggregator == 1)) (refused 96)
    _ ← if opa.aggregator == 0 then return tt else (λ s.
        signature_checked opa.aggregator
          (o.validate_signatures opa.aggregator (map (λ p. p.0) opa.user_ops) opa.signature s) s)
    check_aggregators rest

  -- The second: `opIndex` goes through all groups, `i` starts anew with each.
  unfoldable pub validate_groups : ℕ → List UserOpsPerAggregator → Code W (List Prepared)
  unfolding validate_ops
  validate_groups op_index [] = return []
  validate_groups op_index (opa ∷ rest) = do
    ps ← validate_ops opa.aggregator op_index 0 opa.user_ops
    qs ← validate_groups (op_index + length opa.user_ops) rest
    return (ps ++ qs)

  -- `handleAggregatedOps`
  unfoldable pub handle_aggregated_ops : List UserOpsPerAggregator → ℕ → Code W Unit
  unfolding check_aggregators validate_groups execute_ops compensate
  handle_aggregated_ops groups beneficiary = do
    _ ← check_aggregators groups
    ps ← validate_groups 0 groups
    collected ← execute_ops checked_sum 0 0 ps
    compensate beneficiary collected
