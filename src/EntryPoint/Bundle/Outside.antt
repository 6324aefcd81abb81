-- ===== src/EntryPoint/Bundle/Outside.antt =====
-- What a call of contracts/core/EntryPoint.sol works on, and what it calls: accounts, paymasters,
-- factories and the beneficiary, which are code of others. They are parameters: each answers from
-- the state that it is called in, and may meanwhile use the entry point's other functions.
use falcon_smart_account.Prelude.{ℕ, ◌+◌, Option, none, some, Bool, true, false, List, [], ◌∷◌}
use falcon_smart_account.Outcome.{Error, Outcome, ok, throws, undecodable_answer}
use falcon_smart_account.EntryPoint.Memory.{CalldataUserOp}
use falcon_smart_account.EntryPoint.Nonce.{Sequences, increment_nonce}
use falcon_smart_account.EntryPoint.Stake.{
  Contract, deposit_to, add_stake, unlock_stake, withdraw_stake, withdraw_to,
}

-- The deposits, stakes and ether of the contract, its nonces, and the state of all else. The code
-- does not read `forced`: it counts the ether that the contract got by no call of it.
pub record Chain (W : Type 0) : Type 0 where
  pub contract : Contract
  pub forced : ℕ
  pub sequences : Sequences
  pub world : W

-- A call of another function of the entry point that the called code makes, with its sender, or
-- ether that is forced on the contract without a call (by a `SELFDESTRUCT` or a block reward). (The
-- handlers are `nonReentrant`, `innerHandleOp` is for the contract itself, and `getSenderAddress`
-- and `delegateAndRevert` always revert.)
pub data Request : Type 0 where
  deposits_for : (account value : ℕ) → Request
  stakes : (sender unstake_delay_sec value : ℕ) → Request
  unlocks_stake : (sender : ℕ) → Request
  takes_stake : (sender : ℕ) (accepts : Bool) → Request
  takes_deposit : (sender amount : ℕ) (accepts : Bool) → Request
  skips_nonce : (sender key : ℕ) → Request
  forces_ether : (value : ℕ) → Request

-- What a request makes of the deposits, at a block's time; `none` if it reverts.
abbrev pub staking : ℕ → Request → Contract → Option Contract
staking now (deposits_for account value) c = deposit_to account value c
staking now (stakes sender delay value) c = add_stake sender delay value c
staking now (unlocks_stake sender) c = unlock_stake sender now c
staking now (takes_stake sender accepts) c = withdraw_stake sender now accepts c
staking now (takes_deposit sender amount accepts) c = withdraw_to sender amount accepts c
staking now (skips_nonce sender key) c = some c
staking now (forces_ether value) c = some (record c { ether = c.ether + value })

abbrev pub sequencing : Request → Sequences → Sequences
sequencing (skips_nonce sender key) m = increment_nonce sender key m
sequencing (deposits_for account value) m = m
sequencing (stakes sender delay value) m = m
sequencing (unlocks_stake sender) m = m
sequencing (takes_stake sender accepts) m = m
sequencing (takes_deposit sender amount accepts) m = m
sequencing (forces_ether value) m = m

abbrev pub forcing : Request → ℕ
forcing (forces_ether value) = value
forcing (deposits_for account value) = 0
forcing (stakes sender delay value) = 0
forcing (unlocks_stake sender) = 0
forcing (takes_stake sender accepts) = 0
forcing (takes_deposit sender amount accepts) = 0
forcing (skips_nonce sender key) = 0

unfoldable pub forced_by : List Request → ℕ
forced_by [] = 0
forced_by (r ∷ rs) = forcing r + forced_by rs

-- A request that reverts changes nothing.
abbrev pub unless_reverted : Contract → Option Contract → Contract
unless_reverted c none = c
unless_reverted c (some c') = c'

unfoldable pub perform : ℕ → List Request → Contract × Sequences → Contract × Sequences
perform now [] p = p
perform now (r ∷ rs) (c, m) = perform now rs (unless_reverted c (staking now r c), sequencing r m)

-- How a call ends: it returned, after requests, in a new state of the world, or it reverted and its
-- effects are gone. What it returned may not decode (`none`).
pub data Ended (W A : Type 0) : Type 0 where
  returned : A → List Request → W → Ended W A
  reverted_call : Ended W A

-- `IPaymaster.PostOpMode`
pub data PostOpMode : Type 0 where
  op_succeeded op_reverted post_op_reverted : PostOpMode

-- The code of others, the block, and the hash of an operation (a hash of OpenZeppelin's domain
-- separator and the ABI encoding).
pub record Outside (W : Type 0) : Type 0 where
  pub timestamp : ℕ
  pub base_fee : ℕ
  pub user_op_hash : CalldataUserOp → ℕ
  pub code_length : ℕ → Chain W → ℕ
  -- `senderCreator().createSender`, with the gas and the init code
  pub create_sender : ℕ → List ℕ → Chain W → Ended W (Option ℕ)
  -- the sender, the gas, the operation, its hash and the missing funds
  pub validate_user_op : ℕ → ℕ → CalldataUserOp → ℕ → ℕ → Chain W → Ended W (Option ℕ)
  -- the paymaster, the gas, the operation, its hash and the prefund; the context and the data
  pub validate_paymaster_user_op :
      ℕ → ℕ → CalldataUserOp → ℕ → ℕ → Chain W → Ended W (Option (List ℕ × ℕ))
  -- `IAccountExecute.executeUserOp.selector`, and its call's encoding
  pub execute_user_op_selector : ℕ
  pub encode_execute_user_op : CalldataUserOp → ℕ → List ℕ
  -- `Exec.call`: the sender, the data and the gas
  pub exec_call : ℕ → List ℕ → ℕ → Chain W → Ended W Unit
  -- the paymaster, the gas, the mode, the context, the cost and the gas price
  pub post_op : ℕ → ℕ → PostOpMode → List ℕ → ℕ → ℕ → Chain W → Ended W Unit
  -- `IAggregator.validateSignatures`, a view: whether it returns, `none` if no code is there
  pub validate_signatures : ℕ → List CalldataUserOp → List ℕ → Chain W → Option Bool
  -- the beneficiary and the amount, which it is sent
  pub receive : ℕ → ℕ → Chain W → Ended W Unit

-- What is measured of one operation: the gas used between two readings of `gasleft()`, what is left
-- for the inner call, and whether that call runs out of gas by itself. (The handler itself running
-- out of gas reverts it as a whole.)
pub record Meter : Type 0 where
  -- `preGas - gasleft()` in `_validatePrepayment`, before and after the paymaster's validation, and
  -- in `_validatePaymasterPrepayment`
  pub verification : ℕ
  pub prepayment : ℕ
  pub paymaster_verification : ℕ
  -- `gasleft()` at the start of `innerHandleOp`, `preGas - gasleft()` at its end, the same in
  -- `_postExecution`, and whether the inner call dies
  pub inner_gas_left : ℕ
  pub inner : ℕ
  pub inner_post : ℕ
  pub inner_dies : Bool
  -- `preGas - gasleft()` in `_executeUserOp` and the `_postExecution` that it calls
  pub outer : ℕ
  pub outer_post : ℕ

-- Code that reads and writes the chain, and reverts by throwing.
abbrev pub Code : Type 0 → Type 0 → Type 0
Code W A = Chain W → Outcome (A × Chain W)

abbrev pub continue :
    {W A B : Type 0} → (A → Code W B) → Outcome (A × Chain W) → Outcome (B × Chain W)
continue next (ok (a, s)) = next a s
continue next (throws e) = throws e

infixl 5 ◌>>=◌
unfoldable pub ◌>>=◌ : {W A B : Type 0} → Code W A → (A → Code W B) → Code W B
first >>= next = λ s. continue next (first s)

unfoldable pub return : {W A : Type 0} → A → Code W A
return a s = ok (a, s)

unfoldable pub lift : {W A : Type 0} → Outcome A → Code W A
lift (ok a) s = ok (a, s)
lift (throws e) s = throws e

-- `if (!condition) revert`, and code that does not always run.
unfoldable pub expect : {W : Type 0} → Bool → Error → Code W Unit
expect true e s = ok (tt, s)
expect false e s = throws e

-- The chain after code of others, and the requests that it made.
abbrev pub after_call : {W : Type 0} → ℕ → List Request → W → Chain W → Chain W
after_call now requests w s =
    let (c, m) = perform now requests (s.contract, s.sequences) in
    record { contract = c; forced = s.forced + forced_by requests; sequences = m; world = w }

abbrev pub answered : {W A : Type 0} → ℕ → Error → Ended W A → Chain W → Outcome (A × Chain W)
answered now e (returned a requests w) s = ok (a, after_call now requests w s)
answered now e reverted_call s = throws e

-- A call of others' code, and what is thrown if it reverts.
unfoldable pub calling : {W A : Type 0} → Outside W → Error → (Chain W → Ended W A) → Code W A
calling o e call s = answered o.timestamp e (call s) s

abbrev pub decoded : {W A : Type 0} → Option A → Code W A
decoded none s = throws undecodable_answer
decoded (some a) s = ok (a, s)

-- A call whose answer is decoded.
unfoldable pub asking :
    {W A : Type 0} → Outside W → Error → (Chain W → Ended W (Option A)) → Code W A
unfolding calling ◌>>=◌
asking o e call = calling o e call >>= decoded
