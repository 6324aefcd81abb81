-- ===== src/GasCheck/Accounts.antt =====
-- `createAccounts1` of gascalc/GasChecker.ts: the accounts for a report, created in one bundle and
-- topped up. The chain, the account factory and the entry point are parameters.
use falcon_smart_account.Prelude.{
  ℕ, zero, suc, ◌*◌, none, some, Bool, false, ◌||◌, List, [], ◌∷◌, ◌++◌, text_eq, leb, ◌==◌, length,
  if◌then◌else◌,
}
use falcon_smart_account.Js.{Str}
use falcon_smart_account.Outcome.{Outcome, ok, throws, ◌>>=◌}
use falcon_smart_account.Ethers.{Ethers, address}
use falcon_smart_account.UserOp.Types.{PackedUserOperation, empty_op}
use falcon_smart_account.UserOp.Pack.{pack_user_op}
use falcon_smart_account.UserOp.Fill.{fill_user_op}
use falcon_smart_account.UserOp.Sign.{Wallet, sign_user_op}
use falcon_smart_account.Create2.Address.{number}
use falcon_smart_account.Create2.Deploy.{Chain, exactly, deploy}

-- What the checker asks of others, in a chain's state `W`.
pub record GasBackend (W : Type 0) : Type 0 where
  pub chain : Chain W
  pub owner : Wallet
  pub entry_point : Str
  pub network : Outcome ℕ
  -- `SimpleAccountFactory__factory.bytecode`
  pub factory_bytecode : Str
  -- `getAddress(owner, salt)` of the factory at an address
  pub account_address : W → Str → ℕ → Outcome Str
  pub encode_create_account : Str → ℕ → Str
  pub balance_of : W → Str → ℕ
  pub deposit_to : Str → ℕ → W → Outcome (Unit {0}) × W
  pub handle_ops : List PackedUserOperation → W → Outcome (Unit {0}) × W

-- The fields `createdAccounts` (a set) and the keys of `accounts`, in the order in which they were
-- added.
pub record Checker : Type 0 where
  pub created_accounts : List Str
  pub accounts : List Str

-- `minDepositOrBalance`, 0.1 ether
abbrev pub min_deposit_or_balance : ℕ
min_deposit_or_balance = 100000000000000000

-- `set.has`, and `set.add`, which keeps an element that is there.
abbrev pub has : Str → List Str → Bool
has x [] = false
has x (y ∷ ys) = text_eq x y || has x ys

abbrev pub add : Str → List Str → List Str
add x ys = if has x ys then ys else ys ++ x ∷ []

-- `range(n)`, from an index on.
unfoldable pub range_from : ℕ → ℕ → List ℕ
range_from i zero = []
range_from i (suc n) = i ∷ range_from (suc i) n

unfoldable pub range : ℕ → List ℕ
unfolding range_from
range n = range_from 0 n

module _ (e : Ethers) {W : Type 0} (b : GasBackend W) where
  -- `accountInitCode`
  unfoldable pub account_init_code : Str → ℕ → Str
  account_init_code factory salt =
      e.hex_concat (factory ∷ b.encode_create_account b.owner.wallet_address salt ∷ [])

  -- The operation that creates an account, filled with no entry point.
  unfoldable pub creation_op : Str → ℕ → Str → Outcome PackedUserOperation
  creation_op factory salt account = do
    filled ← fill_user_op e none (record empty_op {
      sender = some account;
      init_code = some (account_init_code factory salt);
      nonce = some 0;
      call_gas_limit = some 30000;
      verification_gas_limit = some 1000000;
      pre_verification_gas = some 1;
      max_fee_per_gas = some 0;
    })
    chain_id ← b.network
    op ← sign_user_op e filled b.owner b.entry_point chain_id
    pack_user_op e op

  -- The operations to create an account: none if it was created before or has code.
  unfoldable pub creation_ops : Str → ℕ → Str → Checker → W → Outcome (List PackedUserOperation)
  creation_ops factory salt account s w =
      let op = creation_op factory salt account in
      if has account s.created_accounts
      then ok []
      else (if length (b.chain.get_code w account) == 2 then (op >>= λ p. ok (p ∷ [])) else ok [])

  -- The deposit of an account whose balance is at most the least.
  unfoldable pub top_up : Str → W → Outcome (Unit {0}) × W
  top_up account w =
      if leb (b.balance_of w account) min_deposit_or_balance
      then b.deposit_to account (min_deposit_or_balance * 5) w
      else (ok tt, w)

  unfoldable pub with_account : Str → Checker → Checker
  with_account account s = record {
    created_accounts = add account s.created_accounts;
    accounts = add account s.accounts;
  }

  -- The loop over the salts, with the operations collected before; on a throw, what it had written.
  unfoldable pub create_loop :
      Str
      → List ℕ
      → List PackedUserOperation
      → Checker
      → W
      → Outcome (List PackedUserOperation) × Checker × W
  create_loop factory [] ops s w = (ok ops, s, w)
  create_loop factory (salt ∷ salts) ops s w = elim (b.account_address w factory salt) [
    | throws err ↦ (throws err, s, w)
    | ok account ↦ elim (creation_ops factory salt account s w) [
      | throws err ↦ (throws err, s, w)
      | ok new ↦
          let (r, w') = top_up account w in
          elim r [
            | throws err ↦ (throws err, with_account account s, w')
            | ok _ ↦ create_loop factory salts (ops ++ new) (with_account account s) w'
          ]
    ]
  ]

  -- The last line: all the operations in one call.
  unfoldable pub send_ops :
      Outcome (List PackedUserOperation) × Checker × W → Outcome (Unit {0}) × Checker × W
  send_ops (throws err, s, w) = (throws err, s, w)
  send_ops (ok ops, s, w) = let (r, w') = b.handle_ops ops w in (r, s, w')

  unfoldable pub after_factory :
      ℕ → Checker → Outcome Str × Bool × W → Outcome (Unit {0}) × Checker × W
  after_factory count s (throws err, _, w) = (throws err, s, w)
  after_factory count s (ok factory, _, w) = send_ops (create_loop factory (range count) [] s w)

  -- `createAccounts1`, with a new `Create2Factory`.
  unfoldable pub create_accounts : ℕ → Checker → W → Outcome (Unit {0}) × Checker × W
  create_accounts count s w = after_factory count s (
      deploy b.chain e
        (e.hex_concat (b.factory_bytecode ∷ e.abi_encode (address b.entry_point ∷ []) ∷ []))
        (number 0) (exactly 2885201) false w)
