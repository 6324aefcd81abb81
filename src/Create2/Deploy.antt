-- ===== src/Create2/Deploy.antt =====
-- `deploy`, `deployFactory` and `_isFactoryDeployed` of src/Create2Factory.ts over a chain that
-- answers `getCode` and takes transactions; the chain is a parameter.
use falcon_smart_account.Prelude.{
  ℕ, ◌+◌, ◌*◌, ◌/◌, Bool, true, false, ltb, ◌==◌, length, if◌then◌else◌,
}
use falcon_smart_account.Js.{Str, codes}
use falcon_smart_account.Outcome.{
  Outcome, ok, throws, ◌>>=◌, failed_to_deploy, failed_to_deploy_factory,
}
use falcon_smart_account.Ethers.{Ethers}
use falcon_smart_account.UserOp.Cost.{bytes_cost}
use falcon_smart_account.Create2.Address.{
  Salt, contract_address, get_deployed_address, get_deploy_transaction_call_data,
}

-- What a deployment asks of the signer.
pub record Transaction : Type 0 where
  pub to : Str
  pub call_data : Str
  pub gas_limit : ℕ

-- A chain in the state `W`: its code, and what sending does, mined to the end of `wait()`.
pub record Chain (W : Type 0) : Type 0 where
  -- a string of length 2 ("0x") where there is no code
  pub get_code : W → Str → Str
  pub estimate_gas : W → Str → Str → Outcome ℕ
  pub send_transaction : Transaction → W → Outcome (Unit {0}) × W
  -- the deployment fee to the factory's deployer, then the presigned factory transaction
  pub send_value : Str → ℕ → W → Outcome (Unit {0}) × W
  pub send_raw : Str → W → Outcome (Unit {0}) × W

-- `factoryDeployer`, `factoryTx` and `factoryDeploymentFee` (100e9 * 100000)
abbrev pub factory_deployer : Str
factory_deployer = codes "0x3fab184622dc19b6109349b94811493bf2a45362"

abbrev pub factory_tx : Str
factory_tx =
    codes
      "0xf8a58085174876e800830186a08080b853604580600e600039806000f350fe7fffffffffffffffffffffffffffffffffffffffffffffffffffffffffffffffe03601600081602082378035828234f58015156039578182fd5b8082525050506014600cf31ba02222222222222222222222222222222222222222222222222222222222222222a02222222222222222222222222222222222222222222222222222222222222222"

abbrev pub factory_deployment_fee : ℕ
factory_deployment_fee = 100000000000 * 100000

-- The gas limit that a caller asks for.
pub data GasLimit : Type 0 where
  by_size estimate : GasLimit
  exactly : ℕ → GasLimit

-- The manual estimate: call data, 200 for each character pair, hashing, and the fixed costs; the
-- deployer's share is 64 / 63 of it, rounded down.
unfoldable pub gas_by_size : ℕ → ℕ → ℕ
gas_by_size data_cost characters =
    (data_cost + 200 * characters / 2 + 6 * ((characters + 63) / 64) + 32000 + 21000) * 64 / 63

module _ {W : Type 0} (chain : Chain W) where
  open chain use {get_code, estimate_gas, send_transaction, send_value, send_raw}

  -- `getCode(address).length > 2`
  unfoldable pub has_code : W → Str → Bool
  has_code w address = ltb 2 (length (get_code w address))

  -- `_isFactoryDeployed`: the flag, once true, is not checked again.
  unfoldable pub is_factory_deployed : Bool → W → Bool
  is_factory_deployed true w = true
  is_factory_deployed false w = has_code w contract_address

  -- After the factory's transactions; returns the flag too.
  confirm_factory : W → Outcome (Unit {0}) × Bool × W
  confirm_factory w =
      if is_factory_deployed false w
      then (ok tt, true, w)
      else (throws failed_to_deploy_factory, false, w)

  unfoldable pub create_factory : W → Outcome (Unit {0}) × Bool × W
  unfolding confirm_factory
  create_factory w =
      let (r, w1) = send_value factory_deployer factory_deployment_fee w in
      elim r [
        | throws err ↦ (throws err, false, w1)
        | ok _ ↦
            let (r', w2) = send_raw factory_tx w1 in
            elim r' [ throws err ↦ (throws err, false, w2) | ok _ ↦ confirm_factory w2 ]
      ]

  -- `deployFactory`
  unfoldable pub deploy_factory : Bool → W → Outcome (Unit {0}) × Bool × W
  unfolding create_factory confirm_factory
  deploy_factory deployed w =
      if is_factory_deployed deployed w then (ok tt, true, w) else create_factory w

  module _ (e : Ethers) where
    gas_limit_of : GasLimit → Str → Str → W → Outcome ℕ
    gas_limit_of (exactly n) init_code call_data w = ok n
    gas_limit_of estimate init_code call_data w = estimate_gas w contract_address call_data
    gas_limit_of by_size init_code call_data w = do
      data_cost ← bytes_cost (e.arrayify init_code)
      ok (gas_by_size data_cost (length init_code))

    -- The transaction of a deployment.
    unfoldable pub deploy_tx : GasLimit → Str → Salt → W → Outcome Transaction
    unfolding gas_limit_of
    deploy_tx limit init_code salt w = do
      call_data ← get_deploy_transaction_call_data e init_code salt
      gas_limit ← gas_limit_of limit init_code call_data w
      ok (record { to = contract_address; call_data = call_data; gas_limit = gas_limit })

    -- After sending: is there code now?
    check_code : Str → Outcome (Unit {0}) → W → Outcome Str × W
    check_code address (throws err) w = (throws err, w)
    check_code address (ok _) w =
        if length (get_code w address) == 2 then (throws failed_to_deploy, w) else (ok address, w)

    send_deployment : Str → Outcome Transaction → W → Outcome Str × W
    send_deployment address (throws err) w = (throws err, w)
    send_deployment address (ok tx) w =
        let (r, w') = send_transaction tx w in check_code address r w'

    -- The part of `deploy` that follows when the factory is there.
    unfoldable pub deploy_code : GasLimit → Str → Salt → Outcome Str → W → Outcome Str × W
    unfolding check_code send_deployment
    deploy_code limit init_code salt (throws err) w = (throws err, w)
    deploy_code limit init_code salt (ok address) w =
        if has_code w address
        then (ok address, w)
        else send_deployment address (deploy_tx limit init_code salt w) w

    -- `deploy(initCode, salt, gasLimit)` with the flag `factoryDeployed` before and after.
    unfoldable pub deploy : Str → Salt → GasLimit → Bool → W → Outcome Str × Bool × W
    deploy init_code salt limit deployed w =
        let (r, deployed', w1) = deploy_factory deployed w in
        elim r [
          | throws err ↦ (throws err, deployed', w1)
          | ok _ ↦
              let (r', w2) =
                deploy_code limit init_code salt (get_deployed_address e init_code salt) w1 in
              (r', deployed', w2)
        ]
