-- ===== src/Create2/Once.antt =====
-- What `deploy` of src/Create2Factory.ts promises: code at the address that it returns, and no
-- transaction where there is code already.
use falcon_smart_account.Prelude.{◌≤◌, ◌<◌, ◌≡◌, ◌≢◌, Bool, true, arith, length}
use falcon_smart_account.Js.{Str}
use falcon_smart_account.Outcome.{Outcome, ok, throws}
use falcon_smart_account.Ethers.{Ethers}
use falcon_smart_account.Create2.Address.{Salt, get_deployed_address}
use falcon_smart_account.Create2.Deploy.{
  Chain, GasLimit, has_code, is_factory_deployed, deploy_factory, deploy_code, deploy,
}

module _ {W : Type 0} (chain : Chain W) (e : Ethers) where
  open chain use {get_code}

  deploy_code_lem :
      (limit : GasLimit) (init_code : Str) (salt : Salt) (target : Outcome Str) (w : W) {a : Str}
      → (deploy_code chain e limit init_code salt target w).0 ≡ ok a
      → (target ≡ ok a)
        × (length (get_code (deploy_code chain e limit init_code salt target w).1 a) ≢ 2)
  unfolding deploy_code has_code
  deploy_code_lem limit init_code salt (throws err) w h = cc
  deploy_code_lem limit init_code salt (ok address) w h = ground arith

  deploy_ran :
      (init_code : Str) (salt : Salt) (limit : GasLimit) (deployed : Bool) (w : W) {a : Str}
      → (deploy chain e init_code salt limit deployed w).0 ≡ ok a
      → (deploy_factory chain deployed w).0 ≡ ok tt
  unfolding deploy
  deploy_ran init_code salt limit deployed w h = ground arith

  deploy_eq :
      (init_code : Str) (salt : Salt) (limit : GasLimit) (deployed : Bool) (w : W)
      → (deploy_factory chain deployed w).0 ≡ ok tt
      → deploy chain e init_code salt limit deployed w ≡ (
        (deploy_code chain e limit init_code salt
            (get_deployed_address e init_code salt)
            (deploy_factory chain deployed w).2).0,
        (deploy_factory chain deployed w).1,
        (deploy_code chain e limit init_code salt
            (get_deployed_address e init_code salt)
            (deploy_factory chain deployed w).2).1,
      )
  unfolding deploy
  deploy_eq init_code salt limit deployed w ran = rw (ran, deploy)

  -- A deployment that returns an address returns the one that `getDeployedAddress` computes, and
  -- there is code at it in the state that the deployment leaves.
  pub deploy-has_code :
      (init_code : Str) (salt : Salt) (limit : GasLimit) (deployed : Bool) (w : W) {a : Str}
      → (deploy chain e init_code salt limit deployed w).0 ≡ ok a
      → (get_deployed_address e init_code salt ≡ ok a)
        × (length (get_code (deploy chain e init_code salt limit deployed w).2 a) ≢ 2)
  deploy-has_code init_code salt limit deployed w h =
      let eq =
        deploy_eq init_code salt limit deployed w (deploy_ran init_code salt limit deployed w h) in
      rw eq (
        deploy_code_lem limit init_code salt (get_deployed_address e init_code salt)
          (deploy_factory chain deployed w).2 (rw eq at h))

  factory_flag :
      (deployed : Bool) (w : W)
      → (deploy_factory chain deployed w).0 ≡ ok tt
      → (deploy_factory chain deployed w).1 ≡ true
  unfolding deploy_factory
  factory_flag deployed w h = ground arith

  deploy-flag :
      (init_code : Str) (salt : Salt) (limit : GasLimit) (deployed : Bool) (w : W) {a : Str}
      → (deploy chain e init_code salt limit deployed w).0 ≡ ok a
      → (deploy chain e init_code salt limit deployed w).1 ≡ true
  deploy-flag init_code salt limit deployed w h =
      let ran = deploy_ran init_code salt limit deployed w h in
      rw (deploy_eq init_code salt limit deployed w ran) (factory_flag deployed w ran)

  deploy_present :
      (init_code : Str) (salt : Salt) (limit : GasLimit) (w : W) {a : Str}
      → get_deployed_address e init_code salt ≡ ok a
      → 2 < length (get_code w a)
      → deploy chain e init_code salt limit true w ≡ (ok a, true, w)
  unfolding deploy deploy_factory is_factory_deployed deploy_code has_code
  deploy_present init_code salt limit w target code = ground arith

  -- Where code strings have at least their two characters "0x": deploying again what was deployed,
  -- with any gas limit, returns the same address and sends nothing.
  pub deploy-deploy :
      ((w : W) (a : Str) → 2 ≤ length (get_code w a))
      → (init_code : Str) (salt : Salt) (limit again : GasLimit) (deployed : Bool) (w : W) {a : Str}
      → (deploy chain e init_code salt limit deployed w).0 ≡ ok a
      → let (r, deployed', w') = deploy chain e init_code salt limit deployed w in
        deploy chain e init_code salt again deployed' w' ≡ (r, deployed', w')
  deploy-deploy prefix init_code salt limit again deployed w {a} h =
      let (_, deployed', w') = deploy chain e init_code salt limit deployed w in
      let (target, code) = deploy-has_code init_code salt limit deployed w h in
      let more = prefix w' a in
      let flag = deploy-flag init_code salt limit deployed w h in
      rw (h, flag) (deploy_present init_code salt again w' target (omega arith))
