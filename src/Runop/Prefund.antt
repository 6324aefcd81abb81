-- ===== src/Runop/Prefund.antt =====
-- When src/runop.ts gives the account ether: its balance is compared as a text.
use mathlib.Core.Logic.{◌↔◌}
use falcon_smart_account.Prelude.{
  ℕ, ◌^◌, ◌<◌, ◌≡◌, refl, ap, ◌∙◌, ◌⊎◌, Bool, true, false, if◌then◌else◌,
}
use falcon_smart_account.Js.{Str}
use falcon_smart_account.Js.Decimal.{decimal-text_lt}
use falcon_smart_account.Outcome.{ok}
use falcon_smart_account.Action.{Action, continue, lift}
use falcon_smart_account.Runop.Main.{
  RunBackend, Environment, is_low_balance, min_balance, prefund_account,
}

-- An action that is chosen, in a state.
chosen :
    {W : Type 0} (test : Bool) (action : Action W (Unit {0})) (w : W)
    → (if test then action else lift (ok tt)) w ≡ (if test then action w else (ok tt, w))
chosen true action w = refl
chosen false action w = refl

-- An account whose balance can be read is sent 0.01 ether exactly when its balance is zero or a
-- power of ten below 10 ^ 16 wei (not when it is any balance below that): otherwise nothing happens.
pub prefund_account-power :
    {W : Type 0} (env : Environment) (b : RunBackend W) (address : Str) (balance : ℕ) (w : W)
    → b.get_balance w address ≡ ok balance
    → (prefund_account env b address w
        ≡ (if is_low_balance balance then b.send_value address min_balance w else (ok tt, w)))
      × ((is_low_balance balance ≡ true)
          ↔ ((balance ≡ 0) ⊎ ((j : ℕ) × (j < 16) × (balance ≡ 10 ^ j))))
unfolding prefund_account is_low_balance
prefund_account-power env b address balance w h = (
  ap (continue (λ n. if is_low_balance n then b.send_value address min_balance else lift (ok tt)))
        (ap (λ r. (r, w)) h)
      ∙ chosen (is_low_balance balance) (b.send_value address min_balance) w,
  decimal-text_lt balance 16,
)
