-- ===== src/Runop/Events.antt =====
-- What src/runop.ts prints of the events of user operations (`evInfo`).
use falcon_smart_account.Prelude.{ℕ, List, [], ◌∷◌, leb, ltb, if◌then◌else◌}
use falcon_smart_account.Prelude.Int.{ℤ, pos, negsuc, sub_ℕ}
use falcon_smart_account.Outcome.{Outcome, ok, throws, ◌>>=◌, value_too_long}
use falcon_smart_account.Signer.Transaction.{big_to_number}

-- What is printed of an event.
pub record EventInfo : Type 0 where
  pub nonce : ℕ
  pub gas_paid : ℤ
  pub gas_used : ℕ
  pub diff : ℤ

-- `toNumber()` of a difference, which throws outside the safe integers.
unfoldable pub signed_to_number : ℤ → Outcome ℤ
signed_to_number (pos n) = if leb n 9007199254740991 then ok (pos n) else throws value_too_long
signed_to_number (negsuc n) =
    if ltb n 9007199254740991 then ok (negsuc n) else throws value_too_long

-- The infos of events, each a nonce with the gas that the event has, for a receipt's gas.
unfoldable pub event_infos : ℤ → ℕ → List (ℕ × ℕ) → Outcome (List EventInfo)
event_infos gas_paid receipt_gas [] = ok []
event_infos gas_paid receipt_gas ((big_nonce, actual_gas_used) ∷ events) = do
  gas_used ← big_to_number receipt_gas
  nonce ← big_to_number big_nonce
  actual ← big_to_number actual_gas_used
  rest ← event_infos gas_paid receipt_gas events
  ok (
      record {
        nonce = nonce;
        gas_paid = gas_paid;
        gas_used = gas_used;
        diff = sub_ℕ gas_used actual;
      }
      ∷ rest)
