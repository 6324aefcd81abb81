-- ===== src/EntryPoint/Nonce/Grows.antt =====
-- No sequence number of contracts/core/NonceManager.sol falls.
use falcon_smart_account.Prelude.{ℕ, ◌≤◌, arith}
use falcon_smart_account.EntryPoint.Nonce.{Sequences, increment, increment_nonce}

pub increment-le : (s k sender key : ℕ) (m : Sequences) → m s k ≤ increment sender key m s k
unfolding increment
increment-le s k sender key m = ground arith

pub increment_nonce-le :
    (s k sender key : ℕ) (m : Sequences) → m s k ≤ increment_nonce sender key m s k
unfolding increment_nonce
increment_nonce-le s k sender key m = increment-le s k sender key m
