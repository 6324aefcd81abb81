-- ===== src/EntryPoint/Bundle/Once.antt =====
-- The validation of operations in contracts/core/EntryPoint.sol uses up their nonces, each once.
use mathlib.Core.Path.{subst}
use falcon_smart_account.Prelude.{
  ℕ, ◌+◌, ◌≤◌, ◌≡◌, refl, ap, sym, ◌⊎◌, inl, inr, Bool, true, ◌&&◌, [], ◌∷◌, arith, ◌==◌,
  if◌then◌else◌, Bool-cases,
}
use falcon_smart_account.Outcome.{ok, ok-injective, >>=-eq-ok}
use falcon_smart_account.EntryPoint.Memory.{
  CalldataUserOp, MemoryUserOp, copy_user_op_to_memory, paymaster_fields, memory_op,
}
use falcon_smart_account.EntryPoint.Nonce.{key_of, seq_of, increment, validate_and_update_nonce}
use falcon_smart_account.EntryPoint.Nonce.Grows.{increment-le}
use falcon_smart_account.EntryPoint.Bundle.Outside.{Chain, Outside, Meter}
use falcon_smart_account.EntryPoint.Bundle.Validate.{
  take_nonce, validate_copied, validate_prepayment,
}
use falcon_smart_account.EntryPoint.Bundle.Handle.{Ops, validate_one, validate_ops}
use falcon_smart_account.EntryPoint.Bundle.Rules.{
  Holds, ended, >>=-Holds, return-Holds, expect-Holds, lift-Holds, if-Holds, >>=-Preserves,
  return-Preserves, expect-Preserves, Reaches,
}
use falcon_smart_account.EntryPoint.Bundle.Created.{check_validation_data-Preserves}
use falcon_smart_account.EntryPoint.Bundle.Monotone.{
  IsMonotone, monotone-IsStable, validate_account-Preserves, validate_paymaster-Preserves,
}

-- How many operations have this sender and this nonce.
unfoldable pub one_use : ℕ → ℕ → CalldataUserOp → ℕ
one_use sender nonce op = if (op.sender == sender) && (op.nonce == nonce) then 1 else 0

unfoldable pub uses : ℕ → ℕ → Ops → ℕ
unfolding one_use
uses sender nonce [] = 0
uses sender nonce ((op, meter) ∷ ops) = one_use sender nonce op + uses sender nonce ops

module _ {W : Type 0} (sender nonce : ℕ) where
  -- The sequence number was at least `n`, and a nonce used `count` times since then is used up.
  abbrev pub UsedUp : ℕ → ℕ → Chain W → Type 0
  UsedUp n count s =
      ((count ≡ 0) × (n ≤ s.sequences sender (key_of nonce)))
      ⊎ ((count ≡ 1) × (n ≤ seq_of nonce) × (seq_of nonce + 1 ≤ s.sequences sender (key_of nonce)))

  pub UsedUp-IsMonotone : (n count : ℕ) → IsMonotone (UsedUp n count)
  UsedUp-IsMonotone n count s s' le (inl (none, h)) =
      inl (none, omega (arith, h, le sender (key_of nonce)))
  UsedUp-IsMonotone n count s s' le (inr (one, small, h)) =
      inr (one, small, omega (arith, h, le sender (key_of nonce)))

  pub Reaches-IsMonotone : (n : ℕ) → IsMonotone (Reaches {W = W} sender (key_of nonce) n)
  Reaches-IsMonotone n s s' le h = omega (arith, h, le sender (key_of nonce))

  -- Uses after uses: there is only one.
  pub UsedUp-more :
      (n a : ℕ) (s : Chain W) (b : ℕ) (s' : Chain W)
      → UsedUp n a s
      → ((n' : ℕ) → Reaches sender (key_of nonce) n' s → UsedUp n' b s')
      → UsedUp n (a + b) s'
  UsedUp-more n a s b s' (inl (none, h)) next =
      subst (λ c. UsedUp n c s') (omega (arith, none)) (next n h)
  UsedUp-more n a s b s' (inr (one, small, h)) next = after (next (seq_of nonce + 1) h)
    where
      after : UsedUp (seq_of nonce + 1) b s' → UsedUp n (a + b) s'
      after (inl (none, h1)) = inr (omega (arith, one, none), small, h1)
      after (inr (_, impossible, _)) = absurd (omega (arith, impossible))

  accepted-UsedUp :
      (n snd nnc : ℕ) (s : Chain W)
      → Reaches sender (key_of nonce) n s
      → (s.sequences snd (key_of nnc) == seq_of nnc) ≡ true
      → UsedUp n
          (if (snd == sender) && (nnc == nonce) then 1 else 0)
          (record s { sequences = increment snd (key_of nnc) s.sequences })
  unfolding increment
  accepted-UsedUp n snd nnc s h current = elim (Bool-cases ((snd == sender) && (nnc == nonce))) [
    | inl same ↦ rw (same) (inr (refl, ground arith, ground arith))
    | inr other ↦ rw (other) (
        inl
          (refl, omega (arith, h, increment-le sender (key_of nonce) snd (key_of nnc) s.sequences)))
  ]

  take_nonce-UsedUp :
      (n snd nnc : ℕ) (s : Chain W)
      → Reaches sender (key_of nonce) n s
      → (accepted : Bool) (s' : Chain W) → take_nonce snd nnc s ≡ ok (accepted, s')
      → accepted ≡ true
      → UsedUp n (if (snd == sender) && (nnc == nonce) then 1 else 0) s'
  unfolding take_nonce validate_and_update_nonce
  take_nonce-UsedUp n snd nnc s h accepted s' eq =
      ended
        (λ (b : Bool) (s1 : Chain W).
          b ≡ true → UsedUp n (if (snd == sender) && (nnc == nonce) then 1 else 0) s1)
        eq (accepted-UsedUp n snd nnc s h)

  module _ (o : Outside W) where
    -- The number of uses of a copied operation.
    abbrev copied_use : MemoryUserOp → ℕ
    copied_use m = if (m.sender == sender) && (m.nonce == nonce) then 1 else 0

    validate_copied-UsedUp :
        (n index : ℕ) (op : CalldataUserOp) (meter : Meter) (m : MemoryUserOp)
        → Holds
            (Reaches sender (key_of nonce) n)
            (validate_copied o index op meter m)
            (λ _. UsedUp n (copied_use m))
    unfolding validate_copied
    validate_copied-UsedUp n index op meter m =
        let before = Reaches {W = W} sender (key_of nonce) n in
        let before_mono = Reaches-IsMonotone n in
        let used = UsedUp n (copied_use m) in
        let used_mono = UsedUp-IsMonotone n (copied_use m) in
        >>=-Holds (λ _. before) (expect-Preserves before _ _)
          (λ _.
            >>=-Holds (λ _. before) (validate_account-Preserves o before before_mono index op m _ _)
              (λ answer.
                >>=-Holds (λ accepted s. accepted ≡ true → used s)
                  (take_nonce-UsedUp n m.sender m.nonce)
                  (λ accepted.
                    >>=-Holds (λ _. used)
                      (λ s h a s' eq.
                        let (so, h1) =
                          expect-Holds (λ s1. accepted ≡ true → used s1) _ _ s h a s' eq in
                        h1 so)
                      (λ _. >>=-Preserves used (expect-Preserves used _ _) (λ _.
                        >>=-Preserves used
                          (if-Holds (m.paymaster == 0) (λ _. return-Preserves used ([], 0))
                            (λ _.
                              validate_paymaster-Preserves o used used_mono index op m _ _ meter))
                          (λ answer1. return-Preserves used _))))))

    copied_fields :
        (op : CalldataUserOp) (m : MemoryUserOp)
        → copy_user_op_to_memory op ≡ ok m
        → (m.sender ≡ op.sender) × (m.nonce ≡ op.nonce)
    unfolding copy_user_op_to_memory memory_op
    copied_fields op m eq =
        let (fields, _, made) = >>=-eq-ok (paymaster_fields op.paymaster_and_data) _ eq in
        let same = sym (ok-injective made) in (ap (λ m1. m1.sender) same, ap (λ m1. m1.nonce) same)

    validate_prepayment-UsedUp :
        (n index : ℕ) (op : CalldataUserOp) (meter : Meter)
        → Holds
            (Reaches sender (key_of nonce) n)
            (validate_prepayment o index op meter)
            (λ _. UsedUp n (one_use sender nonce op))
    unfolding validate_prepayment one_use
    validate_prepayment-UsedUp n index op meter =
        let before = Reaches {W = W} sender (key_of nonce) n in
        >>=-Holds (λ m s. (copy_user_op_to_memory op ≡ ok m) × before s) (lift-Holds before _)
          (λ m s h v s' eq.
            let (snd, nnc) = copied_fields op m h.0 in
            let used = validate_copied-UsedUp n index op meter m s h.1 v s' eq in
            rw (sym snd, sym nnc) used)

    validate_one-UsedUp :
        (n expected op_index i : ℕ) (op : CalldataUserOp) (meter : Meter)
        → Holds
            (Reaches sender (key_of nonce) n)
            (validate_one o expected op_index i op meter)
            (λ _. UsedUp n (one_use sender nonce op))
    unfolding validate_one
    validate_one-UsedUp n expected op_index i op meter =
        let used = UsedUp n (one_use sender nonce op) in
        >>=-Holds (λ _. used) (validate_prepayment-UsedUp n op_index op meter)
          (λ v.
            >>=-Preserves used
              (check_validation_data-Preserves o used
                (monotone-IsStable used (UsedUp-IsMonotone n (one_use sender nonce op))) _ _ _ _)
              (λ _. return-Preserves used _))

    pub validate_ops-UsedUp :
        (n expected op_index i : ℕ) (ops : Ops)
        → Holds
            (Reaches sender (key_of nonce) n)
            (validate_ops o expected op_index i ops)
            (λ _. UsedUp n (uses sender nonce ops))
    unfolding validate_ops uses
    validate_ops-UsedUp n expected op_index i [] =
        return-Holds (λ _. UsedUp n 0) [] (λ s h. inl (refl, h))
    validate_ops-UsedUp n expected op_index i ((op, meter) ∷ ops) =
        let now = one_use sender nonce op in
        let then_more = now + uses sender nonce ops in
        >>=-Holds (λ _. UsedUp n now) (validate_one-UsedUp n expected op_index i op meter)
          (λ p.
            >>=-Holds (λ _. UsedUp n then_more)
              (λ s h ps s' eq.
                UsedUp-more n now s (uses sender nonce ops) s' h (λ n' h'.
                  validate_ops-UsedUp n' expected (op_index + 1) (i + 1) ops s h' ps s' eq))
              (λ ps. return-Preserves (UsedUp n then_more) (p ∷ ps)))
