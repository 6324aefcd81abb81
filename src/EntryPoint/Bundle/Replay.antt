-- ===== src/EntryPoint/Bundle/Replay.antt =====
-- No operation is handled twice: the bundles of contracts/core/EntryPoint.sol, one after the other,
-- with any calls of its other functions between them.
use falcon_smart_account.Prelude.{
  ℕ, ◌+◌, ◌*◌, ◌^◌, ◌≤◌, ◌≡◌, refl, inl, inr, List, [], ◌∷◌, ◌++◌, arith, ltb, length,
}
use falcon_smart_account.Outcome.{ok}
use falcon_smart_account.EntryPoint.Nonce.{key_of, seq_of}
use falcon_smart_account.EntryPoint.Bundle.Outside.{Chain, Request, Outside, after_call}
use falcon_smart_account.EntryPoint.Bundle.Handle.{
  Ops, UserOpsPerAggregator, unchecked_sum, checked_sum, handle_ops, validate_groups,
  handle_aggregated_ops,
}
use falcon_smart_account.EntryPoint.Bundle.Rules.{
  Holds, ended, >>=-Holds, return-Holds, thrown, decided, Preserves, >>=-Preserves,
  return-Preserves, Reaches,
}
use falcon_smart_account.EntryPoint.Bundle.Monotone.{
  monotone-IsStable, execute_ops-Preserves, compensate-Preserves,
}
use falcon_smart_account.EntryPoint.Bundle.Groups.{check_aggregators-Preserves}
use falcon_smart_account.EntryPoint.Bundle.Once.{
  uses, UsedUp, UsedUp-IsMonotone, UsedUp-more, validate_ops-UsedUp,
}

-- The operations of all groups.
unfoldable pub all_ops : List UserOpsPerAggregator → Ops
all_ops [] = []
all_ops (opa ∷ rest) = opa.user_ops ++ all_ops rest

-- What may happen to the contract, and the operations that were handled meanwhile. Each step may
-- see another block.
pub data History {W : Type 0} : Chain W → Ops → Chain W → Type 0 where
  begins : {s : Chain W} → History s [] s
  handles :
      {s s1 s2 : Chain W} {done : Ops} (o : Outside W) (ops : Ops) (beneficiary : ℕ)
      → History s done s1
      → handle_ops o ops beneficiary s1 ≡ ok (tt, s2)
      → History s (done ++ ops) s2
  handles_groups :
      {s s1 s2 : Chain W} {done : Ops} (o : Outside W) (groups : List UserOpsPerAggregator)
      (beneficiary : ℕ)
      → History s done s1
      → handle_aggregated_ops o groups beneficiary s1 ≡ ok (tt, s2)
      → History s (done ++ all_ops groups) s2
  serves :
      {s s1 : Chain W} {done : Ops} (now : ℕ) (requests : List Request) (w : W)
      → History s done s1
      → History s done (after_call now requests w s1)

uses-append :
    (sender nonce : ℕ) (xs ys : Ops)
    → uses sender nonce (xs ++ ys) ≡ uses sender nonce xs + uses sender nonce ys
unfolding uses
uses-append sender nonce [] ys = omega arith
uses-append sender nonce ((op, meter) ∷ xs) ys = omega (arith, uses-append sender nonce xs ys)

module _ {W : Type 0} where
  unchecked-Preserves : (P : Chain W → Type 0) (a b : ℕ) → Preserves P (unchecked_sum a b)
  unchecked-Preserves P a b = return-Preserves P _

  checked-Preserves : (P : Chain W → Type 0) (a b : ℕ) → Preserves P (checked_sum a b)
  checked-Preserves P a b s p c s' eq =
      decided (ltb (a + b) (2 ^ 256)) eq (λ _ made. ended (λ _ s1. P s1) made p)
        (λ _ failed. thrown failed)

module _ {W : Type 0} (o : Outside W) (sender nonce : ℕ) where
  handle_ops-UsedUp :
      (n : ℕ) (ops : Ops) (beneficiary : ℕ)
      → Holds
          (Reaches sender (key_of nonce) n)
          (handle_ops o ops beneficiary)
          (λ _. UsedUp sender nonce n (uses sender nonce ops))
  unfolding handle_ops
  handle_ops-UsedUp n ops beneficiary =
      let used = UsedUp {W = W} sender nonce n (uses sender nonce ops) in
      let mono = UsedUp-IsMonotone sender nonce n (uses sender nonce ops) in
      >>=-Holds (λ _. used) (validate_ops-UsedUp sender nonce o n 0 0 0 ops)
        (λ ps.
          >>=-Preserves used
            (execute_ops-Preserves o used mono unchecked_sum (unchecked-Preserves used) 0 0 ps)
            (λ collected. compensate-Preserves o used mono beneficiary collected))

  validate_groups-UsedUp :
      (n op_index : ℕ) (groups : List UserOpsPerAggregator)
      → Holds
          (Reaches sender (key_of nonce) n)
          (validate_groups o op_index groups)
          (λ _. UsedUp sender nonce n (uses sender nonce (all_ops groups)))
  unfolding validate_groups all_ops uses
  validate_groups-UsedUp n op_index [] =
      return-Holds (λ _. UsedUp sender nonce n 0) [] (λ s h. inl (refl, h))
  validate_groups-UsedUp n op_index (opa ∷ rest) =
      let here = uses sender nonce opa.user_ops in
      let more = uses sender nonce (all_ops rest) in
      let used = UsedUp {W = W} sender nonce n (here + more) in
      rw (uses-append sender nonce opa.user_ops (all_ops rest)) (
        >>=-Holds (λ _. UsedUp sender nonce n here)
          (validate_ops-UsedUp sender nonce o n opa.aggregator op_index 0 opa.user_ops)
          (λ ps.
            >>=-Holds (λ _. used)
              (λ s h qs s' eq. UsedUp-more sender nonce n here s more s' h (λ n' h'.
                validate_groups-UsedUp n' (op_index + length opa.user_ops) rest s h' qs s' eq))
              (λ qs. return-Preserves used (ps ++ qs))))

  handle_aggregated_ops-UsedUp :
      (n : ℕ) (groups : List UserOpsPerAggregator) (beneficiary : ℕ)
      → Holds
          (Reaches sender (key_of nonce) n)
          (handle_aggregated_ops o groups beneficiary)
          (λ _. UsedUp sender nonce n (uses sender nonce (all_ops groups)))
  unfolding handle_aggregated_ops
  handle_aggregated_ops-UsedUp n groups beneficiary =
      let before = Reaches {W = W} sender (key_of nonce) n in
      let used = UsedUp {W = W} sender nonce n (uses sender nonce (all_ops groups)) in
      let mono = UsedUp-IsMonotone sender nonce n (uses sender nonce (all_ops groups)) in
      >>=-Holds (λ _. before) (check_aggregators-Preserves o before groups)
        (λ _.
          >>=-Holds (λ _. used) (validate_groups-UsedUp n 0 groups)
            (λ ps.
              >>=-Preserves used
                (execute_ops-Preserves o used mono checked_sum (checked-Preserves used) 0 0 ps)
                (λ collected. compensate-Preserves o used mono beneficiary collected)))

module _ {W : Type 0} (sender nonce : ℕ) where
  History-UsedUp :
      {s s' : Chain W} {done : Ops}
      → History s done s'
      → UsedUp sender nonce 0 (uses sender nonce done) s'
  unfolding uses
  History-UsedUp begins = inl (refl, omega arith)
  History-UsedUp (handles {s1} {s2} {done} o ops beneficiary h eq) =
      rw (uses-append sender nonce done ops) (
        UsedUp-more sender nonce 0 (uses sender nonce done) s1 (uses sender nonce ops) s2
          (History-UsedUp h)
          (λ n h'. handle_ops-UsedUp o sender nonce n ops beneficiary s1 h' tt s2 eq))
  History-UsedUp (handles_groups {s1} {s2} {done} o groups beneficiary h eq) =
      rw (uses-append sender nonce done (all_ops groups)) (
        UsedUp-more sender nonce 0 (uses sender nonce done) s1 (uses sender nonce (all_ops groups))
          s2 (History-UsedUp h)
          (λ n h'. handle_aggregated_ops-UsedUp o sender nonce n groups beneficiary s1 h' tt s2 eq))
  History-UsedUp (serves {s1} {done} now requests w h) =
      monotone-IsStable (UsedUp sender nonce 0 (uses sender nonce done))
        (UsedUp-IsMonotone sender nonce 0 (uses sender nonce done)) now requests w s1
        (History-UsedUp h)

  -- Over any bundles handled one after the other, by either handler and in any blocks, with any
  -- calls of the other functions between them and during them, at most one operation has a given
  -- sender and nonce; when one has, the sequence number is past the nonce's for good (the second
  -- bound says nothing otherwise).
  pub History-Once :
      {s s' : Chain W} {done : Ops}
      → History s done s'
      → (uses sender nonce done ≤ 1)
        × (uses sender nonce done * (seq_of nonce + 1) ≤ s'.sequences sender (key_of nonce))
  History-Once {s' = s'} {done = done} h =
      at_most_one (uses sender nonce done) s' (History-UsedUp h)
    where
      at_most_one :
          (count : ℕ) (s1 : Chain W)
          → UsedUp sender nonce 0 count s1
          → (count ≤ 1) × (count * (seq_of nonce + 1) ≤ s1.sequences sender (key_of nonce))
      at_most_one count s1 (inl (none, _)) = rw (none) (omega arith, omega arith)
      at_most_one count s1 (inr (one, _, past)) = rw (one) (omega arith, omega (arith, past))
