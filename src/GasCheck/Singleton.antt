-- ===== src/GasCheck/Singleton.antt =====
-- `GasCheckCollector.init` of gascalc/GasChecker.ts, which many callers may be in at once: each runs
-- up to its `await`, and is resumed when the collector's `_init` has ended.
use falcon_smart_account.Prelude.{
  ℕ, suc, ◌-◌, ◌<◌, ◌≡◌, ◌≢◌, refl, sym, ap, ◌∙◌, ◌⊎◌, inl, inr, Option, none, some, Option-cases,
}

-- `inst` and `initPromise` by the number of their collector, how many collectors were made, and how
-- many callers wait.
pub record Singleton : Type 0 where
  pub inst : Option ℕ
  pub init_promise : Option ℕ
  pub created : ℕ
  pub waiting : ℕ

abbrev pub start : Singleton
start = record { inst = none; init_promise = none; created = 0; waiting = 0 }

-- A call of `init`, up to its `await`.
unfoldable pub begin_init : Singleton → Singleton
begin_init s = elim s.inst [
  | some _ ↦ s
  | none ↦ elim s.init_promise [
    | some _ ↦ record s { waiting = suc s.waiting }
    | none ↦ record s {
      init_promise = some s.created;
      created = suc s.created;
      waiting = suc s.waiting;
    }
  ]
]

-- `this.inst = await this.initPromise`, when `_init` has ended well and when it has thrown.
unfoldable pub resume : ℕ → Singleton → Singleton
resume collector s = record s { inst = some collector; waiting = s.waiting - 1 }

unfoldable pub fail : Singleton → Singleton
fail s = record s { waiting = s.waiting - 1 }

-- What the callers may do next.
pub data Step : Singleton → Singleton → Type 0 where
  calls : {s : Singleton} → Step s (begin_init s)
  resumes :
      {s : Singleton} (collector : ℕ)
      → s.init_promise ≡ some collector
      → 0 < s.waiting
      → Step s (resume collector s)
  fails : {s : Singleton} → 0 < s.waiting → Step s (fail s)

pub data Reachable : Singleton → Type 0 where
  starts : Reachable start
  steps : {s t : Singleton} → Reachable s → Step s t → Reachable t

-- No collector yet, or one, for which all wait and which all get.
pub record IsSingle (s : Singleton) : Type 0 where
  pub promise :
      ((s.init_promise ≡ none) × (s.created ≡ 0)) ⊎ ((s.init_promise ≡ some 0) × (s.created ≡ 1))
  pub inst : (s.inst ≡ none) ⊎ (s.inst ≡ some 0)

begin_init-IsSingle : (s : Singleton) → IsSingle s → IsSingle (begin_init s)
unfolding begin_init
begin_init-IsSingle s h = elim (Option-cases s.inst) [
  | inr (c, there) ↦ rw (there, begin_init) h
  | inl missing ↦ elim h.promise [
    | inl (no_promise, none_made) ↦
        rw (missing, no_promise, begin_init)
          (record {
            promise = inr (ap (λ (n : ℕ). some n) none_made, ap suc none_made);
            inst = inl missing;
          })
    | inr (promised, one) ↦
        rw (missing, promised, begin_init)
          (record { promise = inr (promised, one); inst = inl missing })
  ]
]

none-ne : {n : ℕ} → none ≢ some n
none-ne h = cc

Step-IsSingle : (s t : Singleton) → Step s t → IsSingle s → IsSingle t
unfolding resume fail
Step-IsSingle s t calls h = begin_init-IsSingle s h
Step-IsSingle s t (resumes collector promised waits) h = record {
  promise = h.promise;
  inst = inr (same_collector h.promise);
}
  where
    same_collector :
        ((s.init_promise ≡ none) × (s.created ≡ 0)) ⊎ ((s.init_promise ≡ some 0) × (s.created ≡ 1))
        → some collector ≡ some 0
    same_collector (inl (no_promise, _)) = absurd (none-ne (sym no_promise ∙ promised))
    same_collector (inr (first, _)) = sym promised ∙ first
Step-IsSingle s t (fails waits) h = record { promise = h.promise; inst = h.inst }

-- However calls of `init` overlap, and whether `_init` ends well or throws, at most one collector is
-- made, and it is the one that every caller finds.
pub Reachable-IsSingle : {s : Singleton} → Reachable s → IsSingle s
Reachable-IsSingle starts = record { promise = inl (refl, refl); inst = inl refl }
Reachable-IsSingle (steps {s} {t} r step) = Step-IsSingle s t step (Reachable-IsSingle r)
