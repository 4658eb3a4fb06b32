-- ===== src/Bulk/Executor.antt =====
-- In which order a Bulk request executes its operations: `serveBulk` of pkg/scim/bulk_execute.go.
use gotth_scim.Base.{
  ℕ, zero, suc, Bool, true, false, ◌==◌, if◌then◌else◌, Bool-cases, Str, Map, length, all, any,
  Option, some, List, [], ◌∷◌, ◌≡◌, refl, sym, ap, ◌∙◌, arith, inl, inr, if_cases, if-same, subst,
  lookup, insert, lookup-insert, str_eq, str_eq_refl, eq_of_str_eq, or-true, all_imp,
}
use gotth_scim.Failure.{Result, ok, err}
use gotth_scim.Bulk.{BulkOperation, Reference}
use gotth_scim.Bulk.References.{is_resolved}
use gotth_scim.Bulk.Schedule.{
  BulkResult, Entry, Progress, undone, Setting, setting, ahead, Executor, is_blocked, is_ready,
  noted, failure_of, blocked_failure, cycle_failure, attempt, is_skipped, attempted, limit_reached,
  Pass, pass, report_cycle, after_pass, rounds, fresh_entries, serve_bulk,
}
use gotth_scim.Bulk.Kept.{AllFor, pass-keeps}

All_unit : (es : List Entry) → AllFor (λ o. Unit) es
All_unit [] = tt
All_unit (e ∷ es) = (tt, All_unit es)

module _ {ℓ} {S : Type ℓ} (k : Setting S) where
  -- Two executors that agree on the operations that are executed, as far as an invariant of the progress
  -- tells them, give one answer.
  module _ (P : Progress S → Type 0)
      (attempt-keeps : (o : BulkOperation) (p : Progress S) → P p → P (attempt k o p).1)
      (g : Executor S)
      (agree : (o : BulkOperation) (p : Progress S)
        → P p
        → all (is_resolved p.references) (k.dependencies o) ≡ true
        → k.execute o p.references p.store ≡ g o p.references p.store) where
    abbrev swapped : Setting S
    swapped = record k { execute = g }

    attempt-same :
        (e : Entry) (p : Progress S)
        → P p
        → is_skipped k e p ≡ false
        → attempt k e.operation p ≡ attempt swapped e.operation p
    unfolding attempt is_skipped is_ready is_blocked noted failure_of blocked_failure
    attempt-same e p q h =
        if-same (is_blocked k e.operation p) _ _ _ _ (λ blocked. refl)
          (λ free. ap (λ z. noted k e.operation z p) (agree e.operation p q (ready_of h free)))
      where
        ready_of :
            is_skipped k e p ≡ false
            → is_blocked k e.operation p ≡ false
            → is_ready k e.operation p ≡ true
        ready_of h free = ground arith

    pass-same : (es : List Entry) (p : Progress S) → P p → pass k es p ≡ pass swapped es p
    unfolding pass is_skipped is_ready is_blocked attempted limit_reached
    pass-same [] p q = refl
    pass-same (e ∷ es) p q =
        let later = attempt k e.operation p in
        if-same (is_skipped k e p) _ _ _ _ (λ skip. ap (ahead e false) (pass-same es p q))
          (λ go.
            ap (attempted k e later.0 es later.1)
              (pass-same es later.1 (attempt-keeps e.operation p q))
            ∙ ap (λ (z : BulkResult × Progress S). attempted k e z.0 es z.1 (pass swapped es z.1))
                (attempt-same e p q go))

    after_pass-same :
        (r : Pass S) (next next' : Option (List Entry × Progress S))
        → next ≡ next'
        → after_pass k r next ≡ after_pass swapped r next'
    unfolding after_pass report_cycle failure_of cycle_failure
    after_pass-same r next next' h = ap (after_pass k r) h

    rounds-same :
        (fuel : ℕ) (es : List Entry) (p : Progress S)
        → P p
        → rounds k fuel es p ≡ rounds swapped fuel es p
    unfolding rounds
    rounds-same zero es p q = refl
    rounds-same (suc fuel) es p q =
        if-same (undone es == 0) _ _ _ _ (λ e. refl)
          (λ e. after_pass-same (pass k es p) _ _ (
            rounds-same fuel (pass k es p).entries (pass k es p).progress
              (pass-keeps k (λ o. Unit) P (λ o p _. attempt-keeps o p) es p (All_unit es) q)))
        ∙ ap
            (λ (r : Pass S).
              if undone es == 0
              then some (es, p)
              else after_pass swapped r (rounds swapped fuel r.entries r.progress))
            (pass-same es p q)

abbrev pub is_among : List Str → Str → Bool
is_among names name = any (str_eq name) names

is_among-more :
    (name made : Str) (r : Reference) (references : Map Reference) (succeeded : List Str)
    → (is_resolved references name ≡ true → is_among succeeded name ≡ true)
    → is_resolved (insert made r references) name ≡ true
    → is_among (made ∷ succeeded) name ≡ true
is_among-more name made r references succeeded h e = elim (Bool-cases (str_eq made name)) [
  | inl same ↦
      let equal : str_eq name made ≡ true = rw (eq_of_str_eq made name same) (str_eq_refl name) in
      ground arith
  | inr other ↦
      let old : is_resolved references name ≡ true =
        rw (lookup-insert made name r references, other) at e in
      rw (h old) (or-true (str_eq name made))
]

module _ {ℓ} {S : Type ℓ} where
  abbrev recorded_outcome :
      Str
      → List Str
      → Result (BulkResult × Reference) × S
      → Result (BulkResult × Reference) × (S × List Str)
  recorded_outcome name succeeded (ok r, s) = (ok r, (s, name ∷ succeeded))
  recorded_outcome name succeeded (err e, s) = (err e, (s, succeeded))

  -- The executor, which keeps beside the store the bulkIds of the operations that it has executed with
  -- success.
  abbrev pub recorded : Executor S → Executor (S × List Str)
  recorded execute o references (s, succeeded) =
      recorded_outcome o.bulk_id succeeded (execute o references s)

  -- Every reference was made by an operation that succeeded.
  AreMade : Progress (S × List Str) → Type 0
  AreMade p = (name : Str) → is_resolved p.references name ≡ true → is_among p.store.1 name ≡ true

  noted-AreMade :
      (k : Setting (S × List Str)) (o : BulkOperation)
      (outcome : Result (BulkResult × Reference) × S) (p : Progress (S × List Str))
      → AreMade p
      → AreMade (noted k o (recorded_outcome o.bulk_id p.store.1 outcome) p).1
  unfolding noted AreMade
  noted-AreMade k o (err e, s) p h = h
  noted-AreMade k o (ok (result, r), s) p h = λ name.
      if_cases (λ z. is_resolved z name ≡ true → is_among (o.bulk_id ∷ p.store.1) name ≡ true)
        (str_eq o.bulk_id []) _ _ (λ e q. rw (h name q) (or-true (str_eq name o.bulk_id)))
        (λ e. is_among-more name o.bulk_id r p.references p.store.1 (h name))

  attempt-AreMade :
      (k : Setting (S × List Str)) (execute : Executor S)
      → k.execute ≡ recorded execute
      → (o : BulkOperation) (p : Progress (S × List Str)) → AreMade p
      → AreMade (attempt k o p).1
  unfolding attempt
  attempt-AreMade k execute e o p h =
      if_cases (λ (z : BulkResult × Progress (S × List Str)). AreMade z.1) (is_blocked k o p) _ _
        (λ blocked. unfold noted AreMade in h)
        (λ free.
          subst
            (λ (z : Executor (S × List Str)). AreMade (noted k o (z o p.references p.store) p).1)
            (sym e) (noted-AreMade k o (execute o p.references p.store.0) p h))

module _ {ℓ} {S : Type ℓ} (dependencies : BulkOperation → List Str)
    (locate : BulkOperation → Map Reference → Str) (fail_on_errors : ℕ) (execute : Executor S)
    (operations : List BulkOperation) (s : S) where
  -- No operation is executed before every operation that it depends on has been executed with success and
  -- has left its reference. The executor records the bulkIds of its successes; one that behaves in any other
  -- way on an operation with a dependency that is not among them, or that has no reference, gives the same
  -- answer.
  pub serve_bulk-executor :
      (g : Executor (S × List Str))
      → ((o : BulkOperation) (references : Map Reference) (t : S) (succeeded : List Str)
          → all (is_resolved references) (dependencies o) ≡ true
          → all (is_among succeeded) (dependencies o) ≡ true
          → recorded execute o references (t, succeeded) ≡ g o references (t, succeeded))
      → serve_bulk dependencies locate fail_on_errors (recorded execute) operations (s, [])
        ≡ serve_bulk dependencies locate fail_on_errors g operations (s, [])
  unfolding serve_bulk AreMade lookup
  serve_bulk-executor g agree =
      let k = setting dependencies locate fail_on_errors (recorded execute) operations in
      rounds-same k AreMade (attempt-AreMade k execute refl) g
        (λ o p made ready.
          agree o p.references p.store.0 p.store.1 ready (all_imp _ _ (dependencies o) made ready))
        (length operations) (fresh_entries operations) _ (λ name h. cc)
