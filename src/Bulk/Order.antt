-- ===== src/Bulk/Order.antt =====
-- What the scheduling of a Bulk request guarantees: `serveBulk` of pkg/scim/bulk_execute.go.
use gotth_scim.Base.{
  ℕ, zero, suc, ◌≤◌, ◌<◌, true, false, ◌==◌, Bool-cases, Str, Map, length, all, select, map, Option,
  some, List, [], ◌∷◌, ◌≡◌, refl, ap, ◌∙◌, arith, inl, inr, ◌⊎◌, if_cases, Option-cases, subst,
  or-eq-false,
}
use gotth_scim.Bulk.{BulkOperation, Reference}
use gotth_scim.Bulk.Schedule.{
  BulkResult, Entry, Progress, is_done, undone, Setting, setting, ahead, Executor, attempt,
  is_skipped, attempted, limit_reached, Pass, pass, report_cycle, after_pass, rounds, fresh_entries,
  serve_bulk,
}

abbrev pub operations_of : List Entry → List BulkOperation
operations_of [] = []
operations_of (e ∷ es) = e.operation ∷ operations_of es

operations_of-fresh :
    (operations : List BulkOperation) → operations_of (fresh_entries operations) ≡ operations
operations_of-fresh [] = refl
operations_of-fresh (o ∷ operations) = ap (λ r. o ∷ r) (operations_of-fresh operations)

undone-fresh :
    (operations : List BulkOperation) → undone (fresh_entries operations) ≡ length operations
undone-fresh [] = refl
undone-fresh (o ∷ operations) = ap suc (undone-fresh operations)

all_done : (es : List Entry) → undone es ≡ 0 → all is_done es ≡ true
all_done [] h = refl
all_done (e ∷ es) h = elim (Bool-cases (is_done e)) [
  | inl d ↦ rw d (all_done es (rw d at h))
  | inr d ↦ let more : suc (undone es) ≡ 0 = rw d at h in absurd (omega arith)
]

all-select_done : (es : List Entry) → all is_done (select is_done es) ≡ true
all-select_done [] = refl
all-select_done (e ∷ es) = elim (Bool-cases (is_done e)) [
  | inl d ↦ ground (arith, all-select_done es)
  | inr d ↦ rw d (all-select_done es)
]

module _ {ℓ} {S : Type ℓ} (k : Setting S) where
  -- A pass keeps the operations in their places, undoes nothing, does something where it moved, and stops only
  -- at the limit.
  abbrev Advances : List Entry → Pass S → Type 0
  Advances es r =
      (operations_of r.entries ≡ operations_of es)
      × (undone r.entries ≤ undone es)
      × (r.moved ≡ true → undone r.entries < undone es)
      × (r.stopped ≡ true → limit_reached k r.progress ≡ true)

  Advances-skip :
      (e : Entry) (es : List Entry) (r : Pass S)
      → Advances es r
      → Advances (e ∷ es) (ahead e false r)
  Advances-skip e es r (same, fewer, less, stop) =
      (ap (λ z. e.operation ∷ z) same, ground arith, ground arith, stop)

  Advances-go :
      (e : Entry) (result : BulkResult) (es : List Entry) (r : Pass S)
      → is_done e ≡ false
      → Advances es r
      → Advances (e ∷ es) (ahead (record e { reported = some result }) true r)
  Advances-go e result es r h (same, fewer, less, stop) =
      (ap (λ z. e.operation ∷ z) same, ground arith, ground arith, stop)

  attempted-Advances :
      (e : Entry) (result : BulkResult) (es : List Entry) (p : Progress S) (rest : Pass S)
      → is_done e ≡ false
      → Advances es rest
      → Advances (e ∷ es) (attempted k e result es p rest)
  unfolding attempted
  attempted-Advances e result es p rest h ih =
      if_cases (Advances (e ∷ es)) (limit_reached k p) _ _
        (λ limit. (refl, ground arith, (λ m. ground arith), (λ m. limit)))
        (λ more. Advances-go e result es rest h ih)

  pass-Advances : (es : List Entry) (p : Progress S) → Advances es (pass k es p)
  unfolding pass is_skipped
  pass-Advances [] p = (refl, omega arith, (λ h. cc), (λ h. cc))
  pass-Advances (e ∷ es) p =
      let later = attempt k e.operation p in
      if_cases (Advances (e ∷ es)) (is_skipped k e p) _ _
        (λ skip. Advances-skip e es (pass k es p) (pass-Advances es p))
        (λ go.
          attempted-Advances e later.0 es later.1 (pass k es later.1)
            (or-eq-false (is_done e) _ go).0 (pass-Advances es later.1))

  all_done-report_cycle :
      (p : Progress S) (es : List Entry) → all is_done (map (report_cycle k p) es) ≡ true
  unfolding report_cycle
  all_done-report_cycle p [] = refl
  all_done-report_cycle p (e ∷ es) = elim (Option-cases e.reported) [
    | inl h ↦ rw (h, all_done-report_cycle p es) refl
    | inr (r, h) ↦ rw (h, all_done-report_cycle p es) refl
  ]

  operations_of-report_cycle :
      (p : Progress S) (es : List Entry)
      → operations_of (map (report_cycle k p) es) ≡ operations_of es
  unfolding report_cycle
  operations_of-report_cycle p [] = refl
  operations_of-report_cycle p (e ∷ es) = elim (Option-cases e.reported) [
    | inl h ↦ rw (h, operations_of-report_cycle p es) refl
    | inr (r, h) ↦ rw (h, operations_of-report_cycle p es) refl
  ]

  -- The loop ends, with every operation reported in its place, or at the limit with those that were.
  abbrev pub Finishes : List BulkOperation → Option (List Entry × Progress S) → Type ℓ
  Finishes operations o =
      (es : List Entry) × (p : Progress S) × (o ≡ some (es, p))
      × (all is_done es ≡ true)
      × ((operations_of es ≡ operations) ⊎ (limit_reached k p ≡ true))

  after_pass-Finishes :
      (operations : List BulkOperation) (r : Pass S) (next : Option (List Entry × Progress S))
      → operations_of r.entries ≡ operations
      → (r.stopped ≡ true → limit_reached k r.progress ≡ true)
      → (r.moved ≡ true → Finishes operations next)
      → Finishes operations (after_pass k r next)
  unfolding after_pass
  after_pass-Finishes operations r next same stop ih =
      if_cases (Finishes operations) r.stopped _ _
        (λ h. (select is_done r.entries, r.progress, refl, all-select_done r.entries, inr (stop h)))
        (λ h. if_cases (Finishes operations) r.moved _ _ ih (λ g. (
          map (report_cycle k r.progress) r.entries,
          r.progress,
          refl,
          all_done-report_cycle r.progress r.entries,
          inl (operations_of-report_cycle r.progress r.entries ∙ same),
        )))

  rounds-Finishes :
      (fuel : ℕ) (es : List Entry) (p : Progress S)
      → undone es ≤ fuel
      → Finishes (operations_of es) (rounds k fuel es p)
  unfolding rounds
  rounds-Finishes zero es p h =
      if_cases (Finishes (operations_of es)) (undone es == 0) _ _
        (λ e. (es, p, refl, all_done es (ground arith), inl refl)) (λ e. absurd (ground arith))
  rounds-Finishes (suc fuel) es p h =
      let (same, fewer, less, stop) = pass-Advances es p in
      if_cases (Finishes (operations_of es)) (undone es == 0) _ _
        (λ e. (es, p, refl, all_done es (ground arith), inl refl))
        (λ e. after_pass-Finishes (operations_of es) (pass k es p) _ same stop (λ moved.
          subst (λ z. Finishes z (rounds k fuel (pass k es p).entries (pass k es p).progress)) same
            (rounds-Finishes fuel (pass k es p).entries (pass k es p).progress
              (omega (arith, less moved)))))

  -- The loop from the start, with one round of fuel for each operation.
  pub rounds_finish :
      (operations : List BulkOperation) (p : Progress S)
      → Finishes operations (rounds k (length operations) (fresh_entries operations) p)
  rounds_finish operations p =
      subst (λ z. Finishes z (rounds k (length operations) (fresh_entries operations) p))
        (operations_of-fresh operations)
        (rounds-Finishes (length operations) (fresh_entries operations) p
          (omega (arith, undone-fresh operations)))

module _ {ℓ} {S : Type ℓ} (dependencies : BulkOperation → List Str)
    (locate : BulkOperation → Map Reference → Str) (fail_on_errors : ℕ) (execute : Executor S)
    (operations : List BulkOperation) (s : S) where
  -- A Bulk request always ends, whatever its dependencies, cycles included. Every operation has been reported,
  -- once and in its place in the request, or else the failures have reached the request's limit, and then
  -- every entry of the answer has been reported.
  pub serve_bulk-Finishes :
      Finishes
        (setting dependencies locate fail_on_errors execute operations)
        operations
        (serve_bulk dependencies locate fail_on_errors execute operations s)
  unfolding serve_bulk
  serve_bulk-Finishes =
      rounds_finish (setting dependencies locate fail_on_errors execute operations) operations _
