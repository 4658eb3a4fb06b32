-- ===== src/Bulk/Schedule.antt =====
-- The scheduling of the operations of a Bulk request: `serveBulk` of pkg/scim/bulk_execute.go, behind the
-- decoding of the request. The store has any type, and executing an operation and locating it are
-- parameters, so that what is proved holds of every store and every registry.
use gotth_scim.Base.{
  ℕ, zero, suc, ◌+◌, Bool, true, false, ◌&&◌, ◌||◌, not, ltb, leb, ◌==◌, if◌then◌else◌, Str, bytes,
  str_eq, Map, insert, length, any, all, select, map, Option, none, some, List, [], ◌∷◌,
}
use gotth_scim.Failure.{Failure, Result, ok, err, client_error}
use gotth_scim.Failure.Response.{ErrorResponse, bulk_failure}
use gotth_scim.Bulk.{BulkOperation, Reference}
use gotth_scim.Bulk.References.{is_resolved}

-- `BulkResponseOperation`; a result that has a failure takes its status.
pub record BulkResult : Type 0 where
  pub method : Str
  pub bulk_id : Str
  pub location : Str
  pub version : Str
  pub failure : Option ErrorResponse

-- An operation and what has been reported of it: `done` and `response.Operations` at one index.
pub record Entry : Type 0 where
  pub operation : BulkOperation
  pub reported : Option BulkResult

-- What the loops share.
pub record Progress {ℓ} (S : Type ℓ) : Type ℓ where
  pub references : Map Reference
  pub failed : List Str
  pub failures : ℕ
  pub store : S

abbrev pub is_done : Entry → Bool
is_done e = elim e.reported [ none ↦ false | some _ ↦ true ]

abbrev pub undone : List Entry → ℕ
undone es = length (select (λ e. not (is_done e)) es)

-- What `executeBulkOperation` gives: the result of a success, and the reference that it makes.
abbrev pub Executor {ℓ} : Type ℓ → Type ℓ
Executor S = BulkOperation → Map Reference → S → Result (BulkResult × Reference) × S

-- The parts of a request and of a server that the scheduling uses: `bulkDependencies`, `bulkOperationLocation`,
-- the bulkIds that the request declares, its limit of failures, and `executeBulkOperation`.
pub record Setting {ℓ} (S : Type ℓ) : Type ℓ where
  pub dependencies : BulkOperation → List Str
  pub locate : BulkOperation → Map Reference → Str
  pub declared : List Str
  pub fail_on_errors : ℕ
  pub execute : Executor S

-- What one pass over the operations leaves: the entries, the progress, whether the limit of failures
-- stopped it, and whether it attempted any operation.
pub record Pass {ℓ} (S : Type ℓ) : Type ℓ where
  pub entries : List Entry
  pub progress : Progress S
  pub stopped : Bool
  pub moved : Bool

abbrev pub ahead {ℓ} : {S : Type ℓ} → Entry → Bool → Pass S → Pass S
ahead e moved r = record r { entries = e ∷ r.entries; moved = moved || r.moved }

module _ {ℓ} {S : Type ℓ} (k : Setting S) where
  -- The loop over the dependencies of an operation.
  unfoldable pub is_blocked : BulkOperation → Progress S → Bool
  unfolding str_eq
  is_blocked operation p =
      any (λ d. not (any (str_eq d) k.declared) || any (str_eq d) p.failed)
        (k.dependencies operation)

  unfoldable pub is_ready : BulkOperation → Progress S → Bool
  is_ready operation p = all (is_resolved p.references) (k.dependencies operation)

  -- The result of an operation that failed.
  unfoldable pub failure_of : BulkOperation → Map Reference → Failure → BulkResult
  unfolding bulk_failure
  failure_of operation references e = record {
    method = operation.method;
    bulk_id = operation.bulk_id;
    location = k.locate operation references;
    version = [];
    failure = some (bulk_failure e);
  }

  unfoldable pub blocked_failure : Failure
  unfolding bytes
  blocked_failure =
      client_error 400 (bytes "invalidValue") (bytes "Bulk dependency is unknown or failed")

  unfoldable pub cycle_failure : Failure
  unfolding bytes
  cycle_failure =
      client_error 409 (bytes "invalidValue") (bytes "Bulk dependency cycle is unresolved")

  -- An outcome is noted, under the operation's bulkId if it has one.
  unfoldable pub noted :
      BulkOperation → Result (BulkResult × Reference) × S → Progress S → BulkResult × Progress S
  unfolding failure_of insert
  noted operation (ok (result, reference), s) p = (
    result,
    record p {
      references =
          if str_eq operation.bulk_id []
          then p.references
          else insert operation.bulk_id reference p.references;
      store = s;
    },
  )
  noted operation (err e, s) p = (
    failure_of operation p.references e,
    record p {
      failed = if str_eq operation.bulk_id [] then p.failed else operation.bulk_id ∷ p.failed;
      failures = p.failures + 1;
      store = s;
    },
  )

  -- The body of the loop, for an operation that is blocked or ready.
  unfoldable pub attempt : BulkOperation → Progress S → BulkResult × Progress S
  unfolding noted is_blocked blocked_failure
  attempt operation p =
      if is_blocked operation p
      then noted operation (err blocked_failure, p.store) p
      else noted operation (k.execute operation p.references p.store) p

  unfoldable pub limit_reached : Progress S → Bool
  limit_reached p = ltb 0 k.fail_on_errors && leb k.fail_on_errors p.failures

  -- An attempt, and the rest of the pass, which the limit cuts off.
  unfoldable pub attempted : Entry → BulkResult → List Entry → Progress S → Pass S → Pass S
  unfolding limit_reached
  attempted e result es p rest =
      let reported = record e { reported = some result } in
      let stop : Pass S = record {
        entries = reported ∷ es;
        progress = p;
        stopped = true;
        moved = true;
      } in
      if limit_reached p then stop else ahead reported true rest

  unfoldable pub is_skipped : Entry → Progress S → Bool
  unfolding is_ready is_blocked
  is_skipped e p = is_done e || (not (is_ready e.operation p) && not (is_blocked e.operation p))

  unfoldable pub pass : List Entry → Progress S → Pass S
  unfolding attempt attempted is_skipped
  pass [] p = record { entries = []; progress = p; stopped = false; moved = false }
  pass (e ∷ es) p =
      let later = attempt e.operation p in
      let skipped = ahead e false (pass es p) in
      let gone = attempted e later.0 es later.1 (pass es later.1) in
      if is_skipped e p then skipped else gone

  -- The operations that are left when a pass attempts none.
  unfoldable pub report_cycle : Progress S → Entry → Entry
  unfolding failure_of cycle_failure
  report_cycle p e = elim e.reported [
    | some _ ↦ e
    | none ↦ record e { reported = some (failure_of e.operation p.references cycle_failure) }
  ]

  -- What follows a pass: the end, with those done when the limit stopped it or with the cycles reported, or
  -- the next pass.
  unfoldable pub after_pass :
      Pass S → Option (List Entry × Progress S) → Option (List Entry × Progress S)
  unfolding report_cycle
  after_pass r next =
      if r.stopped
      then some (select is_done r.entries, r.progress)
      else if r.moved
      then next
      else some (map (report_cycle r.progress) r.entries, r.progress)

  -- The outer loop. `none` is running out of fuel.
  unfoldable pub rounds : ℕ → List Entry → Progress S → Option (List Entry × Progress S)
  unfolding pass after_pass
  rounds zero es p = if undone es == 0 then some (es, p) else none
  rounds (suc fuel) es p =
      let r = pass es p in
      let next = rounds fuel r.entries r.progress in
      if undone es == 0 then some (es, p) else after_pass r next

-- `declaredReferences`
unfoldable pub declared_references : List BulkOperation → List Str
unfolding str_eq
declared_references [] = []
declared_references (o ∷ operations) =
    let rest = declared_references operations in
    if str_eq o.bulk_id [] then rest else o.bulk_id ∷ rest

abbrev pub fresh_entries : List BulkOperation → List Entry
fresh_entries [] = []
fresh_entries (o ∷ operations) =
    record { operation = o; reported = none } ∷ fresh_entries operations

abbrev pub setting {ℓ} :
    {S : Type ℓ}
    → (BulkOperation → List Str)
    → (BulkOperation → Map Reference → Str)
    → ℕ
    → Executor S
    → List BulkOperation
    → Setting S
setting dependencies locate fail_on_errors execute operations = record {
  dependencies = dependencies;
  locate = locate;
  declared = declared_references operations;
  fail_on_errors = fail_on_errors;
  execute = execute;
}

-- `serveBulk` on the operations of a request, with one round of fuel for each.
unfoldable pub serve_bulk {ℓ} :
    {S : Type ℓ}
    → (BulkOperation → List Str)
    → (BulkOperation → Map Reference → Str)
    → ℕ
    → Executor S
    → List BulkOperation
    → S
    → Option (List Entry × Progress S)
unfolding rounds declared_references
serve_bulk dependencies locate fail_on_errors execute operations s =
    rounds (setting dependencies locate fail_on_errors execute operations) (length operations)
      (fresh_entries operations) (record { references = []; failed = []; failures = 0; store = s })
