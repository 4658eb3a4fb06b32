-- ===== src/Bulk/Invariant.antt =====
-- What a Bulk request keeps of the store: `serveBulk` and `executeBulkOperation` of pkg/scim/bulk_execute.go.
use gotth_scim.Base.{
  if_cases, ℕ, ◌+◌, ◌≤◌, Bool, true, false, Str, bytes, str_eq, Map, length, some, List, [], ◌∷◌,
  ◌++◌, Unicode, ◌≡◌, refl, sym, ap, ◌∙◌, subst, ◌⊎◌, inl, inr, arith, all, length-append, All,
  All-append, str_eq_refl,
}
use gotth_scim.Failure.{Result, ok, err}
use gotth_scim.Json.Decode.{Codec}
use gotth_scim.Schema.{Definition}
use gotth_scim.Filter.{Literals}
use gotth_scim.Store.{Record, State}
use gotth_scim.Store.Memory.Consistent.{IsConsistent}
use gotth_scim.Patch.{PatchOp}
use gotth_scim.Resource.{Syntax, Callbacks}
use gotth_scim.Server.{Config, Context}
use gotth_scim.Server.Requests.{
  Request, creating, replacing, patching, removing, Call, serve, serve_all,
}
use gotth_scim.Server.History.{serve_all-IsConsistent}
use gotth_scim.Bulk.{BulkOperation, Reference, Wire}
use gotth_scim.Bulk.Schedule.{
  BulkResult, Entry, Progress, Setting, is_done, noted, attempt, is_blocked, blocked_failure,
  limit_reached, fresh_entries,
}
use gotth_scim.Bulk.Asked.{asks_for, asked, is_asked, IsIn, All-IsIn}
use gotth_scim.Bulk.Kept.{rounds-keeps, AllFor-fresh}
use gotth_scim.Bulk.Order.{operations_of, rounds_finish}
use gotth_scim.Bulk.Execute.{
  Site, resolved_operation, after_write, after_removal, apply_decoded, by_method, at_next,
  execute_resolved, request_setting, execute_bulk_operation, serve_bulk_request,
}

module _ (u : Unicode) (l : Literals) (x : Syntax) (cb : Callbacks) (c : Codec) (cfg : Config) where
  serve_all-append :
      (calls more : List Call) (s : State)
      → serve_all u l x cb c cfg (calls ++ more) s
        ≡ serve_all u l x cb c cfg more (serve_all u l x cb c cfg calls s)
  unfolding serve_all
  serve_all-append [] more s = refl
  serve_all-append (k ∷ calls) more s =
      serve_all-append calls more (serve u l x cb c cfg k.definition k.context k.request s).1

  -- The store of the second is that of the first, or what one request leaves of it for which the operation
  -- asks.
  abbrev Serves : BulkOperation → State → State → Type 0
  Serves o s s' =
      (s' ≡ s)
      ⊎ ((k : Call) × (s' ≡ (serve u l x cb c cfg k.definition k.context k.request s).1)
          × (asks_for o k.request ≡ true))

  module _ (w : Wire) (site : Site) where
    after_write-store :
        (o : BulkOperation) (d : Definition) (made : Bool) (result : Result Record × State)
        → (after_write u l x cb c cfg w site o d made result).1 ≡ result.1
    unfolding after_write
    after_write-store o d true (ok r, s) = refl
    after_write-store o d false (ok r, s) = refl
    after_write-store o d true (err e, s) = refl
    after_write-store o d false (err e, s) = refl

    after_removal-store :
        (o : BulkOperation) (d : Definition) (id : Str) (result : Result Record × State)
        → (after_removal u l x cb c cfg w site o d id result).1 ≡ result.1
    unfolding after_removal
    after_removal-store o d id (ok r, s) = refl
    after_removal-store o d id (err e, s) = refl

    write-Serves :
        (o : BulkOperation) (d : Definition) (q : Context) (made : Bool) (request : Request)
        (s : State)
        → asks_for o request ≡ true
        → Serves o s
            (after_write u l x cb c cfg w site o d made (serve u l x cb c cfg d q request s)).1
    write-Serves o d q made request s asks = inr (
      record { definition = d; context = q; request = request },
      after_write-store o d made (serve u l x cb c cfg d q request s),
      asks,
    )

    apply_decoded-Serves :
        (o : BulkOperation) (q : Context) (d : Definition) (id : Str) (s : State)
        (decoded : Result (List PatchOp))
        → str_eq o.method (bytes "PATCH") ≡ true
        → Serves o s (apply_decoded u l x cb c cfg w site o q d id s decoded).1
    unfolding apply_decoded serve
    apply_decoded-Serves o q d id s (err _) m = inl refl
    apply_decoded-Serves o q d id s (ok operations) m =
        write-Serves o d q false (patching id operations o.version []) s (asked _ o.version m)

    by_method-Serves :
        (o : BulkOperation) (q : Context) (about : Definition × Str × Str) (s : State)
        → Serves o s (by_method u l x cb c cfg w site o q about s).1
    unfolding by_method serve
    by_method-Serves o q (d, id, body) s =
        let P : Result (BulkResult × Reference) × State → Type 0 = λ z. Serves o s z.1 in
        if_cases P (str_eq o.method (bytes "POST")) _ _
          (λ e. write-Serves o d q true (creating [] body) s (rw (e, str_eq_refl []) refl))
          (λ e.
            if_cases P (str_eq o.method (bytes "PUT")) _ _
              (λ e.
                write-Serves o d q false (replacing id body o.version []) s (asked _ o.version e))
              (λ e.
                if_cases P (str_eq o.method (bytes "PATCH")) _ _
                  (λ e. apply_decoded-Serves o q d id s _ e)
                  (λ e.
                    if_cases P (str_eq o.method (bytes "DELETE")) _ _
                      (λ e.
                        let removal : Request = removing id o.version [] in
                        inr (
                          record { definition = d; context = q; request = removal },
                          after_removal-store o d id (serve u l x cb c cfg d q removal s),
                          asked _ o.version e,
                        ))
                      (λ e. inl refl))))

    module _ (operations : List BulkOperation) (s : State) where
      -- What a number of executions has done to the store: a sequence of requests, one for each at most, and
      -- each one asked for.
      abbrev IsServed : ℕ × State → Type 0
      IsServed (n, s') =
          (calls : List Call) × (s' ≡ serve_all u l x cb c cfg calls s)
          × (length calls ≤ n)
          × All (λ k. is_asked operations k ≡ true) calls

      IsServed-next :
          (o : BulkOperation) (n : ℕ) (s' s'' : State)
          → IsIn operations o
          → IsServed (n, s')
          → Serves o s' s''
          → IsServed (n + 1, s'')
      unfolding serve_all
      IsServed-next o n s' s'' mine (calls, same, few, all_asked) (inl e) =
          (calls, e ∙ same, omega arith, all_asked)
      IsServed-next o n s' s'' mine (calls, same, few, all_asked) (inr (k, e, asks)) = (
        calls ++ (k ∷ []),
        e
            ∙ ap (λ z. (serve u l x cb c cfg k.definition k.context k.request z).1) same
            ∙ sym (serve_all-append calls (k ∷ []) s),
        omega (arith, length-append calls (k ∷ [])),
        All-append _ calls (k ∷ []) all_asked (mine k.request asks, tt),
      )

      execute_resolved-IsServed :
          (o : BulkOperation) (n : ℕ) (s' : State) (about : Result (Definition × Str × Str))
          → IsIn operations o
          → IsServed (n, s')
          → IsServed (execute_resolved u l x cb c cfg w site o n s' about).1
      unfolding execute_resolved
      execute_resolved-IsServed o n s' (err e) mine h = h
      execute_resolved-IsServed o n s' (ok about) mine h =
          let outcome = by_method u l x cb c cfg w site o (site.contexts n) about s' in
          unfold at_next in
          IsServed-next o n s' outcome.1 mine h (by_method-Serves o (site.contexts n) about s')

      execute-IsServed :
          (o : BulkOperation) (references : Map Reference) (t : ℕ × State)
          → IsIn operations o
          → IsServed t
          → IsServed (execute_bulk_operation u l x cb c cfg w site o references t).1
      unfolding execute_bulk_operation
      execute-IsServed o references (n, s') mine h =
          execute_resolved-IsServed o n s' (resolved_operation u l x cb c cfg w site o references)
            mine h

    module _ (fail_on_errors : ℕ) (operations : List BulkOperation) (s : State) where
      abbrev settings : Setting (ℕ × State)
      settings = request_setting u l x cb c cfg w site fail_on_errors operations

      noted-IsServed :
          (o : BulkOperation) (outcome : Result (BulkResult × Reference) × (ℕ × State))
          (p : Progress (ℕ × State))
          → IsServed operations s outcome.1
          → IsServed operations s (noted settings o outcome p).1.store
      unfolding noted
      noted-IsServed o (ok (result, reference), t) p h = h
      noted-IsServed o (err e, t) p h = h

      attempt-IsServed :
          (o : BulkOperation) (p : Progress (ℕ × State))
          → IsIn operations o
          → IsServed operations s p.store
          → IsServed operations s (attempt settings o p).1.store
      unfolding attempt request_setting
      attempt-IsServed o p mine h =
          if_cases (λ (z : BulkResult × Progress (ℕ × State)). IsServed operations s z.1.store)
            (is_blocked settings o p) _ _
            (λ blocked. noted-IsServed o (err (blocked_failure settings), p.store) p h)
            (λ free.
              noted-IsServed o (execute_bulk_operation u l x cb c cfg w site o p.references p.store)
                p (execute-IsServed operations s o p.references p.store mine h))

      -- A Bulk request that is executed on the server ends, whatever its operations and however many of
      -- them fail. Every entry of its answer has been reported, and the entries are the operations in their
      -- places unless the failures reached the request's limit. It leaves in the store what a sequence of
      -- ordinary requests leaves there: at most one for each operation that was executed, each of the method
      -- of one of the operations and, unless it creates, with that operation's version as its If-Match. So
      -- it leads from a consistent store to one.
      pub serve_bulk_request-IsConsistent :
          IsConsistent u s
          → (es : List Entry) × (p : Progress (ℕ × State)) × (serve_bulk_request u l x cb c cfg w
                site fail_on_errors operations s
              ≡ some (es, p))
            × (all is_done es ≡ true)
            × ((operations_of es ≡ operations) ⊎ (limit_reached settings p ≡ true))
            × ((calls : List Call) × (p.store.1 ≡ serve_all u l x cb c cfg calls s)
                × (length calls ≤ p.store.0)
                × All (λ k. is_asked operations k ≡ true) calls)
            × IsConsistent u p.store.1
      unfolding serve_bulk_request
      serve_bulk_request-IsConsistent h =
          let start : Progress (ℕ × State) = record {
            references = [];
            failed = [];
            failures = 0;
            store = (0, s);
          } in
          let begun : IsServed operations s (0, s) =
            ([], unfold serve_all in refl, omega arith, tt) in
          let (es, p, same, reported, placed) = rounds_finish settings operations start in
          let (calls, done, few, all_asked) =
            rounds-keeps settings (IsIn operations) (λ z. IsServed operations s z.store)
              attempt-IsServed (length operations) (fresh_entries operations) start
              (AllFor-fresh (IsIn operations) operations (All-IsIn operations)) begun same in
          (
            es,
            p,
            same,
            reported,
            placed,
            (calls, done, few, all_asked),
            subst (IsConsistent u) (sym done) (serve_all-IsConsistent u l x cb c cfg calls s h),
          )
