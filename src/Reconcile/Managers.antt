-- ===== src/Reconcile/Managers.antt =====
-- A reconciliation leaves other managers alone: `Reconcile` of pkg/scim/reconcile.go.
use gotth_scim.Base.{
  ℕ, Bool, true, false, not, Bool-cases, Str, str_eq, str_eq_iff, eq_of_str_eq, Map, lookup, erase,
  any, All, All-insert, All-erase, if_cases, Option, none, some, List, [], ◌∷◌, Unicode, ◌≡◌, ◌≢◌,
  refl, sym, ap, ◌∙◌, subst, arith, inl, inr,
}
use gotth_scim.Failure.{
  Result, ok, err, fault, conflict, tombstoned, >>=-eq-ok, refuse-ok, ok-injective,
}
use gotth_scim.Json.Decode.{Codec}
use gotth_scim.Schema.{Definition}
use gotth_scim.Filter.{Literals}
use gotth_scim.Store.{Record, State}
use gotth_scim.Store.Memory.{
  transact, list, tombstones_of, get, delete, tombstone_fits, same_identity,
}
use gotth_scim.Store.Memory as Memory
use gotth_scim.Store.Memory.Access.{transact-cases}
use gotth_scim.Store.Versions.{new_record, replacement_record}
use gotth_scim.Store.Versions.Kept.{replacement_record-SameIdentity}
use gotth_scim.Server.{with, outcome}
use gotth_scim.Resource.{Syntax, Callbacks}
use gotth_scim.Reconcile.{
  reconcile, ReconcileRequest, prepared_request, external_key, Run, Found, PreparedDesired,
  ReconcileResult, add_live, gather, create_desired, store_update, update_desired, place_desired,
  place_all, delete_missing, finish_missing, reconcile_in,
}
use gotth_scim.Reconcile.Writes.{Spares, create-Spares, replace-Spares, delete-Spares}

module _ (u : Unicode) (c : Codec) where
  module _ (l : Literals) (x : Syntax) (cb : Callbacks) (scope manager : Str)
      (fresh : ℕ → Result Str) (now : ℕ) where
    Spares-trans :
        (s s' s'' : State) → Spares manager s s' → Spares manager s' s'' → Spares manager s s''
    Spares-trans s s' s'' h g k r e other = g k r (h k r e other) other

    create_desired-Spares :
        (desired : PreparedDesired) (run run' : Run)
        → create_desired u l x cb c scope manager fresh now desired run ≡ ok run'
        → Spares manager run.store run'.store
    unfolding create_desired
    create_desired-Spares desired run run' h =
        let (id, _, h1) = >>=-eq-ok (fresh run.drawn) _ h in
        let (r, _, h2) =
          >>=-eq-ok
            (new_record u c scope manager desired.definition.name id desired.external_id
              desired.document desired.indexes now [])
            _ h1 in
        let (s', stored, h3) = >>=-eq-ok (Memory.create u c r run.store) _ h2 in
        let same = ap (λ (z : Run). z.store) (ok-injective h3) in
        subst (Spares manager run.store) same (create-Spares u c manager r run.store s' stored)

    store_update-Spares :
        (key : Str) (existing : Record) (updated : Record × Bool) (run run' : Run)
        → updated.0.manager ≡ manager
        → store_update u l x cb c scope manager fresh now key existing updated run ≡ ok run'
        → Spares manager run.store run'.store
    unfolding store_update
    store_update-Spares key existing (r, false) run run' mine h =
        subst (Spares manager run.store) (ap (λ (z : Run). z.store) (ok-injective h))
          (λ k r0 e other. e)
    store_update-Spares key existing (r, true) run run' mine h =
        let (s', stored, h1) = >>=-eq-ok (Memory.replace u c r existing.version run.store) _ h in
        subst (Spares manager run.store) (ap (λ (z : Run). z.store) (ok-injective h1))
          (replace-Spares u c manager r existing.version run.store s' mine stored)

    place_desired-Spares :
        (key : Str) (existing : Option Record) (desired : PreparedDesired) (run run' : Run)
        → place_desired u l x cb c scope manager fresh now key existing desired run ≡ ok run'
        → Spares manager run.store run'.store
    unfolding place_desired update_desired
    place_desired-Spares key none desired run run' h = create_desired-Spares desired run run' h
    place_desired-Spares key (some existing) desired run run' h =
        let (owned, h1) = refuse-ok (not (str_eq existing.manager manager)) conflict _ h in
        let (updated, made, h2) =
          >>=-eq-ok
            (replacement_record u c existing desired.external_id desired.document desired.indexes
              now none)
            _ h1 in
        let (identity, _) =
          replacement_record-SameIdentity u c existing desired.external_id desired.document
            desired.indexes now none updated.0 updated.1 made in
        let existing_mine : existing.manager ≡ manager =
          ground (arith, str_eq_iff existing.manager manager) in
        store_update-Spares key existing updated run run' (identity.3 ∙ existing_mine) h2

    place_all-Spares :
        (found : Found) (prepared : List PreparedDesired) (run run' : Run)
        → place_all u l x cb c scope manager fresh now found prepared run ≡ ok run'
        → Spares manager run.store run'.store
    unfolding place_all
    place_all-Spares found [] run run' h =
        subst (Spares manager run.store) (ap (λ (z : Run). z.store) (ok-injective h))
          (λ k r0 e other. e)
    place_all-Spares found (desired ∷ rest) run run' h =
        let (_, h1) = refuse-ok _ tombstoned _ h in
        let (next, placed, h2) =
          >>=-eq-ok (place_desired u l x cb c scope manager fresh now _ _ desired run) _ h1 in
        Spares-trans run.store next.store run'.store
          (place_desired-Spares _ _ desired run next placed)
          (place_all-Spares found rest next run' h2)

    -- The records that may be deleted carry the manager's mark.
    abbrev AllMine : Map Record → Type 0
    AllMine records = All (λ p. p.1.manager ≡ manager) records

    delete_missing-Spares :
        (records : Map Record) (run run' : Run)
        → AllMine records
        → delete_missing u l x cb c scope manager fresh now records run ≡ ok run'
        → Spares manager run.store run'.store
    unfolding delete_missing
    delete_missing-Spares [] run run' mine h =
        subst (Spares manager run.store) (ap (λ (z : Run). z.store) (ok-injective h))
          (λ k r0 e other. e)
    delete_missing-Spares ((key, r) ∷ records) run run' (mine, others) h =
        let (s', gone, h1) =
          >>=-eq-ok (delete r.scope r.resource_type r.id r.version _ run.store) _ h in
        Spares-trans run.store s' run'.store
          (delete-Spares u c manager r.scope r.resource_type r.id r.version _ run.store s' mine
            gone)
          (delete_missing-Spares records _ run' others h1)

    add_live-AllMine :
        (records : List Record) (found found' : Found)
        → AllMine found.managed
        → add_live manager records found ≡ ok found'
        → AllMine found'.managed
    unfolding add_live
    add_live-AllMine [] found found' mine h =
        subst AllMine (ap (λ (z : Found). z.managed) (ok-injective h)) mine
    add_live-AllMine (r ∷ records) found found' mine h =
        elim (Bool-cases (str_eq r.external_id [])) [
          | inl e ↦ add_live-AllMine records found found' mine (rw (e, add_live) at h)
          | inr e ↦
              let key = external_key r.resource_type r.external_id in
              let (_, h1) =
                refuse-ok (any (λ p. str_eq p.0 key) found.live) fault _ (rw (e, add_live) at h) in
              add_live-AllMine records _ found'
                (if_cases AllMine (str_eq r.manager manager) _ _
                  (λ own.
                    All-insert (λ p. p.1.manager ≡ manager) key r found.managed
                      (eq_of_str_eq r.manager manager own) mine)
                  (λ foreign. mine))
                h1
        ]

    gather-AllMine :
        (definitions : List Definition) (s : State) (found found' : Found)
        → AllMine found.managed
        → gather u l x cb c scope manager definitions s found ≡ ok found'
        → AllMine found'.managed
    unfolding gather
    gather-AllMine [] s found found' mine h =
        subst AllMine (ap (λ (z : Found). z.managed) (ok-injective h)) mine
    gather-AllMine (d ∷ definitions) s found found' mine h =
        let (records, _, h1) = >>=-eq-ok (list u _ s) _ h in
        let (more, added, h2) = >>=-eq-ok (add_live manager records found) _ h1 in
        let (ts, _, h3) = >>=-eq-ok (tombstones_of scope d.name s) _ h2 in
        gather-AllMine definitions s _ found' (add_live-AllMine records found more mine added) h3

    place_desired-AllMine :
        (key : Str) (existing : Option Record) (desired : PreparedDesired) (run run' : Run)
        → AllMine run.managed
        → place_desired u l x cb c scope manager fresh now key existing desired run ≡ ok run'
        → AllMine run'.managed
    unfolding place_desired update_desired create_desired
    place_desired-AllMine key none desired run run' mine h =
        let (id, _, h1) = >>=-eq-ok (fresh run.drawn) _ h in
        let (r, _, h2) =
          >>=-eq-ok
            (new_record u c scope manager desired.definition.name id desired.external_id
              desired.document desired.indexes now [])
            _ h1 in
        let (s', _, h3) = >>=-eq-ok (Memory.create u c r run.store) _ h2 in
        subst AllMine (ap (λ (z : Run). z.managed) (ok-injective h3)) mine
    place_desired-AllMine key (some existing) desired run run' mine h =
        let (_, h1) = refuse-ok (not (str_eq existing.manager manager)) conflict _ h in
        let (updated, _, h2) =
          >>=-eq-ok
            (replacement_record u c existing desired.external_id desired.document desired.indexes
              now none)
            _ h1 in
        settled updated h2
      where
        erased : AllMine (erase key run.managed)
        erased = All-erase (λ p. p.1.manager ≡ manager) key run.managed mine

        settled :
            (updated : Record × Bool)
            → store_update u l x cb c scope manager fresh now key existing updated run ≡ ok run'
            → AllMine run'.managed
        settled (r, false) g = subst AllMine (ap (λ (z : Run). z.managed) (ok-injective g)) erased
        settled (r, true) g =
            let (s', _, g1) = >>=-eq-ok (Memory.replace u c r existing.version run.store) _ g in
            subst AllMine (ap (λ (z : Run). z.managed) (ok-injective g1)) erased

    place_all-AllMine :
        (found : Found) (prepared : List PreparedDesired) (run run' : Run)
        → AllMine run.managed
        → place_all u l x cb c scope manager fresh now found prepared run ≡ ok run'
        → AllMine run'.managed
    unfolding place_all
    place_all-AllMine found [] run run' mine h =
        subst AllMine (ap (λ (z : Run). z.managed) (ok-injective h)) mine
    place_all-AllMine found (desired ∷ rest) run run' mine h =
        let (_, h1) = refuse-ok _ tombstoned _ h in
        let (next, placed, h2) =
          >>=-eq-ok (place_desired u l x cb c scope manager fresh now _ _ desired run) _ h1 in
        place_all-AllMine found rest next run'
          (place_desired-AllMine _ _ desired run next mine placed) h2

    finish_missing-Spares :
        (missing : Bool) (run run' : Run)
        → AllMine run.managed
        → finish_missing u l x cb c scope manager fresh now missing run ≡ ok run'
        → Spares manager run.store run'.store
    unfolding finish_missing
    finish_missing-Spares true run run' mine h = delete_missing-Spares run.managed run run' mine h
    finish_missing-Spares false run run' mine h =
        subst (Spares manager run.store) (ap (λ (z : Run). z.store) (ok-injective h))
          (λ k r0 e other. e)

    reconcile_in-Spares :
        (definitions : List Definition) (missing : Bool) (prepared : List PreparedDesired)
        (s s' : State) (result : ReconcileResult)
        → reconcile_in u l x cb c scope manager fresh now definitions missing prepared s
          ≡ ok (result, s')
        → Spares manager s s'
    unfolding reconcile_in
    reconcile_in-Spares definitions missing prepared s s' result h =
        let (found, gathered, h1) =
          >>=-eq-ok
            (gather u l x cb c scope manager definitions s
              (record { live = []; managed = []; tombstoned = [] }))
            _ h in
        let (run, placed, h2) =
          >>=-eq-ok (place_all u l x cb c scope manager fresh now found prepared _) _ h1 in
        let (done, finished, h3) =
          >>=-eq-ok (finish_missing u l x cb c scope manager fresh now missing run) _ h2 in
        let mine = gather-AllMine definitions s _ found tt gathered in
        let same = ap (λ (z : ReconcileResult × State). z.1) (ok-injective h3) in
        subst (Spares manager s) same (
          Spares-trans s run.store done.store (place_all-Spares found prepared _ run placed) (
            finish_missing-Spares missing run done
              (place_all-AllMine found prepared _ run mine placed) finished))

  reconcile_all-Spares :
      (l : Literals) (x : Syntax) (cb : Callbacks) (definitions : List Definition)
      (by_name : Str → Option Definition) (fresh : ℕ → Result Str) (now : ℕ) (before after : Bool)
      (request : ReconcileRequest) (s : State)
      → Spares request.manager s
          (reconcile u l x cb c definitions by_name fresh now before after request s).1
  unfolding reconcile
  reconcile_all-Spares l x cb definitions by_name fresh now before after request s =
      go (prepared_request u l x cb c by_name now request)
    where
      committed :
          (o : Result (ReconcileResult × State))
          → ((result : ReconcileResult) (s' : State)
              → o ≡ ok (result, s')
              → Spares request.manager s s')
          → Spares request.manager s (outcome s o).1
      committed (ok (result, s')) h = h result s' refl
      committed (err e) h = λ k r e other. e

      callback : List PreparedDesired → State → Result ReconcileResult × State
      callback prepared working = outcome working (
          reconcile_in u l x cb c request.scope request.manager fresh now definitions
            request.delete_missing prepared working)

      go :
          (m : Result (List PreparedDesired))
          → Spares request.manager s
              (with m (λ prepared. transact before after (callback prepared)) s).1
      go (err e) = λ k r at_k other. at_k
      go (ok prepared) = elim (transact-cases before after (callback prepared) s) [
        | inl (a, _, _, _, same) ↦
            subst (λ (z : Result ReconcileResult × State). Spares request.manager s z.1) (sym same)
              (committed _ (λ result s' h.
                reconcile_in-Spares l x cb request.scope request.manager fresh now definitions
                  request.delete_missing prepared s s' result h))
        | inr (e, same) ↦
            subst (λ (z : Result ReconcileResult × State). Spares request.manager s z.1) (sym same)
              (λ k r at_k other. at_k)
      ]

  -- A reconciliation leaves every record that carries another manager's mark as it is and where it is, whatever
  -- it is asked for, whether it deletes what is missing or not, and whether it succeeds or fails.
  pub reconcile-Spares :
      (l : Literals) (x : Syntax) (cb : Callbacks) (definitions : List Definition)
      (by_name : Str → Option Definition) (fresh : ℕ → Result Str) (now : ℕ) (before after : Bool)
      (request : ReconcileRequest) (s : State) (k : Str) (r : Record)
      → lookup k s.records ≡ some r
      → r.manager ≢ request.manager
      → lookup k
          (reconcile u l x cb c definitions by_name fresh now before after request s).1.records
        ≡ some r
  reconcile-Spares l x cb definitions by_name fresh now before after request s k r at_k other =
      reconcile_all-Spares l x cb definitions by_name fresh now before after request s k r at_k
        other
