-- ===== src/Server/History.antt =====
-- What holds of the store after requests of pkg/scim/server.go that write.
use gotth_scim.Base.{
  Str, str_eq, lookup, List, [], ◌∷◌, Unicode, ◌≡◌, ◌≢◌, refl, subst, ap, ◌∙◌, false, inl, inr, ◌⊎◌,
}
use gotth_scim.Failure.{Result, ok, err, not_found, ok-injective}
use gotth_scim.Json.Decode.{Codec}
use gotth_scim.Schema.{Definition}
use gotth_scim.Filter.{Literals}
use gotth_scim.Etag.{evaluate_write_preconditions}
use gotth_scim.Store.{Record, State, record_key}
use gotth_scim.Store.Versions.Kept.{SameIdentity}
use gotth_scim.Store.Memory.{get}
use gotth_scim.Store.Memory as Memory
use gotth_scim.Store.Memory.Access.{get-create, get-replace}
use gotth_scim.Store.Memory.Consistent.{IsConsistent, get-lookup, get-scope, at_key}
use gotth_scim.Store.Memory.History.{Write, perform, run, run-IsConsistent, delete_permanent}
use gotth_scim.Patch.{PatchOp}
use gotth_scim.Resource.{Syntax, Callbacks}
use gotth_scim.Server.{Config, Context, creation, create, replace, patch, remove, tombstone_of}
use gotth_scim.Server.Requests.{
  Call, Ends, serve, serve_all, create-Ends, replace-Ends, patch-Ends, remove-Ends,
}
use gotth_scim.Server.Effects.{
  Changed, create_in-parts, change_in-parts, remove_in-parts, serve-Writes,
}

-- What a request that succeeded has done.
Ends-ok :
    (s : State) (result : Result Record × State) (P : Record → State → Type 0) {r : Record}
    {s' : State}
    → Ends s result P
    → result ≡ (ok r, s')
    → P r s'
Ends-ok s result P (inl (e, same)) h = cc
Ends-ok s result P {r} {s'} (inr (r', t, same, p)) h =
    let both : (ok r', t) ≡ (ok r, s') = rw (← same) h in
    let first : ok r' ≡ ok r = ap (λ (z : Result Record × State). z.0) both in
    rw (← ok-injective first, ← ap (λ (z : Result Record × State). z.1) both) p

-- A resource is read back, and the rest of the store is as it was.
abbrev pub Readable : Str → Str → Str → Record → State → State → Type 0
Readable scope resource_type id r s s' =
    (get scope resource_type id s' ≡ ok r)
    × ((k : Str)
        → str_eq (record_key resource_type id) k ≡ false
        → lookup k s'.records ≡ lookup k s.records)
    × (s'.tombstones ≡ s.tombstones)

Readable-at :
    {a a' b b' i i' : Str} (r : Record) (s s' : State)
    → a ≡ a'
    → b ≡ b'
    → i ≡ i'
    → Readable a b i r s s'
    → Readable a' b' i' r s s'
Readable-at r s s' e f g h = rw (← e, ← f, ← g) h

module _ (u : Unicode) (l : Literals) (x : Syntax) (cb : Callbacks) (c : Codec) (cfg : Config) where
  module _ (d : Definition) (q : Context) where
    Changed-Readable :
        (id if_match if_none_match : Str) (s : State) (r : Record) (s' : State)
        → IsConsistent u s
        → Changed u l x cb c cfg d q id if_match if_none_match s r s'
        → (current : Record) × (get q.scope d.name id s ≡ ok current)
          × (evaluate_write_preconditions cfg.weak_etags if_match if_none_match current.version
              ≡ ok tt)
          × SameIdentity r current
          × Readable q.scope d.name id r s s'
    Changed-Readable id if_match if_none_match s r s' h
          (current, found, admitted, same, inl (e, quiet)) =
        (
          current,
          found,
          admitted,
          same,
          (rw (e, quiet) found, rw quiet (λ k other. refl), rw quiet refl),
        )
    Changed-Readable id if_match if_none_match s r s' h
          (current, found, admitted, same, inr stored) =
        let (type_same, id_same) =
          at_key u s d.name id h (get-lookup u q.scope d.name id s found) in
        let (_, back, others, tombs) = get-replace u c r current.version s s' stored in
        let scope_same : r.scope ≡ q.scope = same.0 ∙ get-scope u q.scope d.name id s found in
        let type_is : r.resource_type ≡ d.name = same.1 ∙ type_same in
        let id_is : r.id ≡ id = same.2 ∙ id_same in
        (
          current,
          found,
          admitted,
          same,
          Readable-at r s s' scope_same type_is id_is (back, others, tombs),
        )

    -- A replacement or a PATCH that succeeds found a current resource and met the preconditions against its
    -- version. What it returns has the scope, the type, the id, the manager and the time of creation of
    -- that resource and is read back, and every other record and the tombstones are as they were.
    -- The store is consistent before.
    pub change-Readable :
        (id raw : Str) (operations : List PatchOp) (if_match if_none_match : Str) (s : State)
        (r : Record) (s' : State)
        → IsConsistent u s
        → (replace u l x cb c cfg d q id raw if_match if_none_match s ≡ (ok r, s'))
          ⊎ (patch u l x cb c cfg d q id operations if_match if_none_match s ≡ (ok r, s'))
        → (current : Record) × (get q.scope d.name id s ≡ ok current)
          × (evaluate_write_preconditions cfg.weak_etags if_match if_none_match current.version
              ≡ ok tt)
          × SameIdentity r current
          × Readable q.scope d.name id r s s'
    change-Readable id raw operations if_match if_none_match s r s' h (inl replaced) =
        let (invalid, now, edit, done) =
          Ends-ok s _ _ (replace-Ends u l x cb c cfg d q id raw if_match if_none_match s)
            replaced in
        Changed-Readable id if_match if_none_match s r s' h
          (change_in-parts u l x cb c cfg d q id if_match if_none_match invalid now edit s done)
    change-Readable id raw operations if_match if_none_match s r s' h (inr patched) =
        let (invalid, now, edit, done) =
          Ends-ok s _ _ (patch-Ends u l x cb c cfg d q id operations if_match if_none_match s)
            patched in
        Changed-Readable id if_match if_none_match s r s' h
          (change_in-parts u l x cb c cfg d q id if_match if_none_match invalid now edit s done)

    -- A creation that succeeds returns a resource of the request's scope, the definition's type and the
    -- caller's manager, which is read back under its id; every other record and the tombstones are as they
    -- were, and the preparation of the document and of the secret succeeded before the store was touched.
    pub create-Readable :
        (manager raw : Str) (s : State) (r : Record) (s' : State)
        → create u l x cb c cfg d q manager raw s ≡ (ok r, s')
        → (r.scope ≡ q.scope)
          × (r.resource_type ≡ d.name)
          × (r.manager ≡ manager)
          × ((p : _) × (creation u l x cb c cfg d q raw ≡ ok p) × (r.id ≡ p.2) × (r.created ≡ p.3))
          × Readable q.scope d.name r.id r s s'
    create-Readable manager raw s r s' created =
        let (p, prepared, done) =
          Ends-ok s _ _ (create-Ends u l x cb c cfg d q manager raw s) created in
        let (a, b, e, m, n, stored) = create_in-parts u l x cb c cfg d q manager p s done in
        let (back, others, tombs) = get-create u c r s s' stored in
        (a, b, m, (p, prepared, e, n), Readable-at r s s' a b refl (back, others, tombs))

  run-step :
      (w : Write) (ws : List Write) (s : State) {s' : State}
      → perform u c w s ≡ ok s'
      → run u c ws s' ≡ run u c (w ∷ ws) s
  unfolding run
  run-step w ws s done = rw done refl

  -- Requests, one after the other, do to the store what some history of writes does.
  serve_all-run :
      (calls : List Call) (s : State)
      → (ws : List Write) × (serve_all u l x cb c cfg calls s ≡ run u c ws s)
  unfolding serve_all run
  serve_all-run [] s = ([], refl)
  serve_all-run (k ∷ calls) s =
      let after : State = (serve u l x cb c cfg k.definition k.context k.request s).1 in
      let (ws, later) = serve_all-run calls after in
      elim (serve-Writes u l x cb c cfg k.definition k.context k.request s) [
        | inl (e, same) ↦ (ws, later ∙ ap (run u c ws) (ap (λ z. z.1) same))
        | inr (r, s', same, inl quiet) ↦ (ws, later ∙ ap (run u c ws) (ap (λ z. z.1) same ∙ quiet))
        | inr (r, s', same, inr (w, done)) ↦
            ((w ∷ ws), later ∙ ap (run u c ws) (ap (λ z. z.1) same) ∙ run-step w ws s done)
      ]

  -- Whatever requests are served one after the other, failing ones included, a store that is consistent
  -- stays so: records stand under their own keys, no two live records share an id or a unique index, and no
  -- live record has the id of a tombstone.
  pub serve_all-IsConsistent :
      (calls : List Call) (s : State)
      → IsConsistent u s
      → IsConsistent u (serve_all u l x cb c cfg calls s)
  serve_all-IsConsistent calls s h =
      let (ws, same) = serve_all-run calls s in rw same (run-IsConsistent u c ws s h)

  -- After a `remove` that succeeds, whatever requests follow, no scope and no resource type shows a
  -- resource with that id again, and no creation returns one with it. The store is consistent before.
  pub remove_permanent :
      (d : Definition) (q : Context) (id if_match if_none_match : Str) (s s' : State) (r : Record)
      (calls : List Call)
      → IsConsistent u s
      → remove u l x cb c cfg d q id if_match if_none_match s ≡ (ok r, s')
      → ((scope' type' : Str)
          → get scope' type' id (serve_all u l x cb c cfg calls s') ≡ err not_found)
        × ((d' : Definition) (q' : Context) (manager raw : Str) (r' : Record) (t : State)
            → create u l x cb c cfg d' q' manager raw (serve_all u l x cb c cfg calls s')
              ≡ (ok r', t)
            → r'.id ≢ id)
  remove_permanent d q id if_match if_none_match s s' r calls h removed =
      let (ws, same) = serve_all-run calls s' in
      let (now, _, done) =
        Ends-ok s _ _ (remove-Ends u l x cb c cfg d q id if_match if_none_match s) removed in
      let gone = (remove_in-parts u l x cb c cfg d q id if_match if_none_match now s done).2 in
      let (unseen, refused) =
        delete_permanent u c q.scope d.name id r.version (tombstone_of u l x cb c cfg d r now) s s'
          ws h gone in
      (
        (λ scope' type'. rw same (unseen scope' type')),
        (λ d' q' manager raw r' t created id_same.
            let final : State = serve_all u l x cb c cfg calls s' in
            let (p, _, made) =
              Ends-ok final _ _ (create-Ends u l x cb c cfg d' q' manager raw final) created in
            let stored = (create_in-parts u l x cb c cfg d' q' manager p final made).5 in
            refused r' t id_same (subst (λ z. Memory.create u c r' z ≡ ok t) same stored)),
      )
