-- ===== src/Store/Memory/History.antt =====
-- What holds of the store after any history of operations.
use gotth_scim.Base.{
  Bool, true, false, ◌||◌, not, Str, str_eq, str_eq_iff, Map, lookup, insert, erase, All-lookup,
  Mutually-lookup, none, some, List, [], ◌∷◌, any, All, Unicode, ◌≡◌, ◌≢◌, refl, arith,
  Option-cases, inl, inr,
}
use gotth_scim.Failure.{
  Result, ok, err, fault, not_found, conflict, precondition, tombstoned, refuse-ok, >>=-eq-ok,
}
use gotth_scim.Json.Decode.{Codec}
use gotth_scim.Store.{Record, Tombstone, State, empty_state, record_key, validate_record, holds}
use gotth_scim.Store.Memory.{
  get, found_in_scope, create, replace, delete, same_identity, buries, tombstone_fits,
}
use gotth_scim.Store.Memory.Indexes.{Separate, indexes_clash-Separate}
use gotth_scim.Store.Memory.Consistent.{
  IsConsistent, IsConsistent-empty, Differ, Differ-swap, create-IsConsistent, replace-IsConsistent,
  delete-IsConsistent, at_key,
}

-- A write that a transaction may make.
pub data Write : Type 0 where
  creates : Record → Write
  replaces : Record → Str → Write
  deletes : (scope resource_type id expected : Str) → Tombstone → Write

module _ (u : Unicode) (c : Codec) where
  unfoldable pub perform : Write → State → Result State
  perform (creates r) s = create u c r s
  perform (replaces r expected) s = replace u c r expected s
  perform (deletes scope resource_type id expected t) s = delete scope resource_type id expected t s

  -- A write that fails leaves the state as it was.
  abbrev pub kept : State → Result State → State
  kept s (ok s') = s'
  kept s (err _) = s

  unfoldable pub run : List Write → State → State
  run [] s = s
  run (w ∷ ws) s = run ws (kept s (perform w s))

  perform-IsConsistent :
      (w : Write) (s : State) {s' : State}
      → IsConsistent u s
      → perform w s ≡ ok s'
      → IsConsistent u s'
  unfolding perform
  perform-IsConsistent (creates r) s h e = create-IsConsistent u c r s h e
  perform-IsConsistent (replaces r expected) s h e = replace-IsConsistent u c r expected s h e
  perform-IsConsistent (deletes scope resource_type id expected t) s h e =
      delete-IsConsistent u scope resource_type id expected t s h e

  kept-IsConsistent :
      (s : State) (o : Result State)
      → IsConsistent u s
      → ((s' : State) → o ≡ ok s' → IsConsistent u s')
      → IsConsistent u (kept s o)
  kept-IsConsistent s (ok s') h k = k s' refl
  kept-IsConsistent s (err e) h k = h

  -- Every history of writes, failing ones included, leads from a consistent store to one: records
  -- stand under their own keys, no two live records share an id or a unique index, and no live record
  -- has the id of a tombstone.
  pub run-IsConsistent :
      (ws : List Write) (s : State) → IsConsistent u s → IsConsistent u (run ws s)
  unfolding run
  run-IsConsistent [] s h = h
  run-IsConsistent (w ∷ ws) s h =
      run-IsConsistent ws (kept s (perform w s))
        (kept-IsConsistent s (perform w s) h (λ s' e. perform-IsConsistent w s h e))

  -- Some tombstone has the id.
  abbrev pub is_buried : Str → State → Bool
  is_buried id s = any (λ t. str_eq t.1.id id) s.tombstones

  any-insert :
      (p : Str × Tombstone → Bool) (k : Str) (t : Tombstone) (m : Map Tombstone)
      → lookup k m ≡ none
      → any p m ≡ true
      → any p (insert k t m) ≡ true
  unfolding insert lookup
  any-insert p k t [] e h = cc
  any-insert p k t ((j, b) ∷ m) e h = ground (arith, any-insert p k t m)

  any-insert_self :
      (p : Str × Tombstone → Bool) (k : Str) (t : Tombstone) (m : Map Tombstone)
      → p (k, t) ≡ true
      → any p (insert k t m) ≡ true
  unfolding insert
  any-insert_self p k t [] h = ground arith
  any-insert_self p k t ((j, b) ∷ m) h = ground (arith, any-insert_self p k t m h)

  -- What a deletion that succeeds has checked and done.
  delete-parts :
      (scope resource_type id expected : Str) (t : Tombstone) (s : State) {s' : State}
      → delete scope resource_type id expected t s ≡ ok s'
      → (r : Record) × (tombstone_fits scope resource_type id r t ≡ true)
        × (lookup (record_key resource_type id) s.tombstones ≡ none)
        × (s' ≡ record {
          records = erase (record_key resource_type id) s.records;
          tombstones = insert (record_key resource_type id) t s.tombstones;
        })
  unfolding delete
  delete-parts scope resource_type id expected t s e =
      let (r, found, e1) = >>=-eq-ok (get scope resource_type id s) _ e in
      let (_, e2) =
        refuse-ok (str_eq expected [] || not (str_eq r.version expected)) precondition _ e1 in
      let (fits, e3) = refuse-ok (not (tombstone_fits scope resource_type id r t)) fault _ e2 in
      let (empty, e4) =
        refuse-ok (holds (lookup (record_key resource_type id) s.tombstones) (λ _. true)) tombstoned
          _ e3 in
      (r, ground arith, ground arith, cc)

  perform-is_buried :
      (id : Str) (w : Write) (s : State) {s' : State}
      → is_buried id s ≡ true
      → perform w s ≡ ok s'
      → is_buried id s' ≡ true
  unfolding perform create replace
  perform-is_buried id (creates r) s h e = ground arith
  perform-is_buried id (replaces r expected) s h e = ground arith
  perform-is_buried id (deletes scope resource_type i expected t) s {s'} h e =
      let (r, _, empty, same) = delete-parts scope resource_type i expected t s e in
      rw same
        (any-insert (λ b. str_eq b.1.id id) (record_key resource_type i) t s.tombstones empty h)

  run-is_buried :
      (id : Str) (ws : List Write) (s : State)
      → is_buried id s ≡ true
      → is_buried id (run ws s) ≡ true
  unfolding run
  run-is_buried id [] s h = h
  run-is_buried id (w ∷ ws) s h =
      run-is_buried id ws (kept s (perform w s)) (step (perform w s) refl)
    where
      step : (o : Result State) → perform w s ≡ o → is_buried id (kept s o) ≡ true
      step (ok s') e = perform-is_buried id w s h e
      step (err _) e = h

  live_and_buried :
      (s : State) (resource_type id : Str) {r : Record}
      → IsConsistent u s
      → lookup (record_key resource_type id) s.records ≡ some r
      → (ts : Map Tombstone) → All (λ t. All (λ p. str_eq t.1.id p.1.id ≡ false) s.records) ts
      → any (λ t. str_eq t.1.id id) ts ≡ true
      → ⊥
  live_and_buried s resource_type id h e [] a b = cc
  live_and_buried s resource_type id {r} h e ((k, t) ∷ ts) (a, as_) b =
      let other : str_eq t.id r.id ≡ false =
        All-lookup (λ p. str_eq t.id p.1.id ≡ false) (record_key resource_type id) s.records a e in
      let same : r.id ≡ id = (at_key u s resource_type id h e).1 in
      let later : any (λ b'. str_eq b'.1.id id) ts ≡ true = ground arith in
      live_and_buried s resource_type id h e ts as_ later

  not_found_of_buried :
      (scope resource_type id : Str) (s : State)
      → IsConsistent u s
      → is_buried id s ≡ true
      → get scope resource_type id s ≡ err not_found
  unfolding get found_in_scope
  not_found_of_buried scope resource_type id s h b =
      elim (Option-cases (lookup (record_key resource_type id) s.records)) [
        | inl e ↦ rw e refl
        | inr (r, e) ↦ absurd (live_and_buried s resource_type id h e s.tombstones h.buried b)
      ]

  delete-is_buried :
      (scope resource_type id expected : Str) (t : Tombstone) (s : State) {s' : State}
      → delete scope resource_type id expected t s ≡ ok s'
      → is_buried id s' ≡ true
  unfolding tombstone_fits
  delete-is_buried scope resource_type id expected t s {s'} e =
      let (r, fits, empty, same) = delete-parts scope resource_type id expected t s e in
      rw same (
        any-insert_self (λ b. str_eq b.1.id id) (record_key resource_type id) t s.tombstones
          (ground arith))

  any_of_imp :
      (p q : Str × Tombstone → Bool) (imp : (t : Str × Tombstone) → p t ≡ true → q t ≡ true)
      (m : Map Tombstone)
      → any p m ≡ true
      → any q m ≡ true
  any_of_imp p q imp [] h = h
  any_of_imp p q imp (t ∷ m) h = ground (arith, imp t, any_of_imp p q imp m)

  buries-same :
      (r : Record) (id : Str) (t : Str × Tombstone)
      → r.id ≡ id
      → str_eq t.1.id id ≡ true
      → buries u c r t ≡ true
  unfolding buries
  buries-same r id t same h = ground (arith, str_eq_iff t.1.id id, str_eq_iff t.1.id r.id)

  create-of_buried :
      (r : Record) (id : Str) (s s'' : State)
      → r.id ≡ id
      → is_buried id s ≡ true
      → create u c r s ≢ ok s''
  unfolding create
  create-of_buried r id s s'' same b e =
      let (_, _, e1) = >>=-eq-ok (validate_record u c r) _ e in
      let (_, e2) = refuse-ok (any (same_identity u c r) s.records) conflict _ e1 in
      let (alive, _) = refuse-ok (any (buries u c r) s.tombstones) tombstoned _ e2 in
      let all_of : any (buries u c r) s.tombstones ≡ true =
        any_of_imp (λ t. str_eq t.1.id id) (buries u c r) (λ t h. buries-same r id t same h)
          s.tombstones b in
      cc

  -- A deleted id never comes back. After a successful deletion, whatever writes follow, no scope and no
  -- resource type shows a record with that id, and creating one with it fails.
  pub delete_permanent :
      (scope resource_type id expected : Str) (t : Tombstone) (s s' : State) (ws : List Write)
      → IsConsistent u s
      → delete scope resource_type id expected t s ≡ ok s'
      → ((scope' type' : Str) → get scope' type' id (run ws s') ≡ err not_found)
        × ((r : Record) (s'' : State) → r.id ≡ id → create u c r (run ws s') ≢ ok s'')
  delete_permanent scope resource_type id expected t s s' ws h e =
      let buried =
        run-is_buried id ws s' (delete-is_buried scope resource_type id expected t s e) in
      let consistent =
        run-IsConsistent ws s' (delete-IsConsistent u scope resource_type id expected t s h e) in
      (
        (λ scope' type'. not_found_of_buried scope' type' id (run ws s') consistent buried),
        (λ r s'' same. create-of_buried r id (run ws s') s'' same buried),
      )

  -- After any history that starts from the empty store, two records of one scope and one resource type
  -- that stand under different keys share the value of no unique index.
  pub run-Separate :
      (ws : List Write) (k j : Str) (a b : Record)
      → str_eq j k ≡ false
      → lookup k (run ws empty_state).records ≡ some a
      → lookup j (run ws empty_state).records ≡ some b
      → Separate u a b
  run-Separate ws k j a b other at_k at_j =
      let h = run-IsConsistent ws empty_state (IsConsistent-empty u) in
      let differs =
        All-lookup (λ p. str_eq p.0 k ≡ false → Differ u a p.1) j (run ws empty_state).records
          (Mutually-lookup (Differ u) (Differ-swap u) k (run ws empty_state).records h.apart at_k)
          at_j in
      indexes_clash-Separate u a b (differs other).1
