-- ===== src/Store/Memory/Consistent.antt =====
-- The invariant of the store, and that every operation keeps it.
use gotth_scim.Base.{
  Option-cases, inl, inr, true, false, ◌||◌, not, Str, str_eq, str_eq_iff, has_byte, Map, lookup,
  insert, erase, All-insert, All-erase, All-erase_ne, All-lookup, All_zip, ◌==◌, none, some, [],
  any, All, All_of_not_any, All_imp, Mutually, Apart, Mutually-insert, Mutually-erase,
  Mutually-lookup, Unicode, ◌≡◌, refl, ◌∙◌, sym, arith,
}
use gotth_scim.Failure.{ok, fault, conflict, precondition, tombstoned, refuse-ok, >>=-eq-ok}
use gotth_scim.Json.Decode.{Codec}
use gotth_scim.Schema.{valid_name, valid_resource_id, valid_string, maximum_string_bytes}
use gotth_scim.Schema.Names.{valid_name-no_zero, valid_resource_id-no_zero}
use gotth_scim.Store.{
  Record, Tombstone, State, empty_state, record_key, key_of, validate_record, holds,
}
use gotth_scim.Store.Memory.{
  get, found_in_scope, indexes_clash, has_index_conflict, same_identity, buries, create, replace,
  delete, tombstone_fits,
}
use gotth_scim.Store.Memory.Keys.{record_key_injective}
use gotth_scim.Store.Memory.Indexes.{indexes_clash_comm}

module _ (u : Unicode) where
  -- Two live records have different ids, and no unique index in common.
  abbrev pub Differ : Record → Record → Type 0
  Differ a b = (str_eq a.id b.id ≡ false) × (indexes_clash u a b ≡ false)

  -- A record stands under its own key, whose parts hold no zero byte.
  abbrev pub IsKeyed : Str × Record → Type 0
  IsKeyed p =
      (p.0 ≡ key_of p.1) × (has_byte 0 p.1.resource_type ≡ false) × (has_byte 0 p.1.id ≡ false)

  pub record IsConsistent (s : State) : Type 0 where
    pub keyed : All IsKeyed s.records
    pub apart : Mutually (Apart Differ) s.records
    pub buried : All (λ t. All (λ p. str_eq t.1.id p.1.id ≡ false) s.records) s.tombstones

  pub Differ-swap : (a b : Record) → Differ a b → Differ b a
  Differ-swap a b (h, k) = (
    ground (arith, str_eq_iff a.id b.id, str_eq_iff b.id a.id),
    sym (indexes_clash_comm u a b) ∙ k,
  )

  pub IsConsistent-empty : IsConsistent empty_state
  IsConsistent-empty = record { keyed = tt; apart = tt; buried = tt }

  -- What the loop of `hasIndexConflict` has checked when it finds nothing.
  no_conflict :
      (r : Record) (k : Str) (m : Map Record)
      → has_index_conflict u r (some k) m ≡ false
      → All (λ p. str_eq p.0 k ≡ false → indexes_clash u r p.1 ≡ false) m
  unfolding has_index_conflict
  no_conflict r k m h =
      All_imp (λ p q e. ground (arith, str_eq_iff k p.0, str_eq_iff p.0 k)) m (All_of_not_any _ m h)

  no_conflict_at_all :
      (r : Record) (m : Map Record)
      → has_index_conflict u r none m ≡ false
      → All (λ p. indexes_clash u r p.1 ≡ false) m
  unfolding has_index_conflict
  no_conflict_at_all r m h = All_imp (λ p q. ground arith) m (All_of_not_any _ m h)

  pub get-lookup :
      (scope resource_type id : Str) (s : State) {r : Record}
      → get scope resource_type id s ≡ ok r
      → lookup (record_key resource_type id) s.records ≡ some r
  unfolding get found_in_scope
  get-lookup scope resource_type id s h = ground arith

  pub get-scope :
      (scope resource_type id : Str) (s : State) {r : Record}
      → get scope resource_type id s ≡ ok r
      → r.scope ≡ scope
  unfolding get found_in_scope
  get-scope scope resource_type id s h =
      elim (Option-cases (lookup (record_key resource_type id) s.records)) [
        | inl e ↦ cc
        | inr (r', e) ↦ ground (arith, str_eq_iff r'.scope scope)
      ]

  -- The record that stands at a key has the type and the id of the key.
  pub at_key :
      (s : State) (resource_type id : Str) {r : Record}
      → IsConsistent s
      → lookup (record_key resource_type id) s.records ≡ some r
      → (r.resource_type ≡ resource_type) × (r.id ≡ id)
  at_key s resource_type id {r} h e =
      let (same_key, no_zero_type, no_zero_id) =
        All-lookup IsKeyed (record_key resource_type id) s.records h.keyed e in
      record_key_injective r.resource_type r.id resource_type id no_zero_type no_zero_id
        (sym same_key)

  module _ (c : Codec) where
    valid_record-no_zero :
        (r : Record)
        → validate_record u c r ≡ ok tt
        → (has_byte 0 r.resource_type ≡ false) × (has_byte 0 r.id ≡ false)
    unfolding validate_record
    valid_record-no_zero r h =
        let (g, _) =
          refuse-ok
            (str_eq r.scope []
              || not (valid_string u r.scope 1024)
              || not (valid_name r.resource_type)
              || not (valid_resource_id u r.id)
              || not (valid_string u r.manager 1024)
              || not (valid_string u r.external_id maximum_string_bytes))
            fault _ h in
        (
          valid_name-no_zero r.resource_type (ground arith),
          valid_resource_id-no_zero u r.id (ground arith),
        )

    pub create-IsConsistent :
        (r : Record) (s : State) {s' : State}
        → IsConsistent s
        → create u c r s ≡ ok s'
        → IsConsistent s'
    unfolding create same_identity buries
    create-IsConsistent r s {s'} h e =
        let (_, valid, e1) = >>=-eq-ok (validate_record u c r) _ e in
        let (fresh, e2) = refuse-ok (any (same_identity u c r) s.records) conflict _ e1 in
        let (alive, e3) = refuse-ok (any (buries u c r) s.tombstones) tombstoned _ e2 in
        let (free, e4) = refuse-ok (has_index_conflict u r none s.records) conflict _ e3 in
        let same : s' ≡ record s { records = insert (key_of r) r s.records } = cc in
        let (no_zero_type, no_zero_id) = valid_record-no_zero r valid in
        rw same (record {
          keyed =
              All-insert IsKeyed (key_of r) r s.records (refl, no_zero_type, no_zero_id) h.keyed;
          apart = Mutually-insert Differ Differ-swap (key_of r) r s.records h.apart (
              All_zip
                (λ p q w _. (ground (arith, str_eq_iff r.id p.1.id, str_eq_iff p.1.id r.id), w))
                s.records (All_of_not_any (same_identity u c r) s.records fresh)
                (no_conflict_at_all r s.records free));
          buried =
              All_zip
                (λ t q w.
                  All-insert (λ p. str_eq t.1.id p.1.id ≡ false) (key_of r) r s.records
                    (ground arith) w)
                s.tombstones (All_of_not_any (buries u c r) s.tombstones alive) h.buried;
        })

    pub replace-IsConsistent :
        (r : Record) (expected : Str) (s : State) {s' : State}
        → IsConsistent s
        → replace u c r expected s ≡ ok s'
        → IsConsistent s'
    unfolding replace
    replace-IsConsistent r expected s {s'} h e =
        let (_, valid, e1) = >>=-eq-ok (validate_record u c r) _ e in
        let (old, found, e2) = >>=-eq-ok (get r.scope r.resource_type r.id s) _ e1 in
        let (_, e3) =
          refuse-ok (str_eq expected [] || not (str_eq old.version expected)) precondition _ e2 in
        let (_, e4) =
          refuse-ok (not (r.created == old.created) || not (str_eq r.manager old.manager)) fault _
            e3 in
        let (free, e5) =
          refuse-ok (has_index_conflict u r (some (key_of r)) s.records) conflict _ e4 in
        let same : s' ≡ record s { records = insert (key_of r) r s.records } = cc in
        let (no_zero_type, no_zero_id) = valid_record-no_zero r valid in
        let at : lookup (key_of r) s.records ≡ some old =
          get-lookup r.scope r.resource_type r.id s found in
        let same_id : old.id ≡ r.id = (at_key s r.resource_type r.id h at).1 in
        rw same (record {
          keyed =
              All-insert IsKeyed (key_of r) r s.records (refl, no_zero_type, no_zero_id) h.keyed;
          apart = Mutually-insert Differ Differ-swap (key_of r) r s.records h.apart (
              All_zip (λ p q w n. (rw (← same_id) (q n).0, w n)) s.records
                (Mutually-lookup Differ Differ-swap (key_of r) s.records h.apart at)
                (no_conflict r (key_of r) s.records free));
          buried =
              All_imp
                (λ t w.
                  All-insert (λ p. str_eq t.1.id p.1.id ≡ false) (key_of r) r s.records
                    (rw (← same_id)
                      (All-lookup (λ p. str_eq t.1.id p.1.id ≡ false) (key_of r) s.records w at))
                    w)
                s.tombstones h.buried;
        })

  pub delete-IsConsistent :
      (scope resource_type id expected : Str) (t : Tombstone) (s : State) {s' : State}
      → IsConsistent s
      → delete scope resource_type id expected t s ≡ ok s'
      → IsConsistent s'
  unfolding delete tombstone_fits
  delete-IsConsistent scope resource_type id expected t s {s'} h e =
      let key = record_key resource_type id in
      let (r, found, e1) = >>=-eq-ok (get scope resource_type id s) _ e in
      let (_, e2) =
        refuse-ok (str_eq expected [] || not (str_eq r.version expected)) precondition _ e1 in
      let (fits, e3) = refuse-ok (not (tombstone_fits scope resource_type id r t)) fault _ e2 in
      let (_, e4) = refuse-ok (holds (lookup key s.tombstones) (λ _. true)) tombstoned _ e3 in
      let same : s'
          ≡ record { records = erase key s.records; tombstones = insert key t s.tombstones } =
        cc in
      let at : lookup key s.records ≡ some r = get-lookup scope resource_type id s found in
      let same_id : r.id ≡ id = (at_key s resource_type id h at).1 in
      let buried_id : t.id ≡ id = ground (arith, str_eq_iff t.id id) in
      rw same (record {
        keyed = All-erase IsKeyed key s.records h.keyed;
        apart = Mutually-erase Differ Differ-swap key s.records h.apart;
        buried =
            All-insert (λ b. All (λ p. str_eq b.1.id p.1.id ≡ false) (erase key s.records)) key t
              s.tombstones
              (All-erase_ne (λ p. str_eq t.id p.1.id ≡ false) key s.records
                (All_imp (λ p w n. rw (buried_id, ← same_id) (w n).0) s.records
                  (Mutually-lookup Differ Differ-swap key s.records h.apart at)))
              (All_imp (λ b w. All-erase (λ p. str_eq b.1.id p.1.id ≡ false) key s.records w)
                s.tombstones h.buried);
      })
