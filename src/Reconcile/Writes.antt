-- ===== src/Reconcile/Writes.antt =====
-- What a write for one manager leaves of the records of others, of pkg/scim/reconcile.go.
use gotth_scim.Base.{
  Bool, true, ◌||◌, not, Bool-cases, Str, str_eq, str_eq_iff, eq_of_str_eq, Map, lookup, erase,
  lookup-erase, any, some, [], ◌∷◌, Unicode, ◌≡◌, ◌≢◌, refl, sym, ap, ◌∙◌, subst, arith, inl, inr,
}
use mathlib.Core.Option.{some_inj}
use gotth_scim.Failure.{
  ok, fault, conflict, precondition, tombstoned, >>=-eq-ok, refuse-ok, ok-injective,
}
use gotth_scim.Json.Decode.{Codec}
use gotth_scim.Store.{Record, Tombstone, State, record_key, key_of, validate_record, holds}
use gotth_scim.Store.Memory.{list, tombstones_of, get, delete, tombstone_fits, same_identity}
use gotth_scim.Store.Memory as Memory
use gotth_scim.Store.Memory.Access.{get-create, get-replace}
use gotth_scim.Store.Memory.Consistent.{get-lookup}

-- The records of other managers stand where they stood.
abbrev pub Spares : Str → State → State → Type 0
Spares manager s s' =
    (k : Str) (r : Record)
    → lookup k s.records ≡ some r
    → r.manager ≢ manager
    → lookup k s'.records ≡ some r

any-of_lookup :
    (p : Str × Record → Bool) (k : Str) (r : Record) (m : Map Record)
    → lookup k m ≡ some r
    → p (k, r) ≡ true
    → any p m ≡ true
unfolding lookup
any-of_lookup p k r [] e h = cc
any-of_lookup p k r ((j, v) ∷ m) e h = elim (Bool-cases (str_eq j k)) [
  | inl f ↦
      let key_same : j ≡ k = eq_of_str_eq j k f in
      let value_same : v ≡ r = some_inj.0 (rw f at e) in rw (key_same, value_same, h) refl
  | inr f ↦ rw (any-of_lookup p k r m (rw f at e) h) ground arith
]

module _ (u : Unicode) (c : Codec) where
  pub create-Spares :
      (manager : Str) (r : Record) (s s' : State)
      → Memory.create u c r s ≡ ok s'
      → Spares manager s s'
  unfolding Memory.create same_identity
  create-Spares manager r s s' h k r0 at_k other =
      let (_, _, h1) = >>=-eq-ok (validate_record u c r) _ h in
      let (free, _) = refuse-ok (any (same_identity u c r) s.records) conflict _ h1 in
      elim (Bool-cases (str_eq (key_of r) k)) [
        | inl e ↦
            let taken : any (same_identity u c r) s.records ≡ true =
              any-of_lookup (same_identity u c r) k r0 s.records at_k
                (ground (arith, str_eq_iff (key_of r) k, str_eq_iff k (key_of r))) in
            cc
        | inr e ↦ (get-create u c r s s' h).1 k e ∙ at_k
      ]

  pub replace-Spares :
      (manager : Str) (r : Record) (expected : Str) (s s' : State)
      → r.manager ≡ manager
      → Memory.replace u c r expected s ≡ ok s'
      → Spares manager s s'
  replace-Spares manager r expected s s' mine h k r0 at_k other =
      let ((old, found, _, _, same_manager), _, others, _) = get-replace u c r expected s s' h in
      elim (Bool-cases (str_eq (key_of r) k)) [
        | inl e ↦
            let here : lookup k s.records ≡ some old =
              subst (λ z. lookup z s.records ≡ some old) (eq_of_str_eq (key_of r) k e)
                (get-lookup u r.scope r.resource_type r.id s found) in
            let same : old ≡ r0 = some_inj.0 (sym here ∙ at_k) in
            absurd (other (ap (λ (z : Record). z.manager) (sym same) ∙ same_manager ∙ mine))
        | inr e ↦ others k e ∙ at_k
      ]

  pub delete-Spares :
      (manager scope resource_type id expected : Str) (t : Tombstone) (s s' : State)
      → t.manager ≡ manager
      → delete scope resource_type id expected t s ≡ ok s'
      → Spares manager s s'
  unfolding delete tombstone_fits
  delete-Spares manager scope resource_type id expected t s s' mine h k r0 at_k other =
      let (r, found, h1) = >>=-eq-ok (get scope resource_type id s) _ h in
      let (_, h2) =
        refuse-ok (str_eq expected [] || not (str_eq r.version expected)) precondition _ h1 in
      let (fits, h3) = refuse-ok (not (tombstone_fits scope resource_type id r t)) fault _ h2 in
      let (_, h4) =
        refuse-ok (holds (lookup (record_key resource_type id) s.tombstones) (λ _. true)) tombstoned
          _ h3 in
      let same = ok-injective h4 in
      let records_same : erase (record_key resource_type id) s.records ≡ s'.records =
        ap (λ (z : State). z.records) same in
      elim (Bool-cases (str_eq (record_key resource_type id) k)) [
        | inl e ↦
            let here : lookup k s.records ≡ some r =
              subst (λ z. lookup z s.records ≡ some r)
                (eq_of_str_eq (record_key resource_type id) k e)
                (get-lookup u scope resource_type id s found) in
            let found_same : r ≡ r0 = some_inj.0 (sym here ∙ at_k) in
            let same_manager : t.manager ≡ r.manager =
              ground (arith, str_eq_iff t.manager r.manager) in
            absurd
              (other (ap (λ (z : Record). z.manager) (sym found_same) ∙ sym same_manager ∙ mine))
        | inr e ↦
            rw (← records_same, lookup-erase (record_key resource_type id) k s.records, e) at_k
      ]
