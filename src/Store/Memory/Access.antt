-- ===== src/Store/Memory/Access.antt =====
-- What reads return after a write, and how a transaction ends.
use gotth_scim.Base.{
  Bool, true, false, ◌||◌, not, ◌==◌, Str, str_eq, str_eq_iff, str_eq_refl, lookup, insert,
  lookup-insert, lookup-insert_self, [], Unicode, ◌≡◌, ◌⊎◌, refl, ap, arith, inl, inr,
}
use gotth_scim.Failure.{Failure, Result, ok, err, fault, precondition, refuse-ok, >>=-eq-ok}
use gotth_scim.Json.Decode.{Codec}
use gotth_scim.Store.{Record, State, key_of, validate_record}
use gotth_scim.Store.Memory.{get, found_in_scope, create, replace, transact, finish}

module _ (u : Unicode) (c : Codec) where
  -- A created record is read back whole, the records under other keys and the tombstones are as they
  -- were.
  pub get-create :
      (r : Record) (s s' : State)
      → create u c r s ≡ ok s'
      → (get r.scope r.resource_type r.id s' ≡ ok r)
        × ((k : Str) → str_eq (key_of r) k ≡ false → lookup k s'.records ≡ lookup k s.records)
        × (s'.tombstones ≡ s.tombstones)
  unfolding create get found_in_scope
  get-create r s s' e =
      let same : s' ≡ record s { records = insert (key_of r) r s.records } = ground arith in
      (
        rw (same, lookup-insert_self (key_of r) r s.records, str_eq_refl r.scope) refl,
        (λ k other. rw (same, lookup-insert (key_of r) k r s.records, other) refl),
        ap (λ (x : State). x.tombstones) same,
      )

  -- A replacement succeeds only against the version that the caller names. Then the new record is read
  -- back whole, and the records under other keys and the tombstones are as they were.
  pub get-replace :
      (r : Record) (expected : Str) (s s' : State)
      → replace u c r expected s ≡ ok s'
      → ((old : Record) × (get r.scope r.resource_type r.id s ≡ ok old)
          × (old.version ≡ expected)
          × (old.created ≡ r.created)
          × (old.manager ≡ r.manager))
        × (get r.scope r.resource_type r.id s' ≡ ok r)
        × ((k : Str) → str_eq (key_of r) k ≡ false → lookup k s'.records ≡ lookup k s.records)
        × (s'.tombstones ≡ s.tombstones)
  unfolding replace
  get-replace r expected s s' e =
      let (_, _, e1) = >>=-eq-ok (validate_record u c r) _ e in
      let (old, found, e2) = >>=-eq-ok (get r.scope r.resource_type r.id s) _ e1 in
      let (current, e3) =
        refuse-ok (str_eq expected [] || not (str_eq old.version expected)) precondition _ e2 in
      let (fixed, e4) =
        refuse-ok (not (r.created == old.created) || not (str_eq r.manager old.manager)) fault _
          e3 in
      let same : s' ≡ record s { records = insert (key_of r) r s.records } = ground arith in
      (
        (
          old,
          found,
          ground (arith, str_eq_iff old.version expected),
          ground arith,
          ground (arith, str_eq_iff r.manager old.manager),
        ),
        unfold get found_in_scope in
            rw (same, lookup-insert_self (key_of r) r s.records, str_eq_refl r.scope) refl,
        (λ k other. rw (same, lookup-insert (key_of r) k r s.records, other) refl),
        ap (λ (x : State). x.tombstones) same,
      )

finish-cases {ℓ} :
    {A : Type ℓ} (after : Bool) (s : State) (p : Result A × State)
    → ((a : A) × (p.0 ≡ ok a) × (after ≡ false) × (finish after s p ≡ (ok a, p.1)))
      ⊎ ((e : Failure) × (finish after s p ≡ (err e, s)))
unfolding finish
finish-cases true s (ok a, w) = inr (fault, refl)
finish-cases false s (ok a, w) = inl (a, refl, refl, refl)
finish-cases after s (err e, w) = inr (e, refl)

-- The two ways in which a transaction ends.
pub transact-cases {ℓ} :
    {A : Type ℓ} (before after : Bool) (f : State → Result A × State) (s : State)
    → ((a : A) × ((f s).0 ≡ ok a)
        × (before ≡ false)
        × (after ≡ false)
        × (transact before after f s ≡ (ok a, (f s).1)))
      ⊎ ((e : Failure) × (transact before after f s ≡ (err e, s)))
unfolding transact
transact-cases true after f s = inr (fault, refl)
transact-cases false after f s = elim (finish-cases after s (f s)) [
  | inl (a, e, quiet, same) ↦ inl (a, e, refl, quiet, same)
  | inr (e, same) ↦ inr (e, same)
]
