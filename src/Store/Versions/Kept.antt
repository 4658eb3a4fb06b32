-- ===== src/Store/Versions/Kept.antt =====
-- What a replacement keeps of a record, and what it changes.
use gotth_scim.Base.{
  ℕ, ap, ◌<◌, Bool, true, false, Str, Option, List, Unicode, ◌≡◌, refl, ◌∙◌, sym, arith, Bool-cases,
  inl, inr, ◌⊎◌,
}
use gotth_scim.Failure.{ok, >>=-eq-ok, ok-injective}
use gotth_scim.Json.{Object}
use gotth_scim.Json.Decode.{Codec, canonical_document}
use gotth_scim.Store.{IndexKey, Record, calculate_record_version, validate_record}
use gotth_scim.Store.Versions.{
  draft, versioned, new_record, credential_or, is_unchanged, time_after, changed_record,
  replacement_record,
}

time_after-lt : (last now : ℕ) → last < time_after last now
unfolding time_after
time_after-lt last now = ground arith

-- What is fixed when a record is created.
abbrev pub SameIdentity : Record → Record → Type 0
SameIdentity a b =
    (a.scope ≡ b.scope)
    × (a.resource_type ≡ b.resource_type)
    × (a.id ≡ b.id)
    × (a.manager ≡ b.manager)
    × (a.created ≡ b.created)

module _ (u : Unicode) (c : Codec) where
  -- A versioned record is the record with a version, and valid.
  versioned-parts :
      (r : Record) {r' : Record}
      → versioned u c r ≡ ok r'
      → (version : Str) × (r' ≡ record r { version = version }) × (validate_record u c r' ≡ ok tt)
  unfolding versioned
  versioned-parts r {r'} h =
      let (version, _, h1) = >>=-eq-ok (calculate_record_version u c r) _ h in
      let (_, valid, h2) = >>=-eq-ok (validate_record u c (record r { version = version })) _ h1 in
      let same : record r { version = version } ≡ r' = ok-injective h2 in
      (version, sym same, rw (← same) valid)

  pub new_record-parts :
      (scope manager resource_type id external_id : Str) (document : Object)
      (indexes : List IndexKey) (now : ℕ) (credential : Str) {r : Record}
      → new_record u c scope manager resource_type id external_id document indexes now credential
        ≡ ok r
      → (r.scope ≡ scope)
        × (r.resource_type ≡ resource_type)
        × (r.id ≡ id)
        × (r.manager ≡ manager)
        × (r.created ≡ now)
  unfolding new_record draft
  new_record-parts scope manager resource_type id external_id document indexes now credential {r}
        h =
      let (content, _, h1) = >>=-eq-ok (canonical_document u c document) _ h in
      let (version, same, _) =
        versioned-parts
          (draft scope manager resource_type id external_id content indexes now credential) h1 in
      (
        ap (λ (z : Record). z.scope) same,
        ap (λ (z : Record). z.resource_type) same,
        ap (λ (z : Record). z.id) same,
        ap (λ (z : Record). z.manager) same,
        ap (λ (z : Record). z.created) same,
      )

  -- A replacement keeps the identity, the manager and the time of creation of the record. Where nothing
  -- changes it is the record itself, with the version and the time of the last change; otherwise it is
  -- later than the last change, whatever the clock shows, and valid with the content that it was given.
  pub replacement_record-SameIdentity :
      (current : Record) (external_id : Str) (document : Object) (indexes : List IndexKey) (now : ℕ)
      (given : Option Str) (r : Record) (changed : Bool)
      → replacement_record u c current external_id document indexes now given ≡ ok (r, changed)
      → SameIdentity r current
        × (((changed ≡ false) × (r ≡ current))
            ⊎ ((changed ≡ true)
                × (current.last_modified < r.last_modified)
                × (validate_record u c r ≡ ok tt)
                × (canonical_document u c document ≡ ok r.content)
                × (r.external_id ≡ external_id)))
  unfolding replacement_record changed_record
  replacement_record-SameIdentity current external_id document indexes now given r changed h =
      let (content, encoded, h1) = >>=-eq-ok (canonical_document u c document) _ h in
      let credential : Str = credential_or current.credential_version given in
      elim (Bool-cases (is_unchanged current content external_id credential)) [
        | inl quiet ↦
            let same : (current, false) ≡ (r, changed) = ok-injective (rw quiet at h1) in
            let r_same : current ≡ r = ap (λ (z : Record × Bool). z.0) same in
            (
              rw r_same (refl, refl, refl, refl, refl),
              inl (ap (λ (z : Record × Bool). z.1) (sym same), sym r_same),
            )
        | inr busy ↦
            let draft = changed_record current content external_id indexes now credential in
            let (r', made, h2) = >>=-eq-ok (versioned u c draft) _ (rw busy at h1) in
            let same : (r', true) ≡ (r, changed) = ok-injective h2 in
            let r_same : r' ≡ r = ap (λ (z : Record × Bool). z.0) same in
            let (version, e, valid) = versioned-parts draft made in
            let whole : r ≡ record draft { version = version } = sym r_same ∙ e in
            (
              (
                ap (λ (z : Record). z.scope) whole,
                ap (λ (z : Record). z.resource_type) whole,
                ap (λ (z : Record). z.id) whole,
                ap (λ (z : Record). z.manager) whole,
                ap (λ (z : Record). z.created) whole,
              ),
              inr (
                ap (λ (z : Record × Bool). z.1) (sym same),
                rw (ap (λ (z : Record). z.last_modified) whole)
                    (time_after-lt current.last_modified now),
                rw (← r_same) valid,
                rw (ap (λ (z : Record). z.content) whole) encoded,
                ap (λ (z : Record). z.external_id) whole,
              ),
            )
      ]
