-- ===== src/Store/Memory/Listing.antt =====
-- What a bounded query of the store returns: `List` and `recordMatches` of pkg/scim/memory.go.
use mathlib.Core.List.{append-nil, append_assoc, Perm}
use gotth_scim.Base.{
  ◌≤◌, ◌<◌, Bool, true, false, ◌&&◌, ◌||◌, not, if◌then◌else◌, ltb, ◌==◌, Str, bytes, str_eq,
  str_eq_iff, Map, List, [], ◌∷◌, ◌++◌, Unicode, ◌≡◌, ◌⊎◌, ◌↔◌, refl, arith, Bool-cases, inl, inr,
  select, map, length, length-append, if_iff, and_iff, or_iff, sort_by, length-sort_by,
  sort_by-Perm, sort_by-IsOrdered, IsOrdered, Precedes, Precedes-chain, compare_bytes-Precedes,
  compare_bytes-Precedes_back,
}
use gotth_scim.Failure.{ok, err, too_many}
use gotth_scim.Schema.{valid_name, valid_attribute_name}
use gotth_scim.Store.{IndexKey, Record, Query, State}
use gotth_scim.Store.Memory.{
  list, collect, query_matches, index_matches, record_matches, record_before,
}

-- By the bytes of the ids.
abbrev pub IsBefore : Record → Record → Type 0
IsBefore a b = Precedes a.id b.id

record_before-IsOrdered : (rs : List Record) → IsOrdered IsBefore (sort_by record_before rs)
unfolding record_before
record_before-IsOrdered =
    sort_by-IsOrdered record_before IsBefore (λ a b. compare_bytes-Precedes a.id b.id)
      (λ a b. compare_bytes-Precedes_back a.id b.id) (λ a b c. Precedes-chain a.id b.id c.id)

module _ (u : Unicode) where
  abbrev pub entry_matches : Query → Str × Record → Bool
  entry_matches q p = query_matches u q p.1

  -- The records that match, in the order of the map.
  abbrev pub matching : Query → Map Record → List Record
  matching q m = map (λ p. p.1) (select (entry_matches q) m)

  collect-eq :
      (q : Query) (acc : List Record) (m : Map Record)
      → length acc ≤ q.limit
      → collect u q acc m ≡ (
          if ltb q.limit (length (acc ++ matching q m))
          then err too_many
          else ok (acc ++ matching q m))
  unfolding collect
  collect-eq q acc [] h = rw append-nil (ground arith)
  collect-eq q acc ((k, r) ∷ m) h = elim (Bool-cases (query_matches u q r)) [
    | inl y ↦
        rw (y, ← append_assoc acc (r ∷ []) (matching q m))
          (elim (Bool-cases (ltb q.limit (length (acc ++ (r ∷ []))))) [
            | inl over ↦
                let long : ltb q.limit (length ((acc ++ (r ∷ [])) ++ matching q m)) ≡ true =
                  ground (arith, length-append (acc ++ (r ∷ [])) (matching q m)) in
                rw (over, long) refl
            | inr fits ↦ rw fits (collect-eq q (acc ++ (r ∷ [])) m (ground arith))
          ])
    | inr n ↦ rw n (collect-eq q acc m h)
  ]

  module _ (q : Query) where
    -- The index is for the attribute that the query names.
    abbrev IsFor : IndexKey → Type 0
    IsFor i = u.equal_fold i.name q.attribute ≡ true

    abbrev HasValue : IndexKey → Type 0
    HasValue i =
        ((i.case_exact ≡ true) × (i.value ≡ q.value))
        ⊎ ((i.case_exact ≡ false) × (u.equal_fold i.value q.value ≡ true))

    -- The first index for the attribute has the value.
    abbrev pub Indexed : List IndexKey → Type 0
    Indexed [] = ⊥
    Indexed (i ∷ is) =
        (IsFor i × HasValue i) ⊎ ((u.equal_fold i.name q.attribute ≡ false) × Indexed is)

    -- A record that the query asks for: of its scope and type and, where it names an attribute, with the
    -- value, which is the external id or stands in an index.
    abbrev pub Asks : Record → Type 0
    Asks r =
        ((r.scope ≡ q.scope) × (r.resource_type ≡ q.resource_type))
        × ((q.attribute ≡ [])
            ⊎ (((u.equal_fold q.attribute (bytes "externalId") ≡ true) × (r.external_id ≡ q.value))
                ⊎ ((u.equal_fold q.attribute (bytes "externalId") ≡ false) × Indexed r.indexes)))

    index_matches-Indexed :
        (is : List IndexKey) → (index_matches u q.attribute q.value is ≡ true) ↔ Indexed is
    unfolding index_matches
    index_matches-Indexed [] = (λ h. cc, λ h. elim h [ ])
    index_matches-Indexed (i ∷ is) =
        if_iff (u.equal_fold i.name q.attribute) _ _
          (if_iff i.case_exact _ _ (str_eq_iff i.value q.value) (λ h. h, λ h. h))
          (index_matches-Indexed is)

    -- The code's test finds exactly these records.
    query_matches-Asks : (r : Record) → (query_matches u q r ≡ true) ↔ Asks r
    unfolding query_matches record_matches
    query_matches-Asks r =
        and_iff _ _
          (and_iff _ _ (str_eq_iff r.scope q.scope) (str_eq_iff r.resource_type q.resource_type))
          (or_iff _ _ (str_eq_iff q.attribute []) (
            if_iff (u.equal_fold q.attribute (bytes "externalId")) _ _
              (str_eq_iff r.external_id q.value) (index_matches-Indexed r.indexes)))

  -- A query with valid fields gives the records that it asks for, each as often as the store has it and
  -- no other, ordered by the bytes of their ids, or the error `ErrTooMany` when they are more than its limit;
  -- it never truncates. It asks for the records of its scope and resource type that, where it names an
  -- attribute, have its value: as the external id if that is the name in some case, or else in the first
  -- index of that name, by the index's own comparison.
  pub list-eq :
      (q : Query) (s : State)
      → str_eq q.scope [] ≡ false
      → valid_name q.resource_type ≡ true
      → (str_eq q.attribute [] || valid_attribute_name q.attribute) ≡ true
      → 0 < q.limit
      → (rs : List Record) × (list u q s
          ≡ (if ltb q.limit (length rs) then err too_many else ok rs))
        × Perm rs (matching q s.records)
        × ((r : Record) → (query_matches u q r ≡ true) ↔ Asks q r)
        × IsOrdered IsBefore rs
  unfolding list
  list-eq q s named typed attributed bounded =
      let guards : (str_eq q.scope []
            || not (valid_name q.resource_type)
            || (not (str_eq q.attribute []) && not (valid_attribute_name q.attribute))
            || q.limit == 0)
          ≡ false =
        ground arith in
      let found = matching q s.records in
      (
        sort_by record_before found,
        rw (guards, collect-eq q [] s.records (omega arith), length-sort_by record_before found)
            (ground arith),
        sort_by-Perm record_before found,
        query_matches-Asks q,
        record_before-IsOrdered found,
      )
