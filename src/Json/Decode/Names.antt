-- ===== src/Json/Decode/Names.antt =====
-- The names of decoded objects: canonical where they are known, and never two that differ by case
-- alone.
use gotth_scim.Base.{
  ℕ, ◌+◌, ◌≤◌, false, if◌then◌else◌, Str, bytes, str_eq, str_eq_iff, eq_of_str_eq, Map, lookup,
  insert, lookup-insert, none, some, List, [], ◌∷◌, Unicode, ◌≡◌, refl, sym, ◌∙◌, arith, All,
  All-insert, All-lookup, Bool-cases, Option-cases, inl, inr, String,
}
use gotth_scim.Json.{
  Value, str, arr, obj, Items, nil, cons, Fields, end, field, Object, entries, fields, items,
  entries-fields, mk_obj, mk_arr,
}
use gotth_scim.Json.Decode.{
  Scalar, nothing, truth, number, scalar_value, canonical, core_key_cases, core_keys, spelled,
  maximum_depth,
}

module _ (u : Unicode) where
  -- No two names of the object are equal in lower case.
  abbrev pub CaseDistinct : Object → Type 0
  CaseDistinct [] = Unit
  CaseDistinct ((k, v) ∷ m) =
      All (λ p. str_eq (u.to_lower p.0) (u.to_lower k) ≡ false) m × CaseDistinct m

  -- A value at a depth that the decoder admits, with all that it contains, and with no two
  -- case-equivalent names in any of its objects.
  unfoldable mutual
    pub IsSound : ℕ → Value → Type 0
    IsSound d (arr vs) = (d ≤ maximum_depth) × IsSoundItems (d + 1) vs
    IsSound d (obj fs) = (d ≤ maximum_depth) × CaseDistinct (entries fs) × IsSoundFields (d + 1) fs
    IsSound d _ = d ≤ maximum_depth

    pub IsSoundItems : ℕ → Items → Type 0
    IsSoundItems d nil = Unit
    IsSoundItems d (cons v vs) = IsSound d v × IsSoundItems d vs

    pub IsSoundFields : ℕ → Fields → Type 0
    IsSoundFields d end = Unit
    IsSoundFields d (field k v fs) = IsSound d v × IsSoundFields d fs

  pub IsSound-obj :
      (d : ℕ) (m : Object)
      → d ≤ maximum_depth
      → CaseDistinct m
      → All (λ p. IsSound (d + 1) p.1) m
      → IsSound d (mk_obj m)
  unfolding IsSound
  IsSound-obj d m h names h' = (h, distinct m names, below m h')
    where
      distinct : (n : Object) → CaseDistinct n → CaseDistinct (entries (fields n))
      distinct [] c = tt
      distinct ((k, v) ∷ n) (a, c) = (rw (entries-fields n) a, distinct n c)

      below : (n : Object) → All (λ p. IsSound (d + 1) p.1) n → IsSoundFields (d + 1) (fields n)
      below [] c = tt
      below ((k, v) ∷ n) (a, c) = (a, below n c)

  pub IsSound-arr :
      (d : ℕ) (vs : List Value)
      → d ≤ maximum_depth
      → All (IsSound (d + 1)) vs
      → IsSound d (mk_arr vs)
  unfolding IsSound
  IsSound-arr d vs h h' = (h, below vs h')
    where
      below : (n : List Value) → All (IsSound (d + 1)) n → IsSoundItems (d + 1) (items n)
      below [] c = tt
      below (v ∷ n) (a, c) = (a, below n c)

  pub IsSound-scalar : (d : ℕ) (s : Scalar) → d ≤ maximum_depth → IsSound d (scalar_value s)
  unfolding IsSound
  IsSound-scalar d nothing h = h
  IsSound-scalar d (truth b) h = h
  IsSound-scalar d (number n) h = h

  pub IsSound-str : (d : ℕ) (s : Str) → d ≤ maximum_depth → IsSound d (str s)
  unfolding IsSound
  IsSound-str d s h = h

  -- The table takes each name to a spelling of it.
  Spells : Str × Str → Type 0
  Spells p = u.to_lower p.1 ≡ p.0

  spelled-Spells : (ks : List String) → All Spells (spelled u ks)
  unfolding spelled Spells
  spelled-Spells [] = tt
  spelled-Spells (k ∷ ks) =
      All-insert Spells (u.to_lower (bytes k)) (bytes k) (spelled u ks) refl (spelled-Spells ks)

  pub to_lower-canonical :
      (key : Str) → u.to_lower (canonical u (core_key_cases u) key) ≡ u.to_lower key
  unfolding canonical core_key_cases Spells
  to_lower-canonical key = elim (Option-cases (lookup (u.to_lower key) (spelled u core_keys))) [
    | inl e ↦ rw e refl
    | inr (known, e) ↦
        rw e (All-lookup Spells (u.to_lower key) (spelled u core_keys) (spelled-Spells core_keys) e)
  ]

  -- What the loop over the members of an object keeps: the names so far are distinct, and a lower-case
  -- name that was not seen is not the lower case of any of them.
  pub record Distinguishes (seen : Map Str) (m : Object) : Type 0 where
    pub distinct : CaseDistinct m
    pub unseen : (k : Str) → lookup k seen ≡ none → All (λ p. str_eq (u.to_lower p.0) k ≡ false) m

  CaseDistinct-insert :
      (k : Str) (v : Value) (m : Object)
      → CaseDistinct m
      → All (λ p. str_eq (u.to_lower p.0) (u.to_lower k) ≡ false) m
      → CaseDistinct (insert k v m)
  unfolding insert
  CaseDistinct-insert k v [] c h = (tt, tt)
  CaseDistinct-insert k v ((j, w) ∷ m) (a, c) (h, hs) = elim (Bool-cases (str_eq j k)) [
    | inl e ↦
        let same : u.to_lower j ≡ u.to_lower k = rw (eq_of_str_eq j k e) refl in
        absurd (ground (arith, str_eq_iff (u.to_lower j) (u.to_lower k)))
    | inr e ↦ rw e (
      All-insert (λ p. str_eq (u.to_lower p.0) (u.to_lower j) ≡ false) k v m
          (ground (
            arith,
            str_eq_iff (u.to_lower k) (u.to_lower j),
            str_eq_iff (u.to_lower j) (u.to_lower k),
          ))
          a,
      CaseDistinct-insert k v m c hs,
    )
  ]

  pub Distinguishes-insert :
      (seen : Map Str) (m : Object) (key name : Str) (v : Value)
      → Distinguishes seen m
      → lookup (u.to_lower key) seen ≡ none
      → u.to_lower name ≡ u.to_lower key
      → Distinguishes (insert (u.to_lower key) key seen) (insert name v m)
  Distinguishes-insert seen m key name v d new same = record {
    distinct = CaseDistinct-insert name v m d.distinct (rw same (d.unseen (u.to_lower key) new));
    unseen = λ k e.
        let e' : (if str_eq (u.to_lower key) k then some key else lookup k seen) ≡ none =
          sym (lookup-insert (u.to_lower key) k key seen) ∙ e in
        All-insert (λ p. str_eq (u.to_lower p.0) k ≡ false) name v m (rw same (ground arith))
          (d.unseen k (ground arith));
  }
