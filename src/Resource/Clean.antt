-- ===== src/Resource/Clean.antt =====
-- `removeUnassigned` and `normalizePrimaryValues`, of pkg/scim/resource.go.
use gotth_scim.Base.{
  Bool, false, ◌&&◌, ◌||◌, not, if◌then◌else◌, Str, bytes, str_eq, lookup, insert, Option, none,
  some, [], ◌∷◌,
}
use gotth_scim.Json.{
  Value, null, bool, num, str, arr, obj, Items, nil, cons, Fields, end, field, Object, entries,
  mk_obj,
}

abbrev pub put_first : Str → Option Value → Fields → Fields
put_first k none rest = rest
put_first k (some v) rest = field k v rest

-- An array that has lost all its elements goes.
abbrev pub non_empty : Items → Option Value
non_empty nil = none
non_empty (cons v vs) = some (arr (cons v vs))

abbrev pub non_blank : Str → Option Value
non_blank [] = none
non_blank (c ∷ s) = some (str (c ∷ s))

abbrev pub cons_text : Str → Items → Items
cons_text [] rest = rest
cons_text (c ∷ s) rest = cons (str (c ∷ s)) rest

-- The schemas of the resource, which the loop skips.
abbrev pub is_skipped : Bool → Str → Bool
is_skipped top k = top && str_eq k (bytes "schemas")

-- `removeUnassigned`; what is left of a value, and of the elements of an array.
unfoldable mutual
  pub remove_unassigned : Bool → Fields → Fields
  remove_unassigned top end = end
  remove_unassigned top (field k v fs) =
      let rest = remove_unassigned top fs in
      if is_skipped top k then field k v rest else put_first k (assigned v) rest

  pub assigned : Value → Option Value
  assigned null = none
  assigned (str s) = non_blank s
  assigned (arr vs) = non_empty (assigned_items vs)
  assigned (obj fs) = some (obj (remove_unassigned false fs))
  assigned (bool b) = some (bool b)
  assigned (num n) = some (num n)

  pub assigned_items : Items → Items
  assigned_items nil = nil
  assigned_items (cons null vs) = assigned_items vs
  assigned_items (cons (str s) vs) = cons_text s (assigned_items vs)
  assigned_items (cons (obj fs) vs) = cons (obj (remove_unassigned false fs)) (assigned_items vs)
  assigned_items (cons (bool b) vs) = cons (bool b) (assigned_items vs)
  assigned_items (cons (num n) vs) = cons (num n) (assigned_items vs)
  assigned_items (cons (arr ws) vs) = cons (arr ws) (assigned_items vs)

abbrev pub is_true : Option Value → Bool
is_true (some (bool b)) = b
is_true _ = false

-- `primary, _ := item["primary"].(bool)`
unfoldable pub is_primary : Value → Bool
unfolding lookup
is_primary (obj fs) = is_true (lookup (bytes "primary") (entries fs))
is_primary _ = false

unfoldable pub any_primary : Items → Bool
unfolding is_primary
any_primary nil = false
any_primary (cons v vs) = is_primary v || any_primary vs

abbrev pub demoted : Object → Option Value → Value
demoted m none = mk_obj m
demoted m (some v) = mk_obj (insert (bytes "primary") (bool false) m)

unfoldable pub demote : Value → Value
unfolding insert lookup
demote (obj fs) = demoted (entries fs) (lookup (bytes "primary") (entries fs))
demote v = v

-- The second loop: every element but the last primary one.
unfoldable pub demote_others : Items → Items
unfolding demote any_primary is_primary
demote_others nil = nil
demote_others (cons v vs) =
    let rest = demote_others vs in
    if is_primary v && not (any_primary vs) then cons v rest else cons (demote v) rest

-- `normalizePrimaryValues`
unfoldable mutual
  unfolding any_primary demote_others

  pub normalize_primary_values : Fields → Fields
  normalize_primary_values end = end
  normalize_primary_values (field k v fs) =
      field k (normalize_value v) (normalize_primary_values fs)

  pub normalize_value : Value → Value
  normalize_value (arr vs) =
      let items = normalize_items vs in
      if any_primary items then arr (demote_others items) else arr items
  normalize_value (obj fs) = obj (normalize_primary_values fs)
  normalize_value v = v

  -- The elements that are objects; an array in an array is left.
  pub normalize_items : Items → Items
  normalize_items nil = nil
  normalize_items (cons (obj fs) vs) = cons (obj (normalize_primary_values fs)) (normalize_items vs)
  normalize_items (cons v vs) = cons v (normalize_items vs)
