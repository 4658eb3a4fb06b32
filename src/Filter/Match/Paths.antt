-- ===== src/Filter/Match/Paths.antt =====
-- What a path of a filter leads to, against the loops of `lookupFilterValues` of
-- pkg/scim/filter_expression.go.
use gotth_scim.Base.{
  Str, lookup, Option, none, some, List, [], ◌∷◌, ◌++◌, ◌≡◌, refl, subst, ◌⊎◌, ◌↔◌, inl, inr,
}
use gotth_scim.Json.{Value, null, bool, num, str, arr, obj, Fields, Object, entries, elems}
use gotth_scim.Filter.Match.{
  option_list, children_in, next_values, all_next, follow, flattened, lookup_filter_values,
}

abbrev pub Mem : Value → List Value → Type 0
Mem x [] = ⊥
Mem x (y ∷ ys) = (x ≡ y) ⊎ Mem x ys

Mem-left : (x : Value) (xs ys : List Value) → Mem x xs → Mem x (xs ++ ys)
Mem-left x [] ys h = absurd h
Mem-left x (y ∷ xs) ys (inl e) = inl e
Mem-left x (y ∷ xs) ys (inr h) = inr (Mem-left x xs ys h)

Mem-right : (x : Value) (xs ys : List Value) → Mem x ys → Mem x (xs ++ ys)
Mem-right x [] ys h = h
Mem-right x (y ∷ xs) ys h = inr (Mem-right x xs ys h)

Mem-append : (x : Value) (xs ys : List Value) → Mem x (xs ++ ys) → Mem x xs ⊎ Mem x ys
Mem-append x [] ys h = inr h
Mem-append x (y ∷ xs) ys (inl e) = inl (inl e)
Mem-append x (y ∷ xs) ys (inr h) = elim (Mem-append x xs ys h) [
  | inl m ↦ inl (inr m)
  | inr m ↦ inr m
]

-- The member of an object, or of an object in an array.
abbrev pub Child : Str → Value → Value → Type 0
Child part (obj fs) w = lookup part (entries fs) ≡ some w
Child part (arr vs) w =
    (fs : Fields) × Mem (obj fs) (elems vs) × (lookup part (entries fs) ≡ some w)
Child part _ w = ⊥

abbrev pub Leads : List Str → Value → Value → Type 0
Leads [] v w = v ≡ w
Leads (part ∷ path) v w = (x : Value) × Child part v x × Leads path x w

-- A value, or an element of it if it is an array.
abbrev pub Arrives : Value → Value → Type 0
Arrives (arr vs) w = Mem w (elems vs)
Arrives v w = w ≡ v

option-found : (o : Option Value) (w : Value) → Mem w (option_list o) → o ≡ some w
unfolding option_list
option-found none w h = absurd h
option-found (some v) w (inl e) = rw e refl
option-found (some v) w (inr h) = absurd h

found-option : (o : Option Value) (w : Value) → o ≡ some w → Mem w (option_list o)
unfolding option_list
found-option o w h = rw h (inl refl)

children-found :
    (part : Str) (vs : List Value) (w : Value)
    → Mem w (children_in part vs)
    → (fs : Fields) × Mem (obj fs) vs × (lookup part (entries fs) ≡ some w)
unfolding children_in
children-found part [] w h = absurd h
children-found part (obj fs ∷ vs) w h =
    elim (Mem-append w (option_list (lookup part (entries fs))) (children_in part vs) h) [
      | inl m ↦ (fs, inl refl, option-found (lookup part (entries fs)) w m)
      | inr m ↦ let (gs, k, e) = children-found part vs w m in (gs, inr k, e)
    ]
children-found part (null ∷ vs) w h = let (gs, k, e) = children-found part vs w h in (gs, inr k, e)
children-found part (bool b ∷ vs) w h =
    let (gs, k, e) = children-found part vs w h in (gs, inr k, e)
children-found part (num s ∷ vs) w h = let (gs, k, e) = children-found part vs w h in (gs, inr k, e)
children-found part (str s ∷ vs) w h = let (gs, k, e) = children-found part vs w h in (gs, inr k, e)
children-found part (arr ws ∷ vs) w h =
    let (gs, k, e) = children-found part vs w h in (gs, inr k, e)

found-children :
    (part : Str) (vs : List Value) (fs : Fields) (w : Value)
    → Mem (obj fs) vs
    → lookup part (entries fs) ≡ some w
    → Mem w (children_in part vs)
unfolding children_in
found-children part [] fs w h e = absurd h
found-children part (obj gs ∷ vs) fs w (inl p) e =
    let same : gs ≡ fs = cc in
    Mem-left w (option_list (lookup part (entries gs))) (children_in part vs)
      (found-option (lookup part (entries gs)) w (rw same e))
found-children part (obj gs ∷ vs) fs w (inr h) e =
    Mem-right w (option_list (lookup part (entries gs))) (children_in part vs)
      (found-children part vs fs w h e)
found-children part (null ∷ vs) fs w (inr h) e = found-children part vs fs w h e
found-children part (bool b ∷ vs) fs w (inr h) e = found-children part vs fs w h e
found-children part (num s ∷ vs) fs w (inr h) e = found-children part vs fs w h e
found-children part (str s ∷ vs) fs w (inr h) e = found-children part vs fs w h e
found-children part (arr ws ∷ vs) fs w (inr h) e = found-children part vs fs w h e
found-children part (v ∷ vs) fs w (inl p) e = cc

next-found : (part : Str) (v w : Value) → Mem w (next_values part v) → Child part v w
unfolding next_values
next-found part (obj fs) w h = option-found (lookup part (entries fs)) w h
next-found part (arr vs) w h = children-found part (elems vs) w h
next-found part null w h = h
next-found part (bool b) w h = h
next-found part (num s) w h = h
next-found part (str s) w h = h

found-next : (part : Str) (v w : Value) → Child part v w → Mem w (next_values part v)
unfolding next_values
found-next part (obj fs) w h = found-option (lookup part (entries fs)) w h
found-next part (arr vs) w (fs, m, e) = found-children part (elems vs) fs w m e
found-next part null w h = h
found-next part (bool b) w h = h
found-next part (num s) w h = h
found-next part (str s) w h = h

all_next-found :
    (part : Str) (vs : List Value) (w : Value)
    → Mem w (all_next part vs)
    → (v : Value) × Mem v vs × Child part v w
unfolding all_next
all_next-found part [] w h = absurd h
all_next-found part (v ∷ vs) w h = elim (Mem-append w (next_values part v) (all_next part vs) h) [
  | inl m ↦ (v, inl refl, next-found part v w m)
  | inr m ↦ let (x, k, e) = all_next-found part vs w m in (x, inr k, e)
]

found-all_next :
    (part : Str) (vs : List Value) (v w : Value)
    → Mem v vs
    → Child part v w
    → Mem w (all_next part vs)
unfolding all_next
found-all_next part [] v w h e = absurd h
found-all_next part (x ∷ vs) v w (inl p) e =
    Mem-left w (next_values part x) (all_next part vs)
      (found-next part x w (subst (λ y. Child part y w) p e))
found-all_next part (x ∷ vs) v w (inr h) e =
    Mem-right w (next_values part x) (all_next part vs) (found-all_next part vs v w h e)

follow-found :
    (path : List Str) (vs : List Value) (w : Value)
    → Mem w (follow path vs)
    → (v : Value) × Mem v vs × Leads path v w
unfolding follow
follow-found [] vs w h = (w, h, refl)
follow-found (part ∷ path) vs w h =
    let (x, m, l) = follow-found path (all_next part vs) w h in
    let (v, k, e) = all_next-found part vs x m in (v, k, (x, e, l))

found-follow :
    (path : List Str) (vs : List Value) (v w : Value)
    → Mem v vs
    → Leads path v w
    → Mem w (follow path vs)
unfolding follow
found-follow [] vs v w m e = subst (λ y. Mem y vs) e m
found-follow (part ∷ path) vs v w m (x, e, l) =
    found-follow path (all_next part vs) x w (found-all_next part vs v x m e) l

flattened-found :
    (vs : List Value) (w : Value) → Mem w (flattened vs) → (v : Value) × Mem v vs × Arrives v w
unfolding flattened
flattened-found [] w h = absurd h
flattened-found (arr ws ∷ vs) w h = elim (Mem-append w (elems ws) (flattened vs) h) [
  | inl m ↦ (arr ws, inl refl, m)
  | inr m ↦ let (v, k, e) = flattened-found vs w m in (v, inr k, e)
]
flattened-found (null ∷ vs) w (inl e) = (null, inl refl, e)
flattened-found (null ∷ vs) w (inr h) = let (v, k, e) = flattened-found vs w h in (v, inr k, e)
flattened-found (bool b ∷ vs) w (inl e) = (bool b, inl refl, e)
flattened-found (bool b ∷ vs) w (inr h) = let (v, k, e) = flattened-found vs w h in (v, inr k, e)
flattened-found (num s ∷ vs) w (inl e) = (num s, inl refl, e)
flattened-found (num s ∷ vs) w (inr h) = let (v, k, e) = flattened-found vs w h in (v, inr k, e)
flattened-found (str s ∷ vs) w (inl e) = (str s, inl refl, e)
flattened-found (str s ∷ vs) w (inr h) = let (v, k, e) = flattened-found vs w h in (v, inr k, e)
flattened-found (obj fs ∷ vs) w (inl e) = (obj fs, inl refl, e)
flattened-found (obj fs ∷ vs) w (inr h) = let (v, k, e) = flattened-found vs w h in (v, inr k, e)

found-flattened : (vs : List Value) (v w : Value) → Mem v vs → Arrives v w → Mem w (flattened vs)
unfolding flattened
found-flattened [] v w m a = absurd m
found-flattened (arr ws ∷ vs) v w (inl e) a =
    Mem-left w (elems ws) (flattened vs) (subst (λ y. Arrives y w) e a)
found-flattened (arr ws ∷ vs) v w (inr m) a =
    Mem-right w (elems ws) (flattened vs) (found-flattened vs v w m a)
found-flattened (null ∷ vs) v w (inl e) a = inl (subst (λ y. Arrives y w) e a)
found-flattened (null ∷ vs) v w (inr m) a = inr (found-flattened vs v w m a)
found-flattened (bool b ∷ vs) v w (inl e) a = inl (subst (λ y. Arrives y w) e a)
found-flattened (bool b ∷ vs) v w (inr m) a = inr (found-flattened vs v w m a)
found-flattened (num s ∷ vs) v w (inl e) a = inl (subst (λ y. Arrives y w) e a)
found-flattened (num s ∷ vs) v w (inr m) a = inr (found-flattened vs v w m a)
found-flattened (str s ∷ vs) v w (inl e) a = inl (subst (λ y. Arrives y w) e a)
found-flattened (str s ∷ vs) v w (inr m) a = inr (found-flattened vs v w m a)
found-flattened (obj fs ∷ vs) v w (inl e) a = inl (subst (λ y. Arrives y w) e a)
found-flattened (obj fs ∷ vs) v w (inr m) a = inr (found-flattened vs v w m a)

-- The values that the code collects for a path are exactly those that the path leads to: its first part
-- is a member of the resource, each further part a member of an object or of the objects in an
-- array, and an array at the end stands for its elements.
pub lookup_filter_values_iff :
    (document : Object) (part : Str) (path : List Str) (w : Value)
    → Mem w (lookup_filter_values document (part ∷ path))
      ↔ ((v : Value) × (x : Value) × (lookup part document ≡ some v) × Leads path v x × Arrives x w)
unfolding lookup_filter_values
lookup_filter_values_iff document part path w = (there, back)
  where
    start : List Value
    start = option_list (lookup part document)

    there :
        Mem w (lookup_filter_values document (part ∷ path))
        → (v : Value) × (x : Value) × (lookup part document ≡ some v) × Leads path v x × Arrives x w
    there h =
        let (x, m, a) = flattened-found (follow path start) w h in
        let (v, k, l) = follow-found path start x m in
        (v, x, option-found (lookup part document) v k, l, a)

    back :
        (v : Value) × (x : Value) × (lookup part document ≡ some v) × Leads path v x × Arrives x w
        → Mem w (lookup_filter_values document (part ∷ path))
    back (v, x, e, l, a) =
        found-flattened (follow path start) x w
          (found-follow path start v x (found-option (lookup part document) v e) l) a
