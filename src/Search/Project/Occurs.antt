-- ===== src/Search/Project/Occurs.antt =====
-- What stands at a path after the copies and the deletions of `copyProjectedPath` and
-- `deleteProjectedPath`, of pkg/scim/search.go.
use gotth_scim.Base.{
  Bool, true, false, ◌==◌, Bool-cases, Str, str_eq, eq_of_str_eq, lookup, insert, erase,
  lookup-insert, lookup-insert_self, str_eq_refl, lookup-erase, length, any, map, Option, none,
  some, List, [], ◌∷◌, ◌≡◌, refl, arith, inl, inr, or-eq-false,
}
use gotth_scim.Json.{
  Value, null, bool, num, str, arr, obj, Object, entries, elems, mk_obj, entries-fields,
  elems-items,
}
use gotth_scim.Search.Project.{
  child_of, blanks, children_of, copy_element, copy_each, copy_value, copy_projected_path,
  on_element, put_or_erase, delete_value, delete_projected_path,
}

-- Something stands at a path: at the end of it any value, and on the way an object or one of the objects
-- of an array. Nothing stands at the empty path.
abbrev in_object : (Object → Bool) → Value → Bool
in_object f (obj fs) = f (entries fs)
in_object f _ = false

abbrev pub in_value : List Str → (Object → Bool) → Option Value → Bool
in_value path f none = false
in_value [] f (some v) = true
in_value (_ ∷ _) f (some (obj fs)) = f (entries fs)
in_value (_ ∷ _) f (some (arr vs)) = any (in_object f) (elems vs)
in_value (_ ∷ _) f (some _) = false

unfoldable pub occurs : List Str → Object → Bool
unfolding lookup
occurs [] m = false
occurs (name ∷ path) m = in_value path (occurs path) (lookup name m)

occurs-insert :
    (name j : Str) (path : List Str) (w : Value) (m : Object)
    → occurs (j ∷ path) m ≡ false
    → (str_eq name j ≡ true → in_value path (occurs path) (some w) ≡ false)
    → occurs (j ∷ path) (insert name w m) ≡ false
unfolding occurs
occurs-insert name j path w m h k = elim (Bool-cases (str_eq name j)) [
  | inl e ↦ rw (lookup-insert name j w m, e) (k e)
  | inr e ↦ rw (lookup-insert name j w m, e) h
]

occurs-erase :
    (name j : Str) (path : List Str) (m : Object)
    → occurs (j ∷ path) m ≡ false
    → occurs (j ∷ path) (erase name m) ≡ false
unfolding occurs
occurs-erase name j path m h = elim (Bool-cases (str_eq name j)) [
  | inl e ↦ rw (lookup-erase name j m, e) refl
  | inr e ↦ rw (lookup-erase name j m, e) h
]

pub occurs-nil : (j : Str) (path : List Str) → occurs (j ∷ path) [] ≡ false
unfolding occurs lookup
occurs-nil j path = refl

any-blanks :
    (f : Object → Bool) (vs : List Value) → f [] ≡ false → any (in_object f) (blanks vs) ≡ false
any-blanks f [] h = refl
any-blanks f (v ∷ vs) h = ground (arith, any-blanks f vs h)

-- A copy that keeps a test false keeps it false in every element.
any-copy_each :
    (f : Object → Bool) (g : Object → Object → Object)
    → ((a b : Object) → f a ≡ false → f b ≡ false → f (g a b) ≡ false)
    → (cs vs : List Value) → any (in_object f) cs ≡ false
    → any (in_object f) vs ≡ false
    → any (in_object f) (copy_each g cs vs) ≡ false
unfolding copy_each copy_element
any-copy_each f g k [] vs h h' = refl
any-copy_each f g k (c ∷ cs) [] h h' = h
any-copy_each f g k (c ∷ cs) (v ∷ vs) h h' =
    let (c_not, cs_not) = or-eq-false (in_object f c) (any (in_object f) cs) h in
    let (v_not, vs_not) = or-eq-false (in_object f v) (any (in_object f) vs) h' in
    rw (any-copy_each f g k cs vs cs_not vs_not, element c v c_not v_not) refl
  where
    element :
        (a b : Value)
        → in_object f a ≡ false
        → in_object f b ≡ false
        → in_object f (copy_element g a b) ≡ false
    element (obj as_) (obj bs) p q =
        rw (entries-fields (g (entries as_) (entries bs))) (k (entries as_) (entries bs) p q)
    element (obj as_) null p q = p
    element (obj as_) (bool _) p q = p
    element (obj as_) (num _) p q = p
    element (obj as_) (str _) p q = p
    element (obj as_) (arr _) p q = p
    element null b p q = refl
    element (bool _) b p q = refl
    element (num _) b p q = refl
    element (str _) b p q = refl
    element (arr _) b p q = refl

child_of-occurs :
    (next : Str) (path : List Str) (v : Option Value)
    → in_value (next ∷ path) (occurs (next ∷ path)) v ≡ false
    → occurs (next ∷ path) (child_of v) ≡ false
child_of-occurs next path (some (obj fs)) h = h
child_of-occurs next path (some null) h = occurs-nil next path
child_of-occurs next path (some (bool _)) h = occurs-nil next path
child_of-occurs next path (some (num _)) h = occurs-nil next path
child_of-occurs next path (some (str _)) h = occurs-nil next path
child_of-occurs next path (some (arr _)) h = occurs-nil next path
child_of-occurs next path none h = occurs-nil next path

children_of-occurs :
    (next : Str) (path : List Str) (v : Option Value) (vs : List Value)
    → in_value (next ∷ path) (occurs (next ∷ path)) v ≡ false
    → any (in_object (occurs (next ∷ path))) (children_of v vs) ≡ false
unfolding children_of
children_of-occurs next path (some (arr cs)) vs h =
    elim (Bool-cases (length (elems cs) == length vs)) [
      | inl e ↦ rw e h
      | inr e ↦ rw e (any-blanks (occurs (next ∷ path)) vs (occurs-nil next path))
    ]
children_of-occurs next path (some (obj _)) vs h =
    any-blanks (occurs (next ∷ path)) vs (occurs-nil next path)
children_of-occurs next path (some null) vs h =
    any-blanks (occurs (next ∷ path)) vs (occurs-nil next path)
children_of-occurs next path (some (bool _)) vs h =
    any-blanks (occurs (next ∷ path)) vs (occurs-nil next path)
children_of-occurs next path (some (num _)) vs h =
    any-blanks (occurs (next ∷ path)) vs (occurs-nil next path)
children_of-occurs next path (some (str _)) vs h =
    any-blanks (occurs (next ∷ path)) vs (occurs-nil next path)
children_of-occurs next path none vs h = any-blanks (occurs (next ∷ path)) vs (occurs-nil next path)

-- At a name that is the one asked for, what does not occur in the object does not occur in its value.
at_name :
    (name j : Str) (path : List Str) (m : Object)
    → occurs (j ∷ path) m ≡ false
    → str_eq name j ≡ true
    → in_value path (occurs path) (lookup name m) ≡ false
unfolding occurs
at_name name j path m h e = rw (eq_of_str_eq name j e) h

copy_value-occurs :
    (name j : Str) (path wanted : List Str) (f : Object → Object → Object) (target : Object)
    (v : Option Value)
    → ((a b : Object)
        → occurs wanted a ≡ false
        → occurs wanted b ≡ false
        → occurs wanted (f a b) ≡ false)
    → occurs (j ∷ wanted) target ≡ false
    → (str_eq name j ≡ true → in_value wanted (occurs wanted) v ≡ false)
    → occurs (j ∷ wanted) (copy_value name path f target v) ≡ false
unfolding copy_value
copy_value-occurs name j path wanted f target none ih h k = h
copy_value-occurs name j [] wanted f target (some v) ih h k =
    occurs-insert name j wanted v target h k
copy_value-occurs name j (_ ∷ _) [] f target (some (obj source)) ih h k =
    occurs-insert name j [] _ target h k
copy_value-occurs name j (_ ∷ _) (next ∷ rest) f target (some (obj source)) ih h k =
    occurs-insert name j (next ∷ rest) _ target h (λ e.
      rw (entries-fields (f (child_of (lookup name target)) (entries source))) (
        ih (child_of (lookup name target)) (entries source)
          (child_of-occurs next rest (lookup name target) (at_name name j (next ∷ rest) target h e))
          (k e)))
copy_value-occurs name j (_ ∷ _) [] f target (some (arr vs)) ih h k =
    occurs-insert name j [] _ target h k
copy_value-occurs name j (_ ∷ _) (next ∷ rest) f target (some (arr vs)) ih h k =
    let children = children_of (lookup name target) (elems vs) in
    occurs-insert name j (next ∷ rest) _ target h (λ e.
      rw (elems-items (copy_each f children (elems vs))) (
        any-copy_each (occurs (next ∷ rest)) f ih children (elems vs)
          (children_of-occurs next rest (lookup name target) (elems vs)
            (at_name name j (next ∷ rest) target h e))
          (k e)))
copy_value-occurs name j (_ ∷ _) wanted f target (some null) ih h k = h
copy_value-occurs name j (_ ∷ _) wanted f target (some (bool _)) ih h k = h
copy_value-occurs name j (_ ∷ _) wanted f target (some (num _)) ih h k = h
copy_value-occurs name j (_ ∷ _) wanted f target (some (str _)) ih h k = h

-- A copy brings nothing to a path that neither the target nor the source has there.
pub occurs-copy :
    (path wanted : List Str) (target source : Object)
    → occurs wanted target ≡ false
    → occurs wanted source ≡ false
    → occurs wanted (copy_projected_path path target source) ≡ false
unfolding copy_projected_path occurs
occurs-copy [] wanted target source h k = h
occurs-copy (name ∷ path) [] target source h k = refl
occurs-copy (name ∷ path) (j ∷ wanted) target source h k =
    copy_value-occurs name j path wanted (copy_projected_path path) target (lookup name source)
      (occurs-copy path wanted) h (at_name name j wanted source k)

any-map-on_element :
    (f : Object → Bool) (g : Object → Object)
    → ((m : Object) → f m ≡ false → f (g m) ≡ false)
    → (vs : List Value) → any (in_object f) vs ≡ false
    → any (in_object f) (map (on_element g) vs) ≡ false
unfolding on_element
any-map-on_element f g k [] h = refl
any-map-on_element f g k (v ∷ vs) h =
    let (v_not, vs_not) = or-eq-false (in_object f v) (any (in_object f) vs) h in
    rw (element v v_not, any-map-on_element f g k vs vs_not) refl
  where
    element : (a : Value) → in_object f a ≡ false → in_object f (on_element g a) ≡ false
    element (obj fs) p = rw (entries-fields (g (entries fs))) (k (entries fs) p)
    element null p = p
    element (bool _) p = p
    element (num _) p = p
    element (str _) p = p
    element (arr _) p = p

put_or_erase-occurs :
    (name j : Str) (path : List Str) (o target : Object)
    → occurs (j ∷ path) target ≡ false
    → (str_eq name j ≡ true → in_value path (occurs path) (some (mk_obj o)) ≡ false)
    → occurs (j ∷ path) (put_or_erase name o target) ≡ false
unfolding put_or_erase
put_or_erase-occurs name j path [] target h k = occurs-erase name j path target h
put_or_erase-occurs name j path (p ∷ o) target h k =
    occurs-insert name j path (mk_obj (p ∷ o)) target h k

delete_value-occurs :
    (name j : Str) (path wanted : List Str) (f : Object → Object) (target : Object)
    (v : Option Value)
    → ((m : Object) → occurs wanted m ≡ false → occurs wanted (f m) ≡ false)
    → occurs (j ∷ wanted) target ≡ false
    → (str_eq name j ≡ true → in_value wanted (occurs wanted) v ≡ false)
    → occurs (j ∷ wanted) (delete_value name path f target v) ≡ false
unfolding delete_value
delete_value-occurs name j [] wanted f target v ih h k = occurs-erase name j wanted target h
delete_value-occurs name j (_ ∷ _) [] f target (some (obj fs)) ih h k =
    put_or_erase-occurs name j [] (f (entries fs)) target h k
delete_value-occurs name j (_ ∷ _) (next ∷ rest) f target (some (obj fs)) ih h k =
    put_or_erase-occurs name j (next ∷ rest) (f (entries fs)) target h
      (λ e. rw (entries-fields (f (entries fs))) (ih (entries fs) (k e)))
delete_value-occurs name j (_ ∷ _) [] f target (some (arr vs)) ih h k =
    occurs-insert name j [] _ target h k
delete_value-occurs name j (_ ∷ _) (next ∷ rest) f target (some (arr vs)) ih h k =
    occurs-insert name j (next ∷ rest) _ target h (λ e.
      rw (elems-items (map (on_element f) (elems vs)))
        (any-map-on_element (occurs (next ∷ rest)) f ih (elems vs) (k e)))
delete_value-occurs name j (_ ∷ _) wanted f target (some null) ih h k = h
delete_value-occurs name j (_ ∷ _) wanted f target (some (bool _)) ih h k = h
delete_value-occurs name j (_ ∷ _) wanted f target (some (num _)) ih h k = h
delete_value-occurs name j (_ ∷ _) wanted f target (some (str _)) ih h k = h
delete_value-occurs name j (_ ∷ _) wanted f target none ih h k = h

-- A deletion brings nothing to any path.
pub occurs-delete :
    (path wanted : List Str) (target : Object)
    → occurs wanted target ≡ false
    → occurs wanted (delete_projected_path path target) ≡ false
unfolding delete_projected_path occurs
occurs-delete [] wanted target h = h
occurs-delete (name ∷ path) [] target h = refl
occurs-delete (name ∷ path) (j ∷ wanted) target h =
    delete_value-occurs name j path wanted (delete_projected_path path) target (lookup name target)
      (occurs-delete path wanted) h (at_name name j wanted target h)

occurs-insert_self :
    (name : Str) (path : List Str) (w : Value) (m : Object)
    → in_value path (occurs path) (some w) ≡ false
    → occurs (name ∷ path) (insert name w m) ≡ false
unfolding occurs
occurs-insert_self name path w m h = rw (lookup-insert_self name w m) h

occurs-erase_self :
    (name : Str) (path : List Str) (m : Object) → occurs (name ∷ path) (erase name m) ≡ false
unfolding occurs
occurs-erase_self name path m = rw (lookup-erase name name m, str_eq_refl name) refl

put_or_erase_self :
    (name : Str) (path : List Str) (o target : Object)
    → in_value path (occurs path) (some (mk_obj o)) ≡ false
    → occurs (name ∷ path) (put_or_erase name o target) ≡ false
unfolding put_or_erase
put_or_erase_self name path [] target h = occurs-erase_self name path target
put_or_erase_self name path (p ∷ o) target h =
    occurs-insert_self name path (mk_obj (p ∷ o)) target h

any-map_none :
    (f : Object → Bool) (g : Object → Object)
    → ((m : Object) → f (g m) ≡ false)
    → (vs : List Value) → any (in_object f) (map (on_element g) vs) ≡ false
unfolding on_element
any-map_none f g k [] = refl
any-map_none f g k (v ∷ vs) = rw (element v, any-map_none f g k vs) refl
  where
    element : (a : Value) → in_object f (on_element g a) ≡ false
    element (obj fs) = rw (entries-fields (g (entries fs))) (k (entries fs))
    element null = refl
    element (bool _) = refl
    element (num _) = refl
    element (str _) = refl
    element (arr _) = refl

delete_value_self :
    (name next : Str) (rest : List Str) (f : Object → Object) (target : Object) (v : Option Value)
    → lookup name target ≡ v
    → ((m : Object) → occurs (next ∷ rest) (f m) ≡ false)
    → occurs (name ∷ next ∷ rest) (delete_value name (next ∷ rest) f target v) ≡ false
unfolding delete_value
delete_value_self name next rest f target (some (obj fs)) e k =
    put_or_erase_self name (next ∷ rest) (f (entries fs)) target
      (rw (entries-fields (f (entries fs))) (k (entries fs)))
delete_value_self name next rest f target (some (arr vs)) e k =
    occurs-insert_self name (next ∷ rest) _ target (
      rw (elems-items (map (on_element f) (elems vs)))
        (any-map_none (occurs (next ∷ rest)) f k (elems vs)))
delete_value_self name next rest f target (some null) e k = unfold occurs in rw e refl
delete_value_self name next rest f target (some (bool _)) e k = unfold occurs in rw e refl
delete_value_self name next rest f target (some (num _)) e k = unfold occurs in rw e refl
delete_value_self name next rest f target (some (str _)) e k = unfold occurs in rw e refl
delete_value_self name next rest f target none e k = unfold occurs in rw e refl

-- What is deleted no longer occurs.
pub occurs-delete_self :
    (path : List Str) (target : Object) → occurs path (delete_projected_path path target) ≡ false
unfolding delete_projected_path delete_value
occurs-delete_self [] target = unfold occurs in refl
occurs-delete_self (name ∷ []) target = occurs-erase_self name [] target
occurs-delete_self (name ∷ next ∷ rest) target =
    delete_value_self name next rest (delete_projected_path (next ∷ rest)) target
      (lookup name target) refl (occurs-delete_self (next ∷ rest))
