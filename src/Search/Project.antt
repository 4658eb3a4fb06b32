-- ===== src/Search/Project.antt =====
-- The attributes that a response shows: `projectDocument` and what it calls, of pkg/scim/search.go. The code
-- writes into copies of the document; here each step returns the new object.
pub mod Occurs
pub mod Withheld
use gotth_scim.Base.{
  ℕ, Bool, true, false, ◌&&◌, ◌||◌, not, ◌==◌, if◌then◌else◌, Str, bytes, str_eq, lookup, insert,
  erase, length, any, map, Option, none, some, List, [], ◌∷◌, ◌++◌, Unicode,
}
use gotth_scim.Failure.{Result, ok, err, ◌>>=◌}
use gotth_scim.Json.{Value, arr, obj, Object, Items, entries, elems, mk_arr, mk_obj}
use gotth_scim.Json.Decode.{Codec, clone_document}
use gotth_scim.Schema.{
  Contract, SchemaAttribute, attribute, Attributes, none_left, more, Extension, Definition,
}

abbrev child_of : Option Value → Object
child_of (some (obj fs)) = entries fs
child_of _ = []

abbrev pub blanks : List Value → List Value
blanks [] = []
blanks (v ∷ vs) = mk_obj [] ∷ blanks vs

-- The elements of the target's array, if it has as many as the source's, or else empty objects.
pub children_of : Option Value → List Value → List Value
children_of (some (arr cs)) vs = if length (elems cs) == length vs then elems cs else blanks vs
children_of _ vs = blanks vs

copy_element : (Object → Object → Object) → Value → Value → Value
copy_element f (obj target) (obj source) = mk_obj (f (entries target) (entries source))
copy_element f target source = target

copy_each : (Object → Object → Object) → List Value → List Value → List Value
unfolding copy_element
copy_each f [] vs = []
copy_each f (c ∷ cs) [] = c ∷ cs
copy_each f (c ∷ cs) (v ∷ vs) = copy_element f c v ∷ copy_each f cs vs

-- What is done with the value of the first name; `f` copies along the rest of the path.
copy_value : Str → List Str → (Object → Object → Object) → Object → Option Value → Object
unfolding copy_each children_of insert lookup
copy_value name path f target none = target
copy_value name [] f target (some v) = insert name v target
copy_value name (_ ∷ _) f target (some (obj source)) =
    insert name (mk_obj (f (child_of (lookup name target)) (entries source))) target
copy_value name (_ ∷ _) f target (some (arr vs)) =
    insert name (mk_arr (copy_each f (children_of (lookup name target) (elems vs)) (elems vs)))
      target
copy_value name (_ ∷ _) f target (some v) = target

-- `copyProjectedPath`
unfoldable pub copy_projected_path : List Str → Object → Object → Object
unfolding copy_value lookup
copy_projected_path [] target source = target
copy_projected_path (name ∷ path) target source =
    copy_value name path (copy_projected_path path) target (lookup name source)

pub on_element : (Object → Object) → Value → Value
on_element f (obj fs) = mk_obj (f (entries fs))
on_element f v = v

put_or_erase : Str → Object → Object → Object
unfolding insert erase
put_or_erase name [] target = erase name target
put_or_erase name (p ∷ m) target = insert name (mk_obj (p ∷ m)) target

delete_value : Str → List Str → (Object → Object) → Object → Option Value → Object
unfolding on_element put_or_erase insert erase
delete_value name [] f target v = erase name target
delete_value name (_ ∷ _) f target (some (obj fs)) = put_or_erase name (f (entries fs)) target
delete_value name (_ ∷ _) f target (some (arr vs)) =
    insert name (mk_arr (map (on_element f) (elems vs))) target
delete_value name (_ ∷ _) f target v = target

-- `deleteProjectedPath`
unfoldable pub delete_projected_path : List Str → Object → Object
unfolding delete_value lookup
delete_projected_path [] target = target
delete_projected_path (name ∷ path) target =
    delete_value name path (delete_projected_path path) target (lookup name target)

-- `returnabilityPaths`: the paths whose attributes are returned as `kind` says.
unfoldable mutual
  unfolding bytes

  pub attribute_paths : Str → List Str → SchemaAttribute → List (List Str)
  attribute_paths kind prefix (attribute c subs) =
      let path = prefix ++ (c.name ∷ []) in
      let nested = walk_paths kind path subs in
      (if str_eq c.returned kind then path ∷ [] else [])
      ++ (if str_eq c.kind (bytes "complex") then nested else [])

  pub walk_paths : Str → List Str → Attributes → List (List Str)
  walk_paths kind prefix none_left = []
  walk_paths kind prefix (more a as_) = attribute_paths kind prefix a ++ walk_paths kind prefix as_

unfoldable pub extension_paths : Str → List Extension → List (List Str)
unfolding walk_paths
extension_paths kind [] = []
extension_paths kind (e ∷ es) =
    walk_paths kind (e.schema ∷ []) e.attributes ++ extension_paths kind es

unfoldable pub returnability_paths : Str → Definition → List (List Str)
unfolding walk_paths extension_paths
returnability_paths kind d = walk_paths kind [] d.attributes ++ extension_paths kind d.extensions

unfoldable pub always_paths : Definition → List (List Str)
unfolding returnability_paths bytes
always_paths d = returnability_paths (bytes "always") d

unfoldable pub never_paths : Definition → List (List Str)
unfolding returnability_paths bytes
never_paths d = returnability_paths (bytes "never") d ++ ((bytes "password" ∷ []) ∷ [])

unfoldable pub requested_paths : Definition → List (List Str)
unfolding returnability_paths bytes
requested_paths d = returnability_paths (bytes "request") d

module _ (u : Unicode) where
  starts_path : List Str → List Str → Bool
  starts_path [] path = true
  starts_path (c ∷ candidate) [] = false
  starts_path (c ∷ candidate) (name ∷ path) = u.equal_fold c name && starts_path candidate path

  -- `pathRequested`
  unfoldable pub path_requested : List Str → List (List Str) → Bool
  unfolding starts_path
  path_requested path requested = any (λ candidate. starts_path candidate path) requested

  -- The loops that delete, and those that copy.
  unfoldable pub delete_all : List (List Str) → Object → Object
  unfolding delete_projected_path
  delete_all [] target = target
  delete_all (path ∷ paths) target = delete_all paths (delete_projected_path path target)

  unfoldable pub copy_all : List (List Str) → Object → Object → Object
  unfolding copy_projected_path
  copy_all [] target source = target
  copy_all (path ∷ paths) target source =
      copy_all paths (copy_projected_path path target source) source

  unfoldable pub delete_unrequested : List (List Str) → List (List Str) → Object → Object
  unfolding path_requested delete_projected_path
  delete_unrequested include [] target = target
  delete_unrequested include (path ∷ paths) target =
      delete_unrequested include paths
        (if path_requested path include then target else delete_projected_path path target)

  is_kept : List (List Str) → List Str → Bool
  unfolding path_requested bytes
  is_kept always (name ∷ []) =
      u.equal_fold name (bytes "schemas")
      || u.equal_fold name (bytes "id")
      || path_requested (name ∷ []) always
  is_kept always path = path_requested path always

  unfoldable pub delete_excluded : List (List Str) → List (List Str) → Object → Object
  unfolding is_kept delete_projected_path
  delete_excluded always [] target = target
  delete_excluded always (path ∷ paths) target =
      delete_excluded always paths
        (if is_kept always path then target else delete_projected_path path target)

  -- The document without what is never returned, or only on request.
  unfoldable pub withheld : Definition → List (List Str) → Object → Object
  unfolding delete_all delete_unrequested never_paths requested_paths
  withheld d include source =
      delete_unrequested include (requested_paths d) (delete_all (never_paths d) source)

  unfoldable pub included : Definition → List (List Str) → Object → Object
  unfolding copy_all always_paths bytes
  included d include source =
      copy_all include
        (copy_all (always_paths d)
          (copy_all ((bytes "schemas" ∷ []) ∷ (bytes "id" ∷ []) ∷ []) [] source) source)
        source

  unfoldable pub excluded : Definition → List (List Str) → Object → Object → Object
  unfolding copy_all always_paths delete_excluded
  excluded d exclude source return_source =
      copy_all (always_paths d) (delete_excluded (always_paths d) exclude source) return_source

  unfoldable pub projected :
      Definition → List (List Str) → List (List Str) → Object → Object → Object
  unfolding included excluded
  projected d [] exclude source return_source = excluded d exclude source return_source
  projected d (path ∷ include) exclude source return_source = included d (path ∷ include) source

  module _ (c : Codec) where
    -- `projectDocument`
    unfoldable pub project_document :
        Definition → List (List Str) → List (List Str) → Object → Result Object
    unfolding withheld projected clone_document
    project_document d include exclude document = do
      copy ← clone_document u c document
      let source = withheld d include copy
      return_source ← clone_document u c source
      ok (projected d include exclude source return_source)
