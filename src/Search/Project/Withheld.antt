-- ===== src/Search/Project/Withheld.antt =====
-- What a projection withholds: `projectDocument` of pkg/scim/search.go.
use gotth_scim.Base.{
  Bool, true, false, not, if◌then◌else◌, Bool-cases, Str, bytes, select, All_imp, All, List, [],
  ◌∷◌, Unicode, ◌≡◌, refl, inl, inr,
}
use gotth_scim.Failure.{ok, ok-injective}
use gotth_scim.Json.{Object}
use gotth_scim.Json.Decode.{Codec, clone_document}
use gotth_scim.Schema.{Definition}
use gotth_scim.Search.Project.Occurs.{
  occurs, occurs-nil, occurs-copy, occurs-delete, occurs-delete_self,
}
use gotth_scim.Search.Project.{
  copy_projected_path, delete_projected_path, always_paths, never_paths, requested_paths,
  path_requested, delete_all, copy_all, delete_unrequested, is_kept, delete_excluded, withheld,
  included, excluded, projected, project_document,
}

module _ (u : Unicode) where
  delete_all-keeps :
      (paths : List (List Str)) (wanted : List Str) (target : Object)
      → occurs wanted target ≡ false
      → occurs wanted (delete_all u paths target) ≡ false
  unfolding delete_all
  delete_all-keeps [] wanted target h = h
  delete_all-keeps (path ∷ paths) wanted target h =
      delete_all-keeps paths wanted (delete_projected_path path target)
        (occurs-delete path wanted target h)

  delete_all-All :
      (paths : List (List Str)) (target : Object)
      → All (λ p. occurs p (delete_all u paths target) ≡ false) paths
  unfolding delete_all
  delete_all-All [] target = tt
  delete_all-All (path ∷ paths) target = (
    delete_all-keeps paths path (delete_projected_path path target)
        (occurs-delete_self path target),
    delete_all-All paths (delete_projected_path path target),
  )

  -- A deletion under a test, of either outcome.
  if-keeps :
      (b : Bool) (path wanted : List Str) (target : Object)
      → occurs wanted target ≡ false
      → occurs wanted (if b then target else delete_projected_path path target) ≡ false
  if-keeps true path wanted target h = h
  if-keeps false path wanted target h = occurs-delete path wanted target h

  delete_unrequested-keeps :
      (include paths : List (List Str)) (wanted : List Str) (target : Object)
      → occurs wanted target ≡ false
      → occurs wanted (delete_unrequested u include paths target) ≡ false
  unfolding delete_unrequested
  delete_unrequested-keeps include [] wanted target h = h
  delete_unrequested-keeps include (path ∷ paths) wanted target h =
      delete_unrequested-keeps include paths wanted _
        (if-keeps (path_requested u path include) path wanted target h)

  -- The paths of a list that were not asked for.
  abbrev pub unrequested : List (List Str) → List (List Str) → List (List Str)
  unrequested include paths = select (λ p. not (path_requested u p include)) paths

  delete_unrequested-All :
      (include paths : List (List Str)) (target : Object)
      → All
          (λ p. occurs p (delete_unrequested u include paths target) ≡ false)
          (unrequested include paths)
  unfolding delete_unrequested
  delete_unrequested-All include [] target = tt
  delete_unrequested-All include (path ∷ paths) target =
      elim (Bool-cases (path_requested u path include)) [
        | inl asked ↦ rw asked (delete_unrequested-All include paths target)
        | inr unasked ↦ rw unasked (
          delete_unrequested-keeps include paths path (delete_projected_path path target)
              (occurs-delete_self path target),
          delete_unrequested-All include paths (delete_projected_path path target),
        )
      ]

  delete_excluded-keeps :
      (always paths : List (List Str)) (wanted : List Str) (target : Object)
      → occurs wanted target ≡ false
      → occurs wanted (delete_excluded u always paths target) ≡ false
  unfolding delete_excluded
  delete_excluded-keeps always [] wanted target h = h
  delete_excluded-keeps always (path ∷ paths) wanted target h =
      delete_excluded-keeps always paths wanted _
        (if-keeps (is_kept u always path) path wanted target h)

  copy_all-keeps :
      (paths : List (List Str)) (wanted : List Str) (target source : Object)
      → occurs wanted target ≡ false
      → occurs wanted source ≡ false
      → occurs wanted (copy_all u paths target source) ≡ false
  unfolding copy_all
  copy_all-keeps [] wanted target source h k = h
  copy_all-keeps (path ∷ paths) wanted target source h k =
      copy_all-keeps paths wanted (copy_projected_path path target source) source
        (occurs-copy path wanted target source h k) k

  empty-occurs : (wanted : List Str) → occurs wanted [] ≡ false
  empty-occurs [] = unfold occurs in refl
  empty-occurs (j ∷ wanted) = occurs-nil j wanted

  projected-keeps :
      (d : Definition) (include exclude : List (List Str)) (wanted : List Str)
      (source again : Object)
      → occurs wanted source ≡ false
      → occurs wanted again ≡ false
      → occurs wanted (projected u d include exclude source again) ≡ false
  unfolding projected included excluded
  projected-keeps d [] exclude wanted source again h k =
      copy_all-keeps (always_paths d) wanted (delete_excluded u (always_paths d) exclude source)
        again (delete_excluded-keeps (always_paths d) exclude wanted source h) k
  projected-keeps d (path ∷ include) exclude wanted source again h k =
      copy_all-keeps (path ∷ include) wanted _ source
        (copy_all-keeps (always_paths d) wanted _ source
          (copy_all-keeps ((bytes "schemas" ∷ []) ∷ (bytes "id" ∷ []) ∷ []) wanted [] source
            (empty-occurs wanted) h)
          h)
        h

  withheld-All :
      (d : Definition) (include : List (List Str)) (source : Object)
      → All (λ p. occurs p (withheld u d include source) ≡ false) (never_paths d)
        × All
            (λ p. occurs p (withheld u d include source) ≡ false)
            (unrequested include (requested_paths d))
  unfolding withheld
  withheld-All d include source = (
    All_imp
        (λ p h.
          delete_unrequested-keeps include (requested_paths d) p
            (delete_all u (never_paths d) source) h)
        (never_paths d) (delete_all-All (never_paths d) source),
    delete_unrequested-All include (requested_paths d) (delete_all u (never_paths d) source),
  )

  module _ (c : Codec) where
    -- A projection shows nothing at a path whose attribute is never returned, the password among them, whatever
    -- the request includes or excludes, and nothing at a path that is returned on request only, unless the
    -- request includes the path or one above it. The copy that the code makes of the reduced document has a
    -- value only where that document has one.
    pub project_document-withheld :
        (d : Definition) (include exclude : List (List Str)) (document copy again result : Object)
        → clone_document u c document ≡ ok copy
        → clone_document u c (withheld u d include copy) ≡ ok again
        → ((p : List Str) → occurs p (withheld u d include copy) ≡ false → occurs p again ≡ false)
        → project_document u c d include exclude document ≡ ok result
        → All (λ p. occurs p result ≡ false) (never_paths d)
          × All (λ p. occurs p result ≡ false) (unrequested include (requested_paths d))
    unfolding project_document
    project_document-withheld d include exclude document copy again result h1 h2 k h =
        let source : Object = withheld u d include copy in
        let same : projected u d include exclude source again ≡ result =
          ok-injective (rw (h1, h2) at h) in
        let shown : (p : List Str) → occurs p source ≡ false → occurs p result ≡ false =
          λ p q. rw (← same) (projected-keeps d include exclude p source again q (k p q)) in
        let (never, unasked) = withheld-All d include copy in
        (
          All_imp shown (never_paths d) never,
          All_imp shown (unrequested include (requested_paths d)) unasked,
        )
