-- ===== src/Resource/Examples.antt =====
-- The preparation of a resource on sample data.
use gotth_scim.Base.{true, if◌then◌else◌, ◌≡◌, bytes, [], ◌∷◌}
use gotth_scim.Json.{Items, Object, cons, nil, obj, arr, bool, field, end, mk_obj}
use gotth_scim.Server.Samples.{users}
use gotth_scim.Resource.Clean.{any_primary, demote_others}
use gotth_scim.Resource.Prepare.{normalized}
use gotth_scim.Resource.Primary.{is_single, count_primary, normalized-is_single}

-- Two values that both call themselves primary.
abbrev emails : Items
unfolding bytes
emails =
    cons (obj (field (bytes "primary") (bool true) end))
      (cons (obj (field (bytes "primary") (bool true) end)) nil)

abbrev document : Object
unfolding bytes
document = ((bytes "emails"), arr emails) ∷ []

normalized-is_single_example :
    (is_single (mk_obj (normalized users document)) ≡ true)
    × (count_primary (demote_others emails) ≡ (if any_primary emails then 1 else 0))
normalized-is_single_example = normalized-is_single users document emails
