-- ===== src/Search/Examples.antt =====
-- Searches on sample data.
use gotth_scim.Base.{
  ◌≤◌, min, false, bytes, str_eq, lookup, insert, erase, length, take, drop, select, All, none,
  some, List, [], ◌∷◌, ◌++◌, ◌≡◌, ◌⊎◌, refl, arith,
}
use mathlib.Core.List.{cons≢nil, Perm}
use gotth_scim.Failure.{ok}
use gotth_scim.Json.{Object, num, str, obj, entries}
use gotth_scim.Json.Decode.{
  Codec, open_brace, close_brace, text, canonical, core_key_cases, clone_document,
}
use gotth_scim.Schema.{Definition, none_left}
use gotth_scim.Samples.{ascii, literals, codec, is_ascii, lower, same_letters}
use gotth_scim.Search.{
  SearchPlan, SearchRequest, pos, negsuc, compile_search, apply_search, matching, sorted, page,
}
use gotth_scim.Search.Count.{
  parse_search_count, parse_search_count-min, decimal, maximum_int, is_digit,
}
use gotth_scim.Search.Page.{
  apply_search-selected, selected, admitted, apply_search-pages, compile_search-bounds,
}
use gotth_scim.Search.Project.{
  never_paths, requested_paths, returnability_paths, walk_paths, extension_paths, always_paths,
  delete_projected_path, copy_all, delete_excluded, excluded, projected as projected_of, delete_all,
  delete_unrequested, withheld, project_document,
}
use gotth_scim.Search.Project.Occurs.{occurs}
use gotth_scim.Search.Project.Withheld.{project_document-withheld, unrequested}

parse_search_count-min_example :
    (parse_search_count (49 ∷ 50 ∷ []) ≡ ok (min maximum_int (decimal (49 ∷ 50 ∷ []))))
    × (parse_search_count (43 ∷ 49 ∷ 50 ∷ []) ≡ ok (min maximum_int (decimal (49 ∷ 50 ∷ []))))
    × (parse_search_count (45 ∷ 49 ∷ 50 ∷ []) ≡ ok 0)
parse_search_count-min_example =
    parse_search_count-min (49 ∷ 50 ∷ []) cons≢nil (unfold is_digit in refl)

abbrev plan : SearchPlan
plan = record {
  filter = none;
  sort = none;
  descending = false;
  start = 1;
  count = 5;
  include = [];
  exclude = [];
}

abbrev resources : List Object
resources = [] ∷ (((97 ∷ []), num (49 ∷ [])) ∷ []) ∷ []

apply_search-pages_example :
    ((([] ∷ []) ++ ((((97 ∷ []), num (49 ∷ [])) ∷ []) ∷ [])) ≡ resources)
    × (length resources ≡ 2)
    × (length resources ≡ 2)
apply_search-pages_example =
    apply_search-pages ascii literals plan 1 1 resources ([] ∷ [])
      ((((97 ∷ []), num (49 ∷ [])) ∷ []) ∷ []) resources 2 2 2 (omega arith)
      (unfold apply_search matching sorted page in refl)
      (unfold apply_search matching sorted page in refl)
      (unfold apply_search matching sorted page in refl)

apply_search-selected_example :
    (apply_search ascii literals plan resources
      ≡ ok (
        take 5 (drop 0 (selected ascii literals plan resources)),
        length (select (admitted ascii literals none) resources),
      ))
    × Perm
        (selected ascii literals plan resources)
        (select (admitted ascii literals none) resources)
apply_search-selected_example = apply_search-selected ascii literals plan resources

abbrev plain : Definition
plain = record {
  name = 85 ∷ [];
  endpoint = 85 ∷ [];
  schema = 83 ∷ [];
  description = [];
  attributes = none_left;
  unique_attribute = [];
  filter_attributes = [];
  extensions = [];
}

abbrev request : SearchRequest
request = record {
  attributes = [];
  excluded_attributes = [];
  filter = [];
  sort_by = [];
  sort_order = [];
  start_index = negsuc 3;
  count = some (pos 500);
}

compiled : compile_search ascii literals request plain 100 ≡ ok (record plan { count = 100 })
unfolding compile_search str_eq same_letters lower bytes
compiled = refl

compile_search-bounds_example :
    (1 ≤ 1) × (100 ≤ 100) × (0 ≤ 100) × (0 ≤ 100) × ((plan.include ≡ []) ⊎ (plan.exclude ≡ []))
compile_search-bounds_example =
    compile_search-bounds ascii literals request plain 100 (record plan { count = 100 }) compiled

-- `{}` for the empty object, and `{"password":"1"}` for any other.
abbrev secret_codec : Codec
secret_codec = record codec {
  tokens = λ s. elim s [
    | [] ↦ []
    | c ∷ rest ↦ elim rest [
      | [] ↦ open_brace ∷ text (bytes "password") ∷ text (49 ∷ []) ∷ close_brace ∷ []
      | _ ∷ _ ↦ open_brace ∷ close_brace ∷ []
    ]
  ];
  marshal = λ v. elim v [
    | obj fs ↦ elim (entries fs) [ [] ↦ some (123 ∷ 125 ∷ []) | _ ∷ _ ↦ some (123 ∷ []) ]
    | _ ↦ none
  ];
}

abbrev secret : Object
unfolding bytes
secret = ((bytes "password"), str (49 ∷ [])) ∷ []

copied : clone_document ascii secret_codec secret ≡ ok secret
unfolding clone_document str_eq is_ascii bytes lookup lower insert canonical core_key_cases
copied = refl

reduced : withheld ascii plain [] secret ≡ []
unfolding withheld delete_all delete_unrequested never_paths requested_paths returnability_paths
    walk_paths extension_paths delete_projected_path erase bytes str_eq
reduced = refl

empty_copied : clone_document ascii secret_codec [] ≡ ok []
unfolding clone_document str_eq is_ascii
empty_copied = refl

projected : project_document ascii secret_codec plain [] [] secret ≡ ok []
unfolding project_document projected_of excluded copy_all always_paths delete_excluded
    returnability_paths walk_paths extension_paths
projected = rw (copied, reduced, empty_copied) refl

project_document-withheld_example :
    All (λ p. occurs p [] ≡ false) (never_paths plain)
    × All (λ p. occurs p [] ≡ false) (unrequested ascii [] (requested_paths plain))
project_document-withheld_example =
    project_document-withheld ascii secret_codec plain [] [] secret secret [] [] copied
      (rw reduced empty_copied) (λ p h. rw reduced at h) projected
