-- ===== src/Patch/Examples.antt =====
-- The theorems on PATCH at small documents.
use gotth_scim.Base.{
  true, false, bytes, split, not, str_eq, lookup, insert, select, [], ◌∷◌, ◌≡◌, refl, List,
}
use gotth_scim.Failure.{ok, ◌>>=◌}
use gotth_scim.Json.{Value, null, str, obj, field, end, arr, cons, nil, num, Object}
use gotth_scim.Json.Equal.{value_eq}
use gotth_scim.Filter.{Checked}
use gotth_scim.Filter.Match.{match_filter}
use gotth_scim.Filter.Match.Meaning.{holds, of_object}
use gotth_scim.Patch.{Operation, add_missing, apply_direct_patch}
use gotth_scim.Patch.Path.{PatchPath, parse_patch_path, qualified_patch_attribute}
use gotth_scim.Schema.{SchemaAttribute, attribute, none_left, more, Definition, valid_name}
use gotth_scim.Schema.Resolve.{resolve_attribute_contract}
use gotth_scim.Patch.Apply.{
  match_flags, edit_matches, apply_at, apply_patch_operation, apply_with_path, replace_error,
}
use gotth_scim.Patch.Values.{Reflexive, add_missing-idempotent}
use gotth_scim.Patch.Frame.{Stays, apply_patch_operation-Stays}
use gotth_scim.Patch.Remove.{edit_matches-remove}
use gotth_scim.Samples.{
  ascii, literals, nested, lower, lower_byte, same_letters, is_ascii, trim_left, trim_right,
  holds_control,
}

abbrev values : List Value
values = str (98 ∷ []) ∷ str (99 ∷ []) ∷ str (98 ∷ []) ∷ []

values-Reflexive : Reflexive values
unfolding value_eq str_eq
values-Reflexive = (refl, (refl, (refl, tt)))

add_missing-idempotent_example :
    add_missing (add_missing (str (97 ∷ []) ∷ []) values) values
    ≡ add_missing (str (97 ∷ []) ∷ []) values
add_missing-idempotent_example = add_missing-idempotent (str (97 ∷ []) ∷ []) values values-Reflexive

abbrev path : PatchPath
path = record { extension = []; attribute = 98 ∷ []; filter = []; sub = [] }

abbrev changed : Object
changed = ((97 ∷ []), arr (cons (num (49 ∷ [])) nil)) ∷ ((98 ∷ []), str (99 ∷ [])) ∷ []

abbrev attribute_b : SchemaAttribute
attribute_b =
    attribute
      (record {
        name = 98 ∷ [];
        kind = [];
        multi_valued = false;
        description = [];
        required = false;
        canonical_values = [];
        case_exact = true;
        mutability = [];
        returned = [];
        uniqueness = [];
        reference_types = [];
      })
      none_left

abbrev definition : Definition
definition = record {
  name = [];
  endpoint = [];
  schema = [];
  description = [];
  attributes = more attribute_b none_left;
  unique_attribute = [];
  filter_attributes = [];
  extensions = [];
}

parsed : parse_patch_path ascii definition (98 ∷ []) ≡ ok path
unfolding parse_patch_path resolve_attribute_contract qualified_patch_attribute valid_name str_eq
    bytes lower lower_byte same_letters split is_ascii trim_left trim_right holds_control lookup
    insert
parsed = refl

applied :
    apply_patch_operation ascii literals definition nested Operation.add (98 ∷ []) (str (99 ∷ []))
    ≡ ok changed
unfolding apply_patch_operation apply_with_path apply_at insert lookup str_eq apply_direct_patch
    bytes replace_error
applied = rw (parsed, apply_patch_operation) refl

apply_patch_operation-Stays_example : Stays path (97 ∷ []) (99 ∷ []) nested changed
unfolding str_eq bytes
apply_patch_operation-Stays_example =
    apply_patch_operation-Stays ascii literals definition path (97 ∷ []) (99 ∷ []) Operation.add
      (str (99 ∷ [])) refl 98 [] nested changed parsed refl refl applied

abbrev objects : List Value
objects = obj (field (97 ∷ []) (str (98 ∷ [])) end) ∷ obj end ∷ null ∷ []

abbrev has_a : Checked
has_a = Checked.present ((97 ∷ []) ∷ [])

edit_matches-remove_example :
    (match_flags (match_filter ascii literals has_a) objects >>= λ flags.
    edit_matches [] Operation.remove null flags objects)
    ≡ ok (select (λ w. not (of_object (holds ascii literals has_a) w)) objects)
edit_matches-remove_example = edit_matches-remove ascii literals has_a null objects
