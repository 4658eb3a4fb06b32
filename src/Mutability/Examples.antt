-- ===== src/Mutability/Examples.antt =====
-- The theorems on mutability at a schema with one attribute of each kind.
use gotth_scim.Base.{
  true, false, Str, bytes, str_eq, lookup, insert, erase, [], ◌∷◌, ◌≡◌, refl, none, some, inl, inr,
}
use gotth_scim.Failure.{ok}
use gotth_scim.Json.{str, Object, mk_obj}
use gotth_scim.Schema.{
  Contract, SchemaAttribute, attribute, Attributes, none_left, more, contract, Extension,
  Definition,
}
use gotth_scim.Mutability.{
  strip_read_only, enforce_attribute_mutability, enforce_replacement_mutability, enforce_extension,
  enforce_extensions, hold_immutable, keep_current, is_complex,
}
use gotth_scim.Mutability.Places.{object_at, or_empty, IsPlace}
use gotth_scim.Mutability.Creation.{strip_read_only-lookup}
use gotth_scim.Mutability.Immutable.{Keeps}
use gotth_scim.Mutability.Replacement.{
  enforce_replacement_mutability-read_only, enforce_replacement_mutability-immutable,
}
use gotth_scim.Patch.Apply.{no_definition}

abbrev named : Str → Str → Contract
named name mutability = record {
  name = name;
  kind = [];
  multi_valued = false;
  description = [];
  required = false;
  canonical_values = [];
  case_exact = true;
  mutability = mutability;
  returned = [];
  uniqueness = [];
  reference_types = [];
}

abbrev server_owned : SchemaAttribute
server_owned = attribute (named (97 ∷ []) (bytes "readOnly")) none_left

abbrev fixed : SchemaAttribute
fixed = attribute (named (98 ∷ []) (bytes "immutable")) none_left

abbrev schema : Attributes
schema = more server_owned (more fixed none_left)

abbrev current : Object
current = ((97 ∷ []), str (49 ∷ [])) ∷ ((98 ∷ []), str (50 ∷ [])) ∷ []

-- The client sends another value for the one and none for the other.
abbrev incoming : Object
incoming = ((97 ∷ []), str (51 ∷ [])) ∷ []

-- A definition with one extension, which has the same attributes.
abbrev extension : Extension
extension = record {
  schema = 120 ∷ [];
  name = [];
  description = [];
  required = false;
  attributes = schema;
}

abbrev definition : Definition
definition = record no_definition { attributes = schema; extensions = extension ∷ [] }

abbrev stored : Object
stored = ((120 ∷ []), mk_obj current) ∷ []

abbrev sent : Object
sent = ((120 ∷ []), mk_obj incoming) ∷ []

is_alone : IsPlace definition (some extension) (97 ∷ [])
unfolding str_eq
is_alone = (inl (refl, tt), (refl, (refl, tt)))

is_alone_fixed : IsPlace definition (some extension) (98 ∷ [])
unfolding str_eq
is_alone_fixed = (inl (refl, tt), (refl, (refl, tt)))

there : object_at (some extension) sent ≡ some incoming
unfolding lookup str_eq
there = refl

strip_read_only-lookup_example :
    (kept : Object) × (object_at (some extension) (strip_read_only definition sent) ≡ some kept)
    × (lookup (97 ∷ []) kept ≡ none)
strip_read_only-lookup_example =
    strip_read_only-lookup definition (some extension) server_owned sent incoming is_alone
      (inl refl) refl there

enforced : enforce_replacement_mutability definition stored sent ≡ ok stored
unfolding enforce_replacement_mutability enforce_attribute_mutability str_eq bytes lookup insert
    erase keep_current hold_immutable enforce_extension enforce_extensions
enforced = refl

enforce_replacement_mutability-read_only_example :
    (kept : Object) × (object_at (some extension) stored ≡ some kept)
    × (lookup (97 ∷ []) kept ≡ lookup (97 ∷ []) (or_empty (object_at (some extension) stored)))
unfolding str_eq
enforce_replacement_mutability-read_only_example =
    enforce_replacement_mutability-read_only definition (some extension) server_owned stored sent
      incoming stored is_alone (inl (refl, (refl, tt))) refl there enforced

is_simple : is_complex (contract fixed) ≡ false
unfolding is_complex str_eq bytes
is_simple = refl

enforce_replacement_mutability-immutable_example :
    (kept : Object) × (object_at (some extension) stored ≡ some kept)
    × Keeps (str (50 ∷ [])) (lookup (98 ∷ []) kept)
unfolding lookup str_eq
enforce_replacement_mutability-immutable_example =
    enforce_replacement_mutability-immutable definition (some extension) fixed stored sent incoming
      stored (str (50 ∷ [])) is_alone_fixed (inr (inl (refl, tt))) refl is_simple refl there
      enforced
