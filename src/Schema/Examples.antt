-- ===== src/Schema/Examples.antt =====
-- The theorem on the schemas of a message at two names in another case and order.
use gotth_scim.Base.{Str, List, str_eq, length, map, true, All, [], ◌∷◌, ◌≡◌, refl}
use gotth_scim.Failure.{ok}
use gotth_scim.Schema.Exact.{listed, Distinct, validate_schemas, validate_schemas-Distinct}
use gotth_scim.Samples.{ascii, lower, lower_byte}

abbrev sent : List Str
sent = (66 ∷ []) ∷ (97 ∷ []) ∷ []

abbrev required : List Str
required = (97 ∷ []) ∷ (98 ∷ []) ∷ []

admitted : validate_schemas ascii sent required ≡ ok tt
unfolding validate_schemas lower lower_byte str_eq
admitted = refl

validate_schemas-Distinct_example :
    (length sent ≡ length required)
    × Distinct (map lower sent)
    × All (λ s. listed s (map lower required) ≡ true) (map lower sent)
    × All (λ s. listed s (map lower sent) ≡ true) (map lower required)
validate_schemas-Distinct_example = validate_schemas-Distinct ascii sent required admitted
