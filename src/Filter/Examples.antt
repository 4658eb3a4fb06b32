-- ===== src/Filter/Examples.antt =====
-- The theorems on filters at `not (a pr)` and `not (b pr)`.
use gotth_scim.Base.{lookup, some, ◌↔◌, Str, [], ◌∷◌, ◌≡◌}
use gotth_scim.Failure.{ok, Settles}
use gotth_scim.Filter.{Checked}
use gotth_scim.Filter.Parser.{parse_text}
use gotth_scim.Filter.Parser.Total.{parse_text-Settles}
use gotth_scim.Json.{Value, num}
use gotth_scim.Filter.Match.Paths.{Mem, Leads, Arrives, lookup_filter_values_iff}
use gotth_scim.Filter.Match.{lookup_filter_values, match_filter}
use gotth_scim.Filter.Match.Meaning.{holds, match_filter-holds}
use gotth_scim.Samples.{ascii, literals, nested}

-- `not (a pr)`
abbrev raw : Str
raw = 110 ∷ 111 ∷ 116 ∷ 32 ∷ 40 ∷ 97 ∷ 32 ∷ 112 ∷ 114 ∷ 41 ∷ []

parse_text-Settles_example : Settles (parse_text ascii literals raw)
parse_text-Settles_example = parse_text-Settles ascii literals raw

abbrev filter : Checked
filter = Checked.negation (Checked.present ((98 ∷ []) ∷ []))

match_filter-holds_example :
    match_filter ascii literals filter nested ≡ ok (holds ascii literals filter nested)
match_filter-holds_example = match_filter-holds ascii literals filter nested

abbrev name : Str
name = 97 ∷ []

lookup_filter_values_iff_example : Mem (num (49 ∷ [])) (lookup_filter_values nested (name ∷ [])) ↔ (
    (v : Value) × (x : Value) × (lookup name nested ≡ some v)
    × Leads [] v x
    × Arrives x (num (49 ∷ [])))
lookup_filter_values_iff_example = lookup_filter_values_iff nested name [] (num (49 ∷ []))
