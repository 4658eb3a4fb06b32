-- ===== src/Etag.antt =====
-- Entity tags and the conditional requests that they decide: pkg/scim/etag.go, and
-- `evaluateWritePreconditions` and `entityTag` of pkg/scim/server.go. A position in the header is the text
-- that is left from there.
pub mod Parse
pub mod Render
pub mod Conditions
mod Examples
use mathlib.Core.List.{reverse}
use gotth_scim.Base.{
  ℕ, zero, suc, Bool, true, false, ◌&&◌, ◌||◌, not, ltb, ◌==◌, if◌then◌else◌, Str, bytes, str_eq,
  has_prefix, Option, none, some, List, [], ◌∷◌, ◌++◌, any, drop, length, String, ◌+◌,
}
use gotth_scim.Failure.{
  Result, ok, err, fault, exhausted, precondition, protocol, ◌>>=◌, ◌>>◌, refuse,
}

pub record EntityTag : Type 0 where
  pub opaque : Str
  pub weak : Bool

pub record EntityTags : Type 0 where
  pub star : Bool
  pub tags : List EntityTag

is_blank : ℕ → Bool
is_blank c = c == 32 || c == 9

skip_blank : Str → Str
unfolding is_blank
skip_blank [] = []
skip_blank (c ∷ s) = if is_blank c then skip_blank s else c ∷ s

skip_separators : Str → Str
unfolding is_blank
skip_separators [] = []
skip_separators (c ∷ s) = if is_blank c || c == 44 then skip_separators s else c ∷ s

-- strings.Trim(raw, " \t")
trim_blank : Str → Str
trim_blank s = reverse (skip_blank (reverse (skip_blank s)))

-- A character that no entity tag holds.
unfoldable pub is_invalid : ℕ → Bool
is_invalid c = not (c == 33) && (ltb c 35 || ltb 126 c) && ltb c 128

open_quote : Str → Result Str
open_quote [] = err fault
open_quote (c ∷ s) = if c == 34 then ok s else err fault

-- Up to the closing quote, and what follows it.
read_opaque : Str → Result (Str × Str)
unfolding is_invalid
read_opaque [] = err fault
read_opaque (c ∷ s) =
    let rest = (do (opaque, after) ← read_opaque s; ok (c ∷ opaque, after)) in
    if c == 34 then ok ([], s) else if is_invalid c then err fault else rest

separated : Str → Result Str
separated [] = ok []
separated (c ∷ s) = if c == 44 then ok (c ∷ s) else err fault

read_tag : Str → Result (EntityTag × Str)
unfolding open_quote read_opaque separated skip_blank
read_tag s = do
  let weak = has_prefix (bytes "W/") s
  body ← open_quote (if weak then drop 2 s else s)
  (opaque, after) ← read_opaque body
  rest ← separated (skip_blank after)
  ok (record { opaque = opaque; weak = weak }, rest)

-- The loop over the header, on fuel.
read_tags : ℕ → Str → List EntityTag → Result (List EntityTag)
read_tags zero s tags = err exhausted
read_tags (suc fuel) s tags = elim (skip_separators s) [
  | [] ↦ ok tags
  | c ∷ rest ↦ do (tag, after) ← read_tag (c ∷ rest); read_tags fuel after (tags ++ (tag ∷ []))
]

require_tags : List EntityTag → Result EntityTags
require_tags [] = err fault
require_tags (t ∷ ts) = ok (record { star = false; tags = t ∷ ts })

pub parse_entity_tags : Str → Result EntityTags
unfolding require_tags
parse_entity_tags raw =
    let value = trim_blank raw in
    if str_eq value (bytes "*")
    then ok (record { star = true; tags = [] })
    else if str_eq value []
    then err fault
    else do tags ← read_tags (length value + 1) value []; require_tags tags

-- One strong tag, or an error.
only_strong : EntityTags → Result Str
only_strong record_ = elim record_.tags [
  | [] ↦ err fault
  | t ∷ more ↦ elim more [
    | [] ↦ if record_.star || t.weak then err fault else ok t.opaque
    | _ ∷ _ ↦ err fault
  ]
]

pub parse_single_strong_tag : Str → Result Str
unfolding only_strong
parse_single_strong_tag current = do parsed ← parse_entity_tags current; only_strong parsed

matches_strong : Str → EntityTag → Bool
matches_strong current t = not t.weak && str_eq t.opaque current

matches_weak : Str → EntityTag → Bool
matches_weak current t = str_eq t.opaque current

unfoldable pub if_match : Str → Str → Bool → Result Bool
unfolding matches_strong
if_match header current exists = if str_eq header [] then ok true else do
  candidates ← parse_entity_tags header
  if not exists then ok false else do
    current_tag ← parse_single_strong_tag current
    ok (candidates.star || any (matches_strong current_tag) candidates.tags)

unfoldable pub if_none_match : Str → Str → Bool → Result Bool
unfolding matches_weak
if_none_match header current exists = if str_eq header [] || not exists then ok true else do
  candidates ← parse_entity_tags header
  current_tag ← parse_single_strong_tag current
  ok (not (candidates.star || any (matches_weak current_tag) candidates.tags))

malformed : Str → Result Bool → Result Bool
malformed detail (ok b) = ok b
malformed detail (err _) = err (protocol 400 (bytes "invalidValue") detail)

-- `evaluateWritePreconditions`, the function, on the version of the current record.
evaluate_strong : Str → Str → Str → Result (Unit {0})
unfolding malformed
evaluate_strong if_match_header if_none_match_header version = do
  allowed ← malformed (bytes "If-Match is malformed") (if_match if_match_header version true)
  refuse (not allowed) precondition
  absent ←
      malformed (bytes "If-None-Match is malformed")
        (if_none_match if_none_match_header version true)
  refuse (not absent) precondition

or_malformed : Result EntityTags → Result EntityTags
or_malformed (ok t) = ok t
or_malformed (err _) = err (protocol 400 (bytes "invalidValue") (bytes "If-Match is malformed"))

-- `evaluateWritePreconditions`, the method of the server.
unfoldable pub evaluate_write_preconditions : Bool → Str → Str → Str → Result (Unit {0})
unfolding evaluate_strong matches_weak or_malformed
evaluate_write_preconditions weak_etags if_match_header if_none_match_header version =
    if weak_etags && not (str_eq if_match_header [])
    then (do
      candidates ← or_malformed (parse_entity_tags if_match_header)
      current_tag ← parse_single_strong_tag version
      refuse (not (candidates.star || any (matches_weak current_tag) candidates.tags)) precondition
      evaluate_strong [] if_none_match_header version)
    else evaluate_strong if_match_header if_none_match_header version

pub entity_tag : Bool → Str → Str
entity_tag weak_etags strong = if weak_etags then bytes "W/" ++ strong else strong
