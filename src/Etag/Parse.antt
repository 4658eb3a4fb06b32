-- ===== src/Etag/Parse.antt =====
-- `parseEntityTags`: the loop ends, and reading a printed list gives the list back.
use gotth_scim.Base.{
  ℕ, zero, suc, ◌+◌, ◌≤◌, ◌<◌, ◌==◌, if◌then◌else◌, Str, bytes, has_prefix, List, [], ◌∷◌, ◌++◌,
  drop, length, ◌≡◌, ap, arith, Bool-cases, inl, inr, List-cases,
}
use gotth_scim.Failure.{ok, >>=-eq-ok, Settles, Settles-bind, Settles-ok, settles_rules}
use gotth_scim.Etag.{
  EntityTag, skip_blank, skip_separators, trim_blank, is_invalid, open_quote, read_opaque,
  separated, read_tag, read_tags, require_tags, parse_entity_tags,
}

skip_blank-le : (s : Str) → length (skip_blank s) ≤ length s
unfolding skip_blank
skip_blank-le [] = omega arith
skip_blank-le (c ∷ s) = ground (arith, skip_blank-le s)

skip_separators-le : (s : Str) → length (skip_separators s) ≤ length s
unfolding skip_separators
skip_separators-le [] = omega arith
skip_separators-le (c ∷ s) = ground (arith, skip_separators-le s)

read_opaque-lt : (s : Str) {o after : Str} → read_opaque s ≡ ok (o, after) → length after < length s
unfolding read_opaque
read_opaque-lt [] h = cc
read_opaque-lt (c ∷ s) {o} {after} h = elim (Bool-cases (c == 34)) [
  | inl q ↦ ground arith
  | inr q ↦ elim (Bool-cases (is_invalid c)) [
    | inl bad ↦ absurd (ground arith)
    | inr fine ↦
        let ((o', after'), e, r) = >>=-eq-ok (read_opaque s) _ (rw (q, fine) at h) in
        let step : length after' < length s = read_opaque-lt s e in ground arith
  ]
]

length-drop-le {ℓ} : {A : Type ℓ} (n : ℕ) (xs : List A) → length (drop n xs) ≤ length xs
length-drop-le zero xs = omega arith
length-drop-le (suc n) [] = omega arith
length-drop-le (suc n) (x ∷ xs) = omega (arith, length-drop-le n xs)

open_quote-lt : (s : Str) {body : Str} → open_quote s ≡ ok body → length body < length s
unfolding open_quote
open_quote-lt [] h = cc
open_quote-lt (c ∷ s) h = ground arith

separated-eq : (s : Str) {rest : Str} → separated s ≡ ok rest → rest ≡ s
unfolding separated
separated-eq [] h = ground arith
separated-eq (c ∷ s) h = ground arith

read_tag-lt :
    (s : Str) {t : EntityTag} {rest : Str} → read_tag s ≡ ok (t, rest) → length rest < length s
unfolding read_tag
read_tag-lt s {t} {rest} h =
    let start = if has_prefix (bytes "W/") s then drop 2 s else s in
    let (body, e1, h1) = >>=-eq-ok (open_quote start) _ h in
    let ((opaque, after), e2, h2) = >>=-eq-ok (read_opaque body) _ h1 in
    let (last, e3, h3) = >>=-eq-ok (separated (skip_blank after)) _ h2 in
    let same : last ≡ rest = ground arith in
    let size : length last ≡ length (skip_blank after) = ap length (separated-eq _ e3) in
    let begins : length start ≤ length s = ground (arith, length-drop-le 2 s) in
    ground (
      arith,
      begins,
      size,
      ap length same,
      open_quote-lt start e1,
      read_opaque-lt body e2,
      skip_blank-le after,
    )

open_quote-Settles : (s : Str) → Settles (open_quote s)
unfolding open_quote
open_quote-Settles [] = search settles_rules
open_quote-Settles (c ∷ s) = search settles_rules

separated-Settles : (s : Str) → Settles (separated s)
unfolding separated
separated-Settles [] = search settles_rules
separated-Settles (c ∷ s) = search settles_rules

require_tags-Settles : (ts : List EntityTag) → Settles (require_tags ts)
unfolding require_tags
require_tags-Settles [] = search settles_rules
require_tags-Settles (t ∷ ts) = search settles_rules

read_opaque-Settles : (s : Str) → Settles (read_opaque s)
unfolding read_opaque
read_opaque-Settles [] = search settles_rules
read_opaque-Settles (c ∷ s) = let ih = read_opaque-Settles s in search (settles_rules, ih)

read_tag-Settles : (s : Str) → Settles (read_tag s)
unfolding read_tag
read_tag-Settles s =
    search (settles_rules, open_quote-Settles, read_opaque-Settles, separated-Settles)

read_tags-Settles :
    (fuel : ℕ) (s : Str) (tags : List EntityTag) → length s < fuel → Settles (read_tags fuel s tags)
unfolding read_tags
read_tags-Settles zero s tags h = elim h [ ]
read_tags-Settles (suc fuel) s tags h = elim (List-cases (skip_separators s)) [
  | inl e ↦ rw (e, read_tags) (Settles-ok tags)
  | inr (c, rest, e) ↦
      rw (e, read_tags)
        (Settles-bind (read_tag (c ∷ rest)) _ (read_tag-Settles (c ∷ rest)) (λ p q.
          read_tags-Settles fuel p.1 (tags ++ (p.0 ∷ []))
            (omega (arith, read_tag-lt (c ∷ rest) q, ap length e, skip_separators-le s))))
]

-- Reading an entity-tag header always ends: with as many rounds as the header has bytes, and one
-- more, the loop never runs out of fuel.
pub parse_entity_tags-Settles : (raw : Str) → Settles (parse_entity_tags raw)
unfolding parse_entity_tags
parse_entity_tags-Settles raw =
    let tags_read =
      read_tags-Settles (length (trim_blank raw) + 1) (trim_blank raw) [] (omega arith) in
    search (settles_rules, tags_read, require_tags-Settles)
