-- ===== src/Etag/Render.antt =====
-- A list of entity tags as a client writes it, and `parseEntityTags` on it.
use mathlib.Core.List.{reverse, reverse-append, reverse-reverse, append-nil, append_assoc}
use gotth_scim.Base.{
  ℕ, zero, suc, ◌+◌, ◌≤◌, ◌<◌, Bool, true, false, ◌==◌, Str, bytes, str_eq, has_prefix, List, [],
  ◌∷◌, ◌++◌, length, ◌≡◌, refl, sym, ap, ◌∙◌, arith, All, length-append,
}
use gotth_scim.Failure.{ok}
use gotth_scim.Etag.{
  EntityTag, skip_blank, skip_separators, trim_blank, is_invalid, open_quote, read_opaque,
  separated, read_tag, read_tags, require_tags, parse_entity_tags, only_strong,
  parse_single_strong_tag,
}

-- The characters that the code admits between quotes.
abbrev pub IsOpaque : Str → Type 0
IsOpaque s = All (λ c. ((c == 34) ≡ false) × (is_invalid c ≡ false)) s

abbrev pub quoted : Bool → Str → Str → Str
quoted true o after = 87 ∷ 47 ∷ 34 ∷ (o ++ (34 ∷ after))
quoted false o after = 34 ∷ (o ++ (34 ∷ after))

abbrev pub render_rest : List EntityTag → Str
render_rest [] = []
render_rest (t ∷ ts) = 44 ∷ 32 ∷ quoted t.weak t.opaque (render_rest ts)

-- `"a", W/"b"`
abbrev pub render : List EntityTag → Str
render [] = []
render (t ∷ ts) = quoted t.weak t.opaque (render_rest ts)

read_opaque-append : (o after : Str) → IsOpaque o → read_opaque (o ++ (34 ∷ after)) ≡ ok (o, after)
unfolding read_opaque
read_opaque-append [] after h = refl
read_opaque-append (c ∷ o) after (h, hs) = rw (h.0, h.1, read_opaque-append o after hs)

IsEnd : Str → Type 0
IsEnd after = separated (skip_blank after) ≡ ok after

IsEnd-render_rest : (ts : List EntityTag) → IsEnd (render_rest ts)
unfolding IsEnd separated skip_blank
IsEnd-render_rest [] = refl
IsEnd-render_rest (t ∷ ts) = refl

read_tag-quoted :
    (w : Bool) (o after : Str)
    → IsOpaque o
    → IsEnd after
    → read_tag (quoted w o after) ≡ ok (record { opaque = o; weak = w }, after)
unfolding read_tag open_quote IsEnd has_prefix bytes
read_tag-quoted true o after h e = rw (read_opaque-append o after h, e)
read_tag-quoted false o after h e = rw (read_opaque-append o after h, e)

skip_separators-quoted :
    (w : Bool) (o after : Str) → skip_separators (quoted w o after) ≡ quoted w o after
unfolding skip_separators
skip_separators-quoted true o after = refl
skip_separators-quoted false o after = refl

read_tags-step :
    (fuel : ℕ) (w : Bool) (o after s : Str) (acc : List EntityTag)
    → IsOpaque o
    → IsEnd after
    → skip_separators s ≡ quoted w o after
    → read_tags (suc fuel) s acc
      ≡ read_tags fuel after (acc ++ (record { opaque = o; weak = w } ∷ []))
unfolding read_tags
read_tags-step fuel true o after s acc h k e = rw (e, read_tags, read_tag-quoted true o after h k)
read_tags-step fuel false o after s acc h k e = rw (e, read_tags, read_tag-quoted false o after h k)

abbrev pub AreOpaque : List EntityTag → Type 0
AreOpaque ts = All (λ t. IsOpaque t.opaque) ts

read_tags-render :
    (ts : List EntityTag) (fuel : ℕ) (s : Str) (acc : List EntityTag)
    → length ts < fuel
    → AreOpaque ts
    → skip_separators s ≡ render ts
    → read_tags fuel s acc ≡ ok (acc ++ ts)
read_tags-render ts zero s acc h v e = elim h [ ]
read_tags-render [] (suc fuel) s acc h v e = unfold read_tags in rw (e, read_tags) (rw append-nil)
read_tags-render (t ∷ ts) (suc fuel) s acc h (v, vs) e =
    read_tags-step fuel t.weak t.opaque (render_rest ts) s acc v (IsEnd-render_rest ts) e
    ∙ (read_tags-render ts fuel (render_rest ts) (acc ++ (t ∷ [])) (omega arith) vs (begins ts)
        ∙ ap ok (append_assoc acc (t ∷ []) ts))
  where
    begins : (us : List EntityTag) → skip_separators (render_rest us) ≡ render us
    begins [] = unfold skip_separators in refl
    begins (u ∷ us) =
        unfold skip_separators in skip_separators-quoted u.weak u.opaque (render_rest us)

-- The text ends in a quote.
abbrev EndsQuoted : Str → Type 0
EndsQuoted s = (p : Str) × (s ≡ p ++ (34 ∷ []))

EndsQuoted-quoted :
    (w : Bool) (o : Str) (ts : List EntityTag) → EndsQuoted (quoted w o (render_rest ts))
EndsQuoted-quoted true o [] = (87 ∷ 47 ∷ 34 ∷ o, refl)
EndsQuoted-quoted false o [] = (34 ∷ o, refl)
EndsQuoted-quoted true o (t ∷ ts) =
    let (p, e) = EndsQuoted-quoted t.weak t.opaque ts in
    (87 ∷ 47 ∷ 34 ∷ (o ++ (34 ∷ 44 ∷ 32 ∷ p)), rw (e, append_assoc))
EndsQuoted-quoted false o (t ∷ ts) =
    let (p, e) = EndsQuoted-quoted t.weak t.opaque ts in
    (34 ∷ (o ++ (34 ∷ 44 ∷ 32 ∷ p)), rw (e, append_assoc))

skip_blank-quoted : (w : Bool) (o after : Str) → skip_blank (quoted w o after) ≡ quoted w o after
unfolding skip_blank
skip_blank-quoted true o after = refl
skip_blank-quoted false o after = refl

skip_blank_end : (p : Str) → reverse (skip_blank (reverse (p ++ (34 ∷ [])))) ≡ p ++ (34 ∷ [])
unfolding skip_blank
skip_blank_end p =
    rw (reverse-append p (34 ∷ []))
      (ap reverse (sym (reverse-append p (34 ∷ []))) ∙ reverse-reverse (p ++ (34 ∷ [])))

trim_blank-quoted :
    (w : Bool) (o : Str) (ts : List EntityTag)
    → trim_blank (quoted w o (render_rest ts)) ≡ quoted w o (render_rest ts)
unfolding trim_blank
trim_blank-quoted w o ts =
    let (p, e) = EndsQuoted-quoted w o ts in
    ap (λ s. reverse (skip_blank (reverse s))) (skip_blank-quoted w o (render_rest ts) ∙ e)
    ∙ (skip_blank_end p ∙ sym e)

length-quoted : (w : Bool) (o after : Str) → suc (length after) ≤ length (quoted w o after)
length-quoted true o after = omega (arith, length-append o (34 ∷ after))
length-quoted false o after = omega (arith, length-append o (34 ∷ after))

length-render_rest : (ts : List EntityTag) → length ts ≤ length (render_rest ts)
length-render_rest [] = omega arith
length-render_rest (t ∷ ts) =
    omega (arith, length-quoted t.weak t.opaque (render_rest ts), length-render_rest ts)

quoted-ne-star : (w : Bool) (o after : Str) → str_eq (quoted w o after) (bytes "*") ≡ false
unfolding str_eq bytes
quoted-ne-star true o after = refl
quoted-ne-star false o after = refl

pub quoted-ne-nil : (w : Bool) (o after : Str) → str_eq (quoted w o after) [] ≡ false
unfolding str_eq
quoted-ne-nil true o after = refl
quoted-ne-nil false o after = refl

-- A header that lists entity tags, separated by a comma and a space, reads back as those tags, weak
-- and strong as they were written and in their order, where their text holds only the characters
-- that the code admits.
pub parse_entity_tags-render :
    (t : EntityTag) (ts : List EntityTag)
    → AreOpaque (t ∷ ts)
    → parse_entity_tags (render (t ∷ ts)) ≡ ok (record { star = false; tags = t ∷ ts })
unfolding parse_entity_tags require_tags
parse_entity_tags-render t ts h =
    let text = quoted t.weak t.opaque (render_rest ts) in
    let enough : length (t ∷ ts) < length text + 1 =
      omega (arith, length-quoted t.weak t.opaque (render_rest ts), length-render_rest ts) in
    rw (
      trim_blank-quoted t.weak t.opaque ts,
      quoted-ne-star t.weak t.opaque (render_rest ts),
      quoted-ne-nil t.weak t.opaque (render_rest ts),
      read_tags-render (t ∷ ts) (length text + 1) text [] enough h
          (skip_separators-quoted t.weak t.opaque (render_rest ts)),
    )

-- `"v"`: the shape of every version that the program computes.
abbrev pub strong : Str → Str
strong v = quoted false v []

pub parse_single_strong_tag-strong :
    (v : Str) → IsOpaque v → parse_single_strong_tag (strong v) ≡ ok v
unfolding parse_single_strong_tag only_strong
parse_single_strong_tag-strong v h =
    rw (parse_entity_tags-render (record { opaque = v; weak = false }) [] (h, tt))
