-- ===== src/Etag/Examples.antt =====
-- The theorems on entity tags at the tags `"1"` and `W/"2"`.
use gotth_scim.Base.{true, false, Str, str_eq, [], ◌∷◌, refl, ◌≡◌}
use gotth_scim.Failure.{ok, err, precondition}
use gotth_scim.Etag.{
  EntityTag, is_invalid, parse_entity_tags, if_match, if_none_match, evaluate_write_preconditions,
  entity_tag,
}
use gotth_scim.Etag.Render.{IsOpaque, AreOpaque, render, strong, parse_entity_tags-render}
use gotth_scim.Etag.Conditions.{
  if_match-render, if_none_match-render, evaluate_write_preconditions-render,
  evaluate_write_preconditions-entity_tag,
}

abbrev one : Str
one = 49 ∷ []

abbrev two : Str
two = 50 ∷ []

abbrev first : EntityTag
first = record { opaque = one; weak = false }

abbrev second : EntityTag
second = record { opaque = two; weak = true }

one-IsOpaque : IsOpaque one
unfolding is_invalid
one-IsOpaque = ((refl, refl), tt)

two-IsOpaque : IsOpaque two
unfolding is_invalid
two-IsOpaque = ((refl, refl), tt)

both-AreOpaque : AreOpaque (first ∷ second ∷ [])
both-AreOpaque = (one-IsOpaque, (two-IsOpaque, tt))

parse_entity_tags-render_example :
    parse_entity_tags (render (first ∷ second ∷ []))
    ≡ ok (record { star = false; tags = first ∷ second ∷ [] })
parse_entity_tags-render_example = parse_entity_tags-render first (second ∷ []) both-AreOpaque

if_match-render_example : if_match (render (first ∷ second ∷ [])) (strong one) true ≡ ok true
unfolding str_eq
if_match-render_example = if_match-render first (second ∷ []) one both-AreOpaque one-IsOpaque

if_none_match-render_example :
    if_none_match (render (first ∷ second ∷ [])) (strong two) true ≡ ok false
unfolding str_eq
if_none_match-render_example =
    if_none_match-render first (second ∷ []) two both-AreOpaque two-IsOpaque

evaluate_write_preconditions-render_example :
    evaluate_write_preconditions false
      (render (first ∷ second ∷ []))
      (render (second ∷ []))
      (strong one)
    ≡ ok tt
unfolding str_eq
evaluate_write_preconditions-render_example =
    evaluate_write_preconditions-render one one-IsOpaque false (first ∷ second ∷ []) (second ∷ [])
      both-AreOpaque (two-IsOpaque, tt)

evaluate_write_preconditions-entity_tag_example :
    evaluate_write_preconditions true (entity_tag true (strong one)) [] (strong two)
    ≡ err precondition
unfolding str_eq
evaluate_write_preconditions-entity_tag_example =
    evaluate_write_preconditions-entity_tag true one two one-IsOpaque two-IsOpaque
