-- ===== src/Etag/Conditions.antt =====
-- What `IfMatch`, `IfNoneMatch` and the write preconditions decide of headers that list tags, where the
-- resource's version is one strong tag.
use gotth_scim.Base.{
  Bool, true, false, ◌&&◌, ◌||◌, not, if◌then◌else◌, Str, bytes, str_eq, List, [], ◌∷◌, any, ◌≡◌,
  refl, arith, All, All_imp, not_any_of_All,
}
use gotth_scim.Failure.{ok, err, precondition, refuse, ◌>>◌}
use gotth_scim.Etag.{
  EntityTag, matches_strong, matches_weak, if_match, if_none_match, malformed, evaluate_strong,
  evaluate_write_preconditions, entity_tag,
}
use gotth_scim.Etag.Render.{
  IsOpaque, AreOpaque, render, render_rest, strong, quoted-ne-nil, parse_entity_tags-render,
  parse_single_strong_tag-strong,
}

refused_twice :
    (a b : Bool)
    → (refuse (not a) precondition >> refuse b precondition)
      ≡ (if a && not b then ok tt else err precondition)
refused_twice true true = refl
refused_twice true false = refl
refused_twice false b = refl

not-not : (b : Bool) → not (not b) ≡ b
not-not true = refl
not-not false = refl

module _ (t : EntityTag) (ts : List EntityTag) (v : Str) (h : AreOpaque (t ∷ ts))
    (k : IsOpaque v) where
  -- If-Match admits a write exactly when a strong tag of the list has the text of the version; a
  -- weak tag never does.
  pub if_match-render :
      if_match (render (t ∷ ts)) (strong v) true
      ≡ ok (any (λ g. not g.weak && str_eq g.opaque v) (t ∷ ts))
  unfolding if_match matches_strong
  if_match-render = rw (
    quoted-ne-nil t.weak t.opaque (render_rest ts),
    parse_entity_tags-render t ts h,
    parse_single_strong_tag-strong v k,
  )

  -- If-None-Match lets a request proceed exactly when no tag of the list, weak or strong, has the
  -- text of the version.
  pub if_none_match-render :
      if_none_match (render (t ∷ ts)) (strong v) true
      ≡ ok (not (any (λ g. str_eq g.opaque v) (t ∷ ts)))
  unfolding if_none_match matches_weak
  if_none_match-render = rw (
    quoted-ne-nil t.weak t.opaque (render_rest ts),
    parse_entity_tags-render t ts h,
    parse_single_strong_tag-strong v k,
  )

-- What a header that lists tags, or is absent, lets through.
abbrev pub allows : Bool → List EntityTag → Str → Bool
allows weak_etags [] v = true
allows weak_etags (t ∷ ts) v = any (λ g. (weak_etags || not g.weak) && str_eq g.opaque v) (t ∷ ts)

module _ (v : Str) (k : IsOpaque v) where
  if_match-allows :
      (ts : List EntityTag)
      → AreOpaque ts
      → if_match (render ts) (strong v) true ≡ ok (allows false ts v)
  unfolding if_match str_eq
  if_match-allows [] h = refl
  if_match-allows (t ∷ ts) h = if_match-render t ts v h k

  if_none_match-lists :
      (us : List EntityTag)
      → AreOpaque us
      → if_none_match (render us) (strong v) true ≡ ok (not (any (λ g. str_eq g.opaque v) us))
  unfolding if_none_match str_eq
  if_none_match-lists [] h = refl
  if_none_match-lists (t ∷ us) h = if_none_match-render t us v h k

  evaluate_strong-render :
      (ts us : List EntityTag)
      → AreOpaque ts
      → AreOpaque us
      → evaluate_strong (render ts) (render us) (strong v) ≡ (
          refuse (not (allows false ts v)) precondition
          >> refuse (any (λ g. str_eq g.opaque v) us) precondition)
  unfolding evaluate_strong malformed
  evaluate_strong-render ts us h g =
      rw (if_match-allows ts h, if_none_match-lists us g, not-not (any (λ g. str_eq g.opaque v) us))

  -- The precondition of a write on two headers that each list tags or are absent, in both modes. If-Match
  -- admits the write if it is absent or a tag of it has the text of the version: a strong tag by default, any
  -- tag where the server is configured for weak ones. If-None-Match refuses it if any tag of it, weak or
  -- strong, has the text of the version. Both refusals are the failed precondition.
  pub evaluate_write_preconditions-render :
      (weak_etags : Bool) (ts us : List EntityTag)
      → AreOpaque ts
      → AreOpaque us
      → evaluate_write_preconditions weak_etags (render ts) (render us) (strong v) ≡ (
          if allows weak_etags ts v && not (any (λ g. str_eq g.opaque v) us)
          then ok tt
          else err precondition)
  unfolding evaluate_write_preconditions str_eq matches_weak
  evaluate_write_preconditions-render true [] us h g =
      rw (evaluate_strong-render [] us h g) (refused_twice true _)
  evaluate_write_preconditions-render true (t ∷ ts) us h g =
      rw
        (
          quoted-ne-nil t.weak t.opaque (render_rest ts),
          parse_entity_tags-render t ts h,
          parse_single_strong_tag-strong v k,
          evaluate_strong-render [] us tt g,
        )
        (refused_twice (allows true (t ∷ ts) v) _)
  evaluate_write_preconditions-render false ts us h g =
      rw (evaluate_strong-render ts us h g) (refused_twice (allows false ts v) _)

-- Optimistic concurrency, in both modes: a client that sends back the tag that the server gave it for
-- the text `w` may write a resource whose version is the text `v` exactly when the two are equal;
-- otherwise the precondition fails.
pub evaluate_write_preconditions-entity_tag :
    (weak_etags : Bool) (w v : Str)
    → IsOpaque w
    → IsOpaque v
    → evaluate_write_preconditions weak_etags (entity_tag weak_etags (strong w)) [] (strong v)
      ≡ (if str_eq w v then ok tt else err precondition)
unfolding entity_tag bytes
evaluate_write_preconditions-entity_tag true w v h k =
    rw
      (evaluate_write_preconditions-render v k true (record { opaque = w; weak = true } ∷ []) []
        (h, tt) tt)
      (ground arith)
evaluate_write_preconditions-entity_tag false w v h k =
    rw
      (evaluate_write_preconditions-render v k false (record { opaque = w; weak = false } ∷ []) []
        (h, tt) tt)
      (ground arith)

-- With strong tags required, a list of weak tags admits no write, whatever the version.
pub if_match-weak :
    (t : EntityTag) (ts : List EntityTag) (v : Str)
    → AreOpaque (t ∷ ts)
    → IsOpaque v
    → All (λ g. g.weak ≡ true) (t ∷ ts)
    → evaluate_write_preconditions false (render (t ∷ ts)) [] (strong v) ≡ err precondition
if_match-weak t ts v h k all_weak = rw (
  evaluate_write_preconditions-render v k false (t ∷ ts) [] h tt,
  not_any_of_All (λ g. (false || not g.weak) && str_eq g.opaque v) (t ∷ ts)
      (All_imp (λ g weak. rw weak refl) (t ∷ ts) all_weak),
)
