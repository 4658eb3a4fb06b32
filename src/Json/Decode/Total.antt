-- ===== src/Json/Decode/Total.antt =====
-- `DecodeDocument`: it always ends, and what it admits.
use gotth_scim.Base.{
  ℕ, zero, suc, ◌+◌, ◌*◌, ◌≤◌, ◌<◌, ◌||◌, not, ltb, Str, str_eq, Map, lookup, Option, none, some,
  List, [], ◌∷◌, length, Unicode, ◌≡◌, arith,
}
use gotth_scim.Failure.{
  ok, fault, >>=-eq-ok, refuse-ok, Settles, Settles-bind, Settles-ok, Settles-fault, Settles-guard,
}
use gotth_scim.Json.{Value, null, str, obj, Object, entries, mk_obj, mk_arr, as_obj, fields-entries}
use gotth_scim.Json.Decode.Names.{IsSound}
use gotth_scim.Json.Decode.{
  Token, open_brace, close_brace, open_bracket, close_bracket, text, scalar, scalar_value, Codec,
  decode_value, decode_fields, decode_items, decode_document, is_out_of_bounds, maximum_nodes,
  is_present, as_document, is_end, maximum_resource_bytes,
}
use gotth_scim.Json.Decode.Size.{size}
use gotth_scim.Json.Decode.Sound.{decode_value-Decoded}

module _ (u : Unicode) where
  mutual
    unfolding decode_value

    decode_value-Settles :
        (fuel depth nodes : ℕ) (ts : List Token)
        → 2 * length ts < fuel
        → Settles (decode_value u fuel depth nodes ts)
    decode_value-Settles zero depth nodes ts h = elim h [ ]
    decode_value-Settles (suc fuel) depth nodes (open_brace ∷ ts) h =
        Settles-guard (is_out_of_bounds u depth nodes) _ (
          Settles-bind _ (λ x. ok (mk_obj x.0, x.1, x.2))
            (decode_fields-Settles fuel depth (nodes + 1) [] [] ts (omega arith))
            (λ p e. Settles-ok (mk_obj p.0, p.1, p.2)))
    decode_value-Settles (suc fuel) depth nodes (open_bracket ∷ ts) h =
        Settles-guard (is_out_of_bounds u depth nodes) _ (
          Settles-bind _ (λ x. ok (mk_arr x.0, x.1, x.2))
            (decode_items-Settles fuel depth (nodes + 1) [] ts (omega arith))
            (λ p e. Settles-ok (mk_arr p.0, p.1, p.2)))
    decode_value-Settles (suc fuel) depth nodes (text s ∷ ts) h =
        Settles-guard (is_out_of_bounds u depth nodes) (ok (str s, nodes + 1, ts)) (Settles-ok _)
    decode_value-Settles (suc fuel) depth nodes (scalar v ∷ ts) h =
        Settles-guard (is_out_of_bounds u depth nodes) (ok (scalar_value v, nodes + 1, ts))
          (Settles-ok _)
    decode_value-Settles (suc fuel) depth nodes [] h = Settles-fault
    decode_value-Settles (suc fuel) depth nodes _ h = Settles-fault

    decode_fields-Settles :
        (fuel depth nodes : ℕ) (seen : Map Str) (m : Object) (ts : List Token)
        → 2 * length ts + 1 < fuel
        → Settles (decode_fields u fuel depth nodes seen m ts)
    decode_fields-Settles zero depth nodes seen m ts h = absurd (omega arith)
    decode_fields-Settles (suc fuel) depth nodes seen m (close_brace ∷ ts) h =
        Settles-ok (m, nodes, ts)
    decode_fields-Settles (suc fuel) depth nodes seen m (text key ∷ ts) h =
        Settles-guard (str_eq key [] || not (u.valid_utf8 key)) _ (
          Settles-guard (is_present u (lookup (u.to_lower key) seen)) _ (
            Settles-bind (decode_value u fuel (depth + 1) nodes ts) _
              (decode_value-Settles fuel (depth + 1) nodes ts (omega arith))
              (λ p e.
                decode_fields-Settles fuel depth p.1 _ _ p.2
                  (omega (arith, (decode_value-Decoded u fuel (depth + 1) nodes ts e).shorter)))))
    decode_fields-Settles (suc fuel) depth nodes seen m [] h = Settles-fault
    decode_fields-Settles (suc fuel) depth nodes seen m _ h = Settles-fault

    decode_items-Settles :
        (fuel depth nodes : ℕ) (vs : List Value) (ts : List Token)
        → 2 * length ts + 1 < fuel
        → Settles (decode_items u fuel depth nodes vs ts)
    decode_items-Settles zero depth nodes vs ts h = elim h [ ]
    decode_items-Settles (suc fuel) depth nodes vs (close_bracket ∷ ts) h =
        Settles-ok (vs, nodes, ts)
    decode_items-Settles (suc fuel) depth nodes vs [] h = Settles-fault
    decode_items-Settles (suc fuel) depth nodes vs (close_brace ∷ ts) h = Settles-fault
    decode_items-Settles (suc fuel) depth nodes vs (token ∷ ts) h =
        Settles-bind (decode_value u fuel (depth + 1) nodes (token ∷ ts)) _
          (decode_value-Settles fuel (depth + 1) nodes (token ∷ ts) (omega arith))
          (λ p e.
            decode_items-Settles fuel depth p.1 _ p.2 (
              omega
                (arith, (decode_value-Decoded u fuel (depth + 1) nodes (token ∷ ts) e).shorter)))

  as_document-Settles : (o : Option Object) → Settles (as_document u o)
  as_document-Settles none = Settles-fault
  as_document-Settles (some m) = Settles-ok m

  module _ (c : Codec) where
    as_document-eq : (v : Value) (m : Object) → as_document u (as_obj v) ≡ ok m → v ≡ mk_obj m
    as_document-eq (obj fs) m e = let same : entries fs ≡ m = cc in rw (← same, fields-entries fs)
    as_document-eq null m e = cc
    as_document-eq _ m e = cc

    -- Decoding a document always ends: the loops never run out of fuel, whatever the tokens are.
    pub decode_document-Settles : (raw : Str) → Settles (decode_document u c raw)
    unfolding decode_document
    decode_document-Settles raw =
        let read =
          decode_value-Settles (2 * length (c.tokens raw) + 1) 0 0 (c.tokens raw) (omega arith) in
        Settles-guard _ _
          (Settles-bind _ _ read (λ p e. Settles-guard _ _ (as_document-Settles (as_obj p.0))))

    -- A document that is admitted has at most 10,000 values, none of them nested deeper than 64
    -- containers, and no object in it, the document included, has two names that are equal in lower
    -- case.
    pub decode_document-IsSound :
        (raw : Str) (m : Object)
        → decode_document u c raw ≡ ok m
        → (size (mk_obj m) ≤ maximum_nodes) × IsSound u 0 (mk_obj m)
    unfolding decode_document
    decode_document-IsSound raw m h =
        let ts = c.tokens raw in
        let (_, h1) =
          refuse-ok
            (str_eq raw [] || ltb maximum_resource_bytes (length raw) || not (u.valid_utf8 raw))
            fault _ h in
        let ((v, n, rest), e, h2) = >>=-eq-ok (decode_value u (2 * length ts + 1) 0 0 ts) _ h1 in
        let (_, h3) = refuse-ok (not (is_end u rest)) fault _ h2 in
        let d = decode_value-Decoded u (2 * length ts + 1) 0 0 ts e in
        let same : v ≡ mk_obj m = as_document-eq v m h3 in
        (rw (← same) (omega (arith, d.counted, d.bounded)), rw (← same) d.sound)
