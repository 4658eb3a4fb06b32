-- ===== src/Json/Decode/Sound.antt =====
-- What the decoder has read when it succeeds: it consumed input, kept its counter within bounds, and
-- built a value that is sound at its depth.
use gotth_scim.Base.{
  ℕ, zero, suc, ◌+◌, ◌≤◌, ◌<◌, false, ◌||◌, not, Str, str_eq, Map, lookup, List, [], ◌∷◌, ◌++◌,
  length, Unicode, ◌≡◌, refl, arith, All, All-insert, All-append,
}
use gotth_scim.Failure.{Result, ok, fault, >>=-eq-ok, refuse-ok}
use gotth_scim.Json.{Value, str, Object, fields, items}
use gotth_scim.Json.Decode.Names.{
  CaseDistinct, IsSound, IsSound-obj, IsSound-arr, IsSound-scalar, IsSound-str, to_lower-canonical,
  Distinguishes, Distinguishes-insert,
}
use gotth_scim.Json.Decode.{
  Token, open_brace, close_brace, open_bracket, close_bracket, text, scalar, scalar_value,
  decode_value, decode_fields, decode_items, is_out_of_bounds, canonical, core_key_cases,
  maximum_nodes, is_present,
}
use gotth_scim.Json.Decode.Size.{
  size, size_items, size_fields, size-insert, size-append, size-scalar, in_bounds, not_present,
}

module _ (u : Unicode) where
  -- What a successful call of the decoder at a depth has read.
  pub record Decoded (depth nodes : ℕ) (ts : List Token) (v : Value) (n : ℕ) (rest : List Token)
      : Type 0 where
    pub shorter : length rest < length ts
    pub counted : nodes + size v ≤ n
    pub bounded : n ≤ maximum_nodes
    pub sound : IsSound u depth v

  pub record DecodedFields (depth nodes : ℕ) (m : Object) (ts : List Token) (m' : Object) (n : ℕ)
      (rest : List Token) : Type 0 where
    pub shorter : length rest < length ts
    pub counted : nodes + size_fields (fields m') ≤ n + size_fields (fields m)
    pub bounded : n ≤ maximum_nodes
    pub distinct : CaseDistinct u m'
    pub sound : All (λ p. IsSound u (depth + 1) p.1) m'

  pub record DecodedItems (depth nodes : ℕ) (vs : List Value) (ts : List Token) (vs' : List Value)
      (n : ℕ) (rest : List Token) : Type 0 where
    pub shorter : length rest < length ts
    pub counted : nodes + size_items (items vs') ≤ n + size_items (items vs)
    pub bounded : n ≤ maximum_nodes
    pub sound : All (IsSound u (depth + 1)) vs'

  module _ {depth nodes : ℕ} {ts : List Token} {n n0 : ℕ} {rest rest0 : List Token} where
    Decoded-return :
        {v v0 : Value}
        → Decoded depth nodes ts v0 n0 rest0
        → ◌≡◌ {A = Result (Value × ℕ × List Token)} (ok (v0, n0, rest0)) (ok (v, n, rest))
        → Decoded depth nodes ts v n rest
    Decoded-return {v} {v0} d e =
        let same_v : v ≡ v0 = cc in
        let same_n : n ≡ n0 = cc in
        let same_rest : rest ≡ rest0 = cc in rw (same_v, same_n, same_rest) d

    DecodedFields-return :
        {m m' m0 : Object}
        → DecodedFields depth nodes m ts m0 n0 rest0
        → ◌≡◌ {A = Result (Object × ℕ × List Token)} (ok (m0, n0, rest0)) (ok (m', n, rest))
        → DecodedFields depth nodes m ts m' n rest
    DecodedFields-return {m} {m'} {m0} d e =
        let same_m : m' ≡ m0 = cc in
        let same_n : n ≡ n0 = cc in
        let same_rest : rest ≡ rest0 = cc in rw (same_m, same_n, same_rest) d

    DecodedItems-return :
        {vs vs' vs0 : List Value}
        → DecodedItems depth nodes vs ts vs0 n0 rest0
        → ◌≡◌ {A = Result (List Value × ℕ × List Token)} (ok (vs0, n0, rest0)) (ok (vs', n, rest))
        → DecodedItems depth nodes vs ts vs' n rest
    DecodedItems-return {vs} {vs'} {vs0} d e =
        let same_vs : vs' ≡ vs0 = cc in
        let same_n : n ≡ n0 = cc in
        let same_rest : rest ≡ rest0 = cc in rw (same_vs, same_n, same_rest) d

  Decoded-leaf :
      (depth nodes : ℕ) (token : Token) (ts : List Token) (v : Value)
      → is_out_of_bounds u depth nodes ≡ false
      → size v ≡ 1
      → IsSound u depth v
      → Decoded depth nodes (token ∷ ts) v (nodes + 1) ts
  Decoded-leaf depth nodes token ts v fits one sound =
      let (depth_ok, nodes_ok) = in_bounds u depth nodes fits in
      record { shorter = omega arith; counted = omega arith; bounded = omega arith; sound = sound }

  mutual
    unfolding decode_value size

    pub decode_value-Decoded :
        (fuel depth nodes : ℕ) (ts : List Token) {v : Value} {n : ℕ} {rest : List Token}
        → decode_value u fuel depth nodes ts ≡ ok (v, n, rest)
        → Decoded depth nodes ts v n rest
    decode_value-Decoded zero depth nodes ts h = cc
    decode_value-Decoded (suc fuel) depth nodes (text s ∷ ts) {v} {n} {rest} h =
        let (fits, e) = refuse-ok (is_out_of_bounds u depth nodes) fault _ h in
        let (depth_ok, _) = in_bounds u depth nodes fits in
        Decoded-return
          (Decoded-leaf depth nodes (text s) ts (str s) fits refl (IsSound-str u depth s depth_ok))
          e
    decode_value-Decoded (suc fuel) depth nodes (scalar v ∷ ts) h =
        let (fits, e) = refuse-ok (is_out_of_bounds u depth nodes) fault _ h in
        let (depth_ok, _) = in_bounds u depth nodes fits in
        Decoded-return
          (Decoded-leaf depth nodes (scalar v) ts (scalar_value v) fits (size-scalar v)
            (IsSound-scalar u depth v depth_ok))
          e
    decode_value-Decoded (suc fuel) depth nodes (open_brace ∷ ts) h =
        let (fits, h1) = refuse-ok (is_out_of_bounds u depth nodes) fault _ h in
        let (depth_ok, nodes_ok) = in_bounds u depth nodes fits in
        let ((m, n', rest'), e, h2) =
          >>=-eq-ok (decode_fields u fuel depth (nodes + 1) [] [] ts) _ h1 in
        let ih =
          decode_fields-Decoded fuel depth (nodes + 1) [] [] ts (omega arith)
            (record { distinct = tt; unseen = λ k _. tt }) tt e in
        Decoded-return
          (record {
            shorter = omega (arith, ih.shorter);
            counted = omega (arith, ih.counted);
            bounded = ih.bounded;
            sound = IsSound-obj u depth m depth_ok ih.distinct ih.sound;
          })
          h2
    decode_value-Decoded (suc fuel) depth nodes (open_bracket ∷ ts) h =
        let (fits, h1) = refuse-ok (is_out_of_bounds u depth nodes) fault _ h in
        let (depth_ok, nodes_ok) = in_bounds u depth nodes fits in
        let ((vs, n', rest'), e, h2) =
          >>=-eq-ok (decode_items u fuel depth (nodes + 1) [] ts) _ h1 in
        let ih = decode_items-Decoded fuel depth (nodes + 1) [] ts (omega arith) tt e in
        Decoded-return
          (record {
            shorter = omega (arith, ih.shorter);
            counted = omega (arith, ih.counted);
            bounded = ih.bounded;
            sound = IsSound-arr u depth vs depth_ok ih.sound;
          })
          h2
    decode_value-Decoded (suc fuel) depth nodes [] h = cc
    decode_value-Decoded (suc fuel) depth nodes _ h = cc

    decode_fields-Decoded :
        (fuel depth nodes : ℕ) (seen : Map Str) (m : Object) (ts : List Token) {m' : Object} {n : ℕ}
        {rest : List Token}
        → nodes ≤ maximum_nodes
        → Distinguishes u seen m
        → All (λ p. IsSound u (depth + 1) p.1) m
        → decode_fields u fuel depth nodes seen m ts ≡ ok (m', n, rest)
        → DecodedFields depth nodes m ts m' n rest
    decode_fields-Decoded zero depth nodes seen m ts b d s h = cc
    decode_fields-Decoded (suc fuel) depth nodes seen m (close_brace ∷ ts) b d s h =
        DecodedFields-return
          (record {
            shorter = omega arith;
            counted = omega arith;
            bounded = b;
            distinct = d.distinct;
            sound = s;
          })
          h
    decode_fields-Decoded (suc fuel) depth nodes seen m (text key ∷ ts) b d s h =
        let (_, h1) = refuse-ok (str_eq key [] || not (u.valid_utf8 key)) fault _ h in
        let (new, h2) = refuse-ok (is_present u (lookup (u.to_lower key) seen)) fault _ h1 in
        let ((v, n', rest'), e, h3) = >>=-eq-ok (decode_value u fuel (depth + 1) nodes ts) _ h2 in
        let first = decode_value-Decoded fuel (depth + 1) nodes ts e in
        let name = canonical u (core_key_cases u) key in
        let rest =
          decode_fields-Decoded fuel depth n' _ _ rest' first.bounded
            (Distinguishes-insert u seen m key name v d (not_present u _ new)
              (to_lower-canonical u key))
            (All-insert (λ p. IsSound u (depth + 1) p.1) name v m first.sound s) h3 in
        record {
          shorter = omega (arith, rest.shorter, first.shorter);
          counted = omega (arith, rest.counted, first.counted, size-insert name v m);
          bounded = rest.bounded;
          distinct = rest.distinct;
          sound = rest.sound;
        }
    decode_fields-Decoded (suc fuel) depth nodes seen m [] b d s h = cc
    decode_fields-Decoded (suc fuel) depth nodes seen m _ b d s h = cc

    decode_items-Decoded :
        (fuel depth nodes : ℕ) (vs : List Value) (ts : List Token) {vs' : List Value} {n : ℕ}
        {rest : List Token}
        → nodes ≤ maximum_nodes
        → All (IsSound u (depth + 1)) vs
        → decode_items u fuel depth nodes vs ts ≡ ok (vs', n, rest)
        → DecodedItems depth nodes vs ts vs' n rest
    decode_items-Decoded zero depth nodes vs ts b s h = cc
    decode_items-Decoded (suc fuel) depth nodes vs (close_bracket ∷ ts) b s h =
        DecodedItems-return
          (record { shorter = omega arith; counted = omega arith; bounded = b; sound = s }) h
    decode_items-Decoded (suc fuel) depth nodes vs [] b s h = cc
    decode_items-Decoded (suc fuel) depth nodes vs (close_brace ∷ ts) b s h = cc
    decode_items-Decoded (suc fuel) depth nodes vs (token ∷ ts) b s h =
        let ((v, n', rest'), e, h3) =
          >>=-eq-ok (decode_value u fuel (depth + 1) nodes (token ∷ ts)) _ h in
        let first = decode_value-Decoded fuel (depth + 1) nodes (token ∷ ts) e in
        let rest =
          decode_items-Decoded fuel depth n' (vs ++ (v ∷ [])) rest' first.bounded
            (All-append (IsSound u (depth + 1)) vs (v ∷ []) s (first.sound, tt)) h3 in
        record {
          shorter = omega (arith, rest.shorter, first.shorter);
          counted = omega (arith, rest.counted, first.counted, size-append vs v);
          bounded = rest.bounded;
          sound = rest.sound;
        }
