-- ===== src/Store/Memory/Keys.antt =====
-- The store's keys: a resource type and an id, joined by a zero byte, determine both.
use gotth_scim.Base.{true, false, ◌==◌, Str, has_byte, [], ◌∷◌, ◌++◌, ◌≡◌, arith, refl, or-eq-false}
use gotth_scim.Store.{record_key}

has_byte-append : (s t : Str) → has_byte 0 (s ++ (0 ∷ t)) ≡ true
unfolding has_byte
has_byte-append [] t = refl
has_byte-append (c ∷ s) t = ground (arith, has_byte-append s t)

pub record_key_injective :
    (t1 i1 t2 i2 : Str)
    → has_byte 0 t1 ≡ false
    → has_byte 0 i1 ≡ false
    → record_key t1 i1 ≡ record_key t2 i2
    → (t1 ≡ t2) × (i1 ≡ i2)
unfolding has_byte
record_key_injective [] i1 [] i2 h k e = (refl, cc)
record_key_injective [] i1 (c ∷ t2) i2 h k e =
    let tail : i1 ≡ t2 ++ (0 ∷ i2) = cc in absurd (ground (arith, has_byte-append t2 i2))
record_key_injective (c ∷ t1) i1 [] i2 h k e = let zero_head : c ≡ 0 = cc in absurd (ground arith)
record_key_injective (c ∷ t1) i1 (d ∷ t2) i2 h k e =
    let tail : record_key t1 i1 ≡ record_key t2 i2 = cc in
    let (same_type, same_id) =
      record_key_injective t1 i1 t2 i2 (or-eq-false (c == 0) (has_byte 0 t1) h).1 k tail in
    (cc, same_id)
