-- ===== src/Schema/Names.antt =====
-- Resource type names and ids hold no zero byte.
use gotth_scim.Base.{true, false, Str, has_byte, [], ◌∷◌, all, Unicode, ◌≡◌, arith, refl, and-parts}
use gotth_scim.Schema.{valid_name, valid_resource_id, is_name_character}

no_zero : (s : Str) → all is_name_character s ≡ true → has_byte 0 s ≡ false
unfolding has_byte is_name_character
no_zero [] h = refl
no_zero (c ∷ s) h =
    let (a, b) = and-parts (is_name_character c) (all is_name_character s) h in
    ground (arith, no_zero s b)

pub valid_name-no_zero : (s : Str) → valid_name s ≡ true → has_byte 0 s ≡ false
unfolding valid_name has_byte
valid_name-no_zero [] h = refl
valid_name-no_zero (c ∷ s) h = ground (arith, no_zero s)

pub valid_resource_id-no_zero :
    (u : Unicode) (s : Str) → valid_resource_id u s ≡ true → has_byte 0 s ≡ false
unfolding valid_resource_id
valid_resource_id-no_zero u s h = ground (arith, u.zero_is_control s)
