-- ===== src/Samples.antt =====
-- Concrete functions for what the program takes from its libraries, on ASCII text, and sample data of
-- pkg/scim/store.go and pkg/scim/filter_expression.go.
use gotth_scim.Base.{
  ℕ, ◌+◌, Bool, true, false, ◌&&◌, ◌||◌, ltb, leb, ◌==◌, if◌then◌else◌, Str, str_eq, str_eq_refl,
  eq_of_str_eq, has_byte, compare_bytes, some, [], ◌∷◌, map, Unicode, ◌≡◌, arith,
}
use gotth_scim.Json.Decode.{
  Codec, open_brace, close_brace, open_bracket, close_bracket, text, scalar, number,
}
use gotth_scim.Json.{Object, arr, cons, nil, num}
use gotth_scim.Store.{Record, Tombstone, State}
use gotth_scim.Filter.{Literals}

unfoldable pub lower_byte : ℕ → ℕ
lower_byte c = if leb 65 c && leb c 90 then c + 32 else c

unfoldable pub lower : Str → Str
unfolding lower_byte
lower s = map lower_byte s

unfoldable pub same_letters : Str → Str → Bool
unfolding lower str_eq
same_letters s t = str_eq (lower s) (lower t)

unfoldable pub holds_control : Str → Bool
holds_control [] = false
holds_control (c ∷ s) = ltb c 32 || holds_control s

unfoldable pub is_ascii : Str → Bool
is_ascii [] = true
is_ascii (c ∷ s) = ltb c 128 && is_ascii s

unfoldable pub trim_left : Str → Str
trim_left [] = []
trim_left (c ∷ s) = let rest = trim_left s in if c == 32 then rest else c ∷ s

unfoldable pub trim_right : Str → Str
trim_right [] = []
trim_right (c ∷ s) = let rest = trim_right s in if c == 32 && str_eq rest [] then [] else c ∷ rest

pub same_letters_refl : (s : Str) → same_letters s s ≡ true
unfolding same_letters
same_letters_refl s = str_eq_refl (lower s)

pub same_letters_sym : (s t : Str) → same_letters s t ≡ true → same_letters t s ≡ true
unfolding same_letters
same_letters_sym s t h = rw (eq_of_str_eq (lower s) (lower t) h) (str_eq_refl (lower t))

pub same_letters_trans :
    (s t u : Str) → same_letters s t ≡ true → same_letters t u ≡ true → same_letters s u ≡ true
unfolding same_letters
same_letters_trans s t u h k = rw (eq_of_str_eq (lower s) (lower t) h) k

pub zero_controls : (s : Str) → has_byte 0 s ≡ true → holds_control s ≡ true
unfolding has_byte holds_control
zero_controls [] h = cc
zero_controls (c ∷ s) h = ground (arith, zero_controls s)

abbrev pub ascii : Unicode
ascii = record {
  to_lower = lower;
  equal_fold = same_letters;
  fold = lower;
  valid_utf8 = is_ascii;
  has_control = holds_control;
  trim_space = λ s. trim_left (trim_right s);
  equal_fold_refl = same_letters_refl;
  equal_fold_sym = same_letters_sym;
  equal_fold_trans = same_letters_trans;
  zero_is_control = zero_controls;
}

-- Every text stands for the empty object, and a digest is the text itself.
abbrev pub codec : Codec
codec = record {
  tokens = λ s. open_brace ∷ close_brace ∷ [];
  marshal = λ v. some (123 ∷ 125 ∷ []);
  digest = λ s. s;
  marshal_version = λ resource_type id content credential_version. some id;
}

abbrev pub literals : Literals
literals = record {
  parse_string = λ s. some s;
  is_number = λ s. true;
  is_time = λ s. true;
  is_rational = λ s. true;
  is_integer = λ s. true;
  compare_times = λ s t. some (compare_bytes s t);
  compare_numbers = λ s t. some (compare_bytes s t);
}

-- A user with the id `1` in the scope `s`.
abbrev pub user : Record
user = record {
  scope = 115 ∷ [];
  resource_type = 85 ∷ [];
  id = 49 ∷ [];
  external_id = [];
  manager = 109 ∷ [];
  version = 34 ∷ 49 ∷ 34 ∷ [];
  credential_version = [];
  created = 1;
  last_modified = 1;
  content = 123 ∷ 125 ∷ [];
  indexes = [];
}

abbrev pub burial : Tombstone
burial = record {
  scope = 115 ∷ [];
  resource_type = 85 ∷ [];
  id = 49 ∷ [];
  external_id = [];
  manager = 109 ∷ [];
  version = 34 ∷ 49 ∷ 34 ∷ [];
  deleted_at = 2;
}

abbrev pub stored : State
stored = record { records = ((85 ∷ 0 ∷ 49 ∷ []), user) ∷ []; tombstones = [] }

abbrev pub buried : State
buried = record { records = []; tombstones = ((85 ∷ 0 ∷ 49 ∷ []), burial) ∷ [] }

-- A second user, with the id `2`.
abbrev pub other : Record
other = record user { id = 50 ∷ []; version = 34 ∷ 50 ∷ 34 ∷ [] }

abbrev pub both : State
both = record {
  records = ((85 ∷ 0 ∷ 49 ∷ []), user) ∷ ((85 ∷ 0 ∷ 50 ∷ []), other) ∷ [];
  tombstones = [];
}

-- As above, but every text stands for `{"a":[1]}`.
abbrev pub nested_codec : Codec
nested_codec = record codec {
  tokens = λ s.
      open_brace
      ∷ text (97 ∷ [])
      ∷ open_bracket
      ∷ scalar (number (49 ∷ []))
      ∷ close_bracket
      ∷ close_brace
      ∷ [];
}

-- `{"a":[1]}`
abbrev pub nested : Object
nested = ((97 ∷ []), arr (cons (num (49 ∷ [])) nil)) ∷ []
