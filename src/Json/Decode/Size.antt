-- ===== src/Json/Decode/Size.antt =====
-- How many values a decoded value holds, and how the loops of the decoder change that.
use gotth_scim.Base.{
  Bool-cases, inl, inr, str_eq, ℕ, suc, ◌+◌, ◌≤◌, ◌<◌, false, Str, insert, Option, none, some, List,
  [], ◌∷◌, ◌++◌, Unicode, ◌≡◌, refl, arith,
}
use gotth_scim.Json.{Value, arr, obj, Items, nil, cons, Fields, end, field, Object, fields, items}
use gotth_scim.Json.Decode.{
  Scalar, nothing, truth, number, scalar_value, is_out_of_bounds, maximum_nodes, maximum_depth,
  is_present,
}

-- Values counted, containers and their contents alike.
unfoldable mutual
  pub size : Value → ℕ
  size (arr vs) = suc (size_items vs)
  size (obj fs) = suc (size_fields fs)
  size _ = 1

  pub size_items : Items → ℕ
  size_items nil = 0
  size_items (cons v vs) = size v + size_items vs

  pub size_fields : Fields → ℕ
  size_fields end = 0
  size_fields (field k v fs) = size v + size_fields fs

pub size-insert :
    (k : Str) (v : Value) (m : Object)
    → size_fields (fields (insert k v m)) ≤ size_fields (fields m) + size v
unfolding size insert
size-insert k v [] = omega arith
size-insert k v ((j, w) ∷ m) = elim (Bool-cases (str_eq j k)) [
  | inl y ↦ rw y (omega arith)
  | inr n ↦ rw n (omega (arith, size-insert k v m))
]

pub size-append :
    (vs : List Value) (v : Value)
    → size_items (items (vs ++ (v ∷ []))) ≡ size_items (items vs) + size v
unfolding size
size-append [] v = omega arith
size-append (w ∷ vs) v = omega (arith, size-append vs v)

pub size-scalar : (s : Scalar) → size (scalar_value s) ≡ 1
unfolding size
size-scalar nothing = refl
size-scalar (truth b) = refl
size-scalar (number n) = refl

pub in_bounds :
    (u : Unicode) (depth nodes : ℕ)
    → is_out_of_bounds u depth nodes ≡ false
    → (depth ≤ maximum_depth) × (nodes < maximum_nodes)
in_bounds u depth nodes h = ground arith

pub not_present {ℓ} : (u : Unicode) {A : Type ℓ} (o : Option A) → is_present u o ≡ false → o ≡ none
not_present u none h = refl
not_present u (some a) h = cc
