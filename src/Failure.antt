-- ===== src/Failure.antt =====
-- Errors as values: pkg/scim/protocol_error.go, the error values of pkg/scim/store.go, and their
-- translation to responses in pkg/scim/server.go, pkg/scim/schemas.go and pkg/scim/bulk_execute.go.
-- `fault` stands for every error that `fmt.Errorf` makes and nothing inspects. `exhausted` is no error of
-- the program: it marks that the fuel of a loop ran out.
pub mod Response
mod Examples
use gotth_scim.Base.{◌⊎◌, inl, inr, ℕ, Bool, ◌≡◌, ◌≢◌, ap, if◌then◌else◌, Str}
use gotth_scim.Base.{true, false, refl}

pub data Failure : Type 0 where
  protocol : (status : ℕ) (scim_type detail : Str) → Failure
  not_found conflict precondition tombstoned too_many fault exhausted : Failure

pub data Result {ℓ} (A : Type ℓ) : Type ℓ where
  ok : A → Result A
  err : Failure → Result A

-- The code returns at the first error.
infixl 5 ◌>>=◌
abbrev pub ◌>>=◌ {ℓ κ} : {A : Type ℓ} {B : Type κ} → Result A → (A → Result B) → Result B
err failure >>= next = err failure
ok value >>= next = next value

-- A check, and what follows it.
infixl 5 ◌>>◌
abbrev pub ◌>>◌ {κ} : {B : Type κ} → Result (Unit {0}) → Result B → Result B
check >> next = check >>= λ _. next

-- `if b { return e }`
abbrev pub refuse : Bool → Failure → Result (Unit {0})
refuse true e = err e
refuse false e = ok tt

abbrev pub client_error : ℕ → Str → Str → Failure
client_error = protocol

module _ {ℓ κ} {A : Type ℓ} {B : Type κ} where
  pub >>=-eq-ok :
      (result : Result A) (next : A → Result B) {value : B}
      → (result >>= next) ≡ ok value
      → (first : A) × (result ≡ ok first) × (next first ≡ ok value)
  >>=-eq-ok (err failure) next stopped = cc
  >>=-eq-ok (ok first) next returned = (first, refl, returned)

module _ {ℓ} {A : Type ℓ} where
  pub ok-injective : {m n : A} → ok m ≡ ok n → m ≡ n
  ok-injective h = cc

  -- What a branch that succeeds has taken.
  pub if-ok :
      (b : Bool) {x y : Result A} {r : A} → (if b then x else y) ≡ ok r → (x ≡ ok r) ⊎ (y ≡ ok r)
  if-ok true h = inl h
  if-ok false h = inr h

  pub then-ok :
      (b : Bool) (x y : Result A) {r : A} → b ≡ true → (if b then x else y) ≡ ok r → x ≡ ok r
  then-ok true x y e h = h
  then-ok false x y e h = cc

  pub else-ok :
      (b : Bool) (x y : Result A) {r : A} → b ≡ false → (if b then x else y) ≡ ok r → y ≡ ok r
  else-ok true x y e h = cc
  else-ok false x y e h = h

-- The fuel did not run out.
pub record Settles {ℓ} {A : Type ℓ} (r : Result A) : Type ℓ where
  pub settled : r ≢ err exhausted

pub Settles-ok {ℓ} : {A : Type ℓ} (a : A) → Settles (ok a)
Settles-ok a = record { settled = λ p. cc }

pub Settles-fault {ℓ} : {A : Type ℓ} → Settles {A = A} (err fault)
Settles-fault = record { settled = λ p. cc }

pub Settles-refuse : (b : Bool) → Settles (refuse b fault)
Settles-refuse true = Settles-fault
Settles-refuse false = Settles-ok tt

pub Settles-if {ℓ} :
    {A : Type ℓ} (b : Bool) (m n : Result A)
    → (b ≡ true → Settles m)
    → (b ≡ false → Settles n)
    → Settles (if b then m else n)
Settles-if true m n h k = h refl
Settles-if false m n h k = k refl

pub Settles-bind {ℓ κ} :
    {A : Type ℓ} {B : Type κ} (m : Result A) (f : A → Result B)
    → Settles m
    → ((a : A) → m ≡ ok a → Settles (f a))
    → Settles (m >>= f)
Settles-bind (ok a) f h k = k a refl
Settles-bind (err e) f h k = record {
  settled = λ p. let q : e ≡ exhausted = cc in h.settled (ap err q);
}

pub ruleset settles_rules = (Settles-ok, Settles-fault, Settles-refuse, Settles-if, Settles-bind)

pub refuse-then : (b : Bool) (e : Failure) → (refuse b e >> ok tt) ≡ refuse b e
refuse-then true e = refl
refuse-then false e = refl

pub refuse-ok {ℓ} :
    {B : Type ℓ} (b : Bool) (e : Failure) (k : Result B) {x : B}
    → (refuse b e >> k) ≡ ok x
    → (b ≡ false) × (k ≡ ok x)
refuse-ok true e k h = cc
refuse-ok false e k h = (refl, h)

pub Settles-guard {ℓ} :
    {A : Type ℓ} (b : Bool) (k : Result A) → Settles k → Settles (refuse b fault >> k)
Settles-guard true k h = Settles-fault
Settles-guard false k h = h
