-- ===== src/Server/Requests.antt =====
-- What the requests of pkg/scim/server.go that write do to the store.
use gotth_scim.Base.{ℕ, Str, List, [], ◌∷◌, Unicode, ◌≡◌, refl, ap, inl, inr, ◌⊎◌}
use gotth_scim.Failure.{Failure, Result, ok, err, ok-injective}
use gotth_scim.Json.{Object}
use gotth_scim.Json.Decode.{Codec}
use gotth_scim.Schema.{Definition}
use gotth_scim.Filter.{Literals}
use gotth_scim.Store.{Record, State}
use gotth_scim.Store.Memory.Access.{transact-cases}
use gotth_scim.Store.Memory.History.{Write}
use gotth_scim.Patch.{PatchOp}
use gotth_scim.Resource.{Syntax, Callbacks}
use gotth_scim.Server.{
  Config, Context, outcome, with, in_transaction, create, replace, patch, remove, create_in,
  change_in, remove_in, creation, replacement, current_time,
}

-- A request that writes, with what it carries.
pub data Request : Type 0 where
  creating : (manager raw : Str) → Request
  replacing : (id raw if_match if_none_match : Str) → Request
  patching : (id : Str) → List PatchOp → (if_match if_none_match : Str) → Request
  removing : (id if_match if_none_match : Str) → Request

-- One request on a definition, and one after the other.
pub record Call : Type 0 where
  pub definition : Definition
  pub context : Context
  pub request : Request

-- The request failed and the store is as it was, or it succeeded, with what then holds.
abbrev pub Ends : State → Result Record × State → (Record → State → Type 0) → Type 0
Ends s result P =
    ((e : Failure) × (result ≡ (err e, s)))
    ⊎ ((r : Record) × (s' : State) × (result ≡ (ok r, s')) × P r s')

outcome-cases :
    (s : State) (o : Result (Record × State)) {r : Record}
    → (outcome s o).0 ≡ ok r
    → o ≡ ok (r, (outcome s o).1)
outcome-cases s (ok (r', s')) h = let same = ok-injective h in ap (λ z. ok (z, s')) same
outcome-cases s (err e) h = cc

in_transaction-Ends :
    (q : Context) (f : State → Result (Record × State)) (s : State)
    → Ends s (in_transaction q f s) (λ r s'. f s ≡ ok (r, s'))
unfolding in_transaction
in_transaction-Ends q f s =
    elim (transact-cases q.cancelled_before q.cancelled_after
      (λ working. outcome working (f working)) s) [
        | inl (r, e, _, _, same) ↦ inr (r, (outcome s (f s)).1, same, outcome-cases s (f s) e)
        | inr (e, same) ↦ inl (e, same)
      ]

with-Ends :
    {A : Type 0} (m : Result A) (f : A → State → Result Record × State) (s : State)
    (P : A → Record → State → Type 0)
    → ((a : A) → Ends s (f a s) (P a))
    → Ends s (with m f s) (λ r s'. (a : A) × (m ≡ ok a) × P a r s')
with-Ends (err e) f s P h = inl (e, refl)
with-Ends (ok a) f s P h = elim (h a) [
  | inl failed ↦ inl failed
  | inr (r, s', same, p) ↦ inr (r, s', same, (a, refl, p))
]

pub Ends-imp :
    (s : State) (result : Result Record × State) (P Q : Record → State → Type 0)
    → ((r : Record) (s' : State) → P r s' → Q r s')
    → Ends s result P
    → Ends s result Q
Ends-imp s result P Q f (inl failed) = inl failed
Ends-imp s result P Q f (inr (r, s', same, p)) = inr (r, s', same, f r s' p)

-- At most one write of the store, which succeeded.
abbrev pub Writes : (Write → State → Result State) → State → State → Type 0
Writes performs s s' = (s' ≡ s) ⊎ ((w : Write) × (performs w s ≡ ok s'))

module _ (u : Unicode) (l : Literals) (x : Syntax) (cb : Callbacks) (c : Codec) (cfg : Config) where
  unfoldable pub serve : Definition → Context → Request → State → Result Record × State
  serve d q (creating manager raw) s = create u l x cb c cfg d q manager raw s
  serve d q (replacing id raw if_match if_none_match) s =
      replace u l x cb c cfg d q id raw if_match if_none_match s
  serve d q (patching id operations if_match if_none_match) s =
      patch u l x cb c cfg d q id operations if_match if_none_match s
  serve d q (removing id if_match if_none_match) s =
      remove u l x cb c cfg d q id if_match if_none_match s

  unfoldable pub serve_all : List Call → State → State
  serve_all [] s = s
  serve_all (k ∷ calls) s = serve_all calls (serve k.definition k.context k.request s).1

  module _ (d : Definition) (q : Context) where
    pub create-Ends :
        (manager raw : Str) (s : State)
        → Ends s (create u l x cb c cfg d q manager raw s) (λ r s'.
          (p : _) × (creation u l x cb c cfg d q raw ≡ ok p)
          × (create_in u l x cb c cfg d q manager p s ≡ ok (r, s')))
    unfolding create
    create-Ends manager raw s =
        with-Ends (creation u l x cb c cfg d q raw) _ s _
          (λ p. in_transaction-Ends q (create_in u l x cb c cfg d q manager p) s)

    -- What `replace` and `patch` have done when they succeed: the callback, with some time and document.
    abbrev pub Changes : Str → Str → Str → State → Record → State → Type 0
    Changes id if_match if_none_match s r s' =
        (invalid : Failure) × (now : ℕ) × (edit : (Object → Result (Str × Object))) × (change_in u l
            x cb c cfg d q id if_match if_none_match invalid now edit s
          ≡ ok (r, s'))

    pub replace-Ends :
        (id raw if_match if_none_match : Str) (s : State)
        → Ends s
            (replace u l x cb c cfg d q id raw if_match if_none_match s)
            (Changes id if_match if_none_match s)
    unfolding replace
    replace-Ends id raw if_match if_none_match s =
        Ends-imp s _ _ (Changes id if_match if_none_match s) (λ r s' p. (_, p.0.2, _, p.2))
          (with-Ends (replacement u l x cb c cfg d q raw) _ s _ (λ p. in_transaction-Ends q _ s))

    pub patch-Ends :
        (id : Str) (operations : List PatchOp) (if_match if_none_match : Str) (s : State)
        → Ends s
            (patch u l x cb c cfg d q id operations if_match if_none_match s)
            (Changes id if_match if_none_match s)
    unfolding patch
    patch-Ends id operations if_match if_none_match s =
        Ends-imp s _ _ (Changes id if_match if_none_match s) (λ r s' p. (_, p.0, _, p.2))
          (with-Ends (current_time q.now) _ s _ (λ now. in_transaction-Ends q _ s))

    pub remove-Ends :
        (id if_match if_none_match : Str) (s : State)
        → Ends s (remove u l x cb c cfg d q id if_match if_none_match s) (λ r s'.
          (now : ℕ) × (current_time q.now ≡ ok now)
          × (remove_in u l x cb c cfg d q id if_match if_none_match now s ≡ ok (r, s')))
    unfolding remove
    remove-Ends id if_match if_none_match s = with-Ends (current_time q.now) _ s _ (λ now.
        in_transaction-Ends q (remove_in u l x cb c cfg d q id if_match if_none_match now) s)
