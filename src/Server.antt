-- ===== src/Server.antt =====
-- The writes of the server: `create`, `replace`, `patch` and `remove` of pkg/scim/server.go, over the store
-- of pkg/scim/memory.go, and `extractPassword` and `writePassword` of pkg/scim/credentials.go. The clock
-- and the entropy of a request enter as its time and its id; the store of the consumer's credentials is
-- a function, and its own state is no part of the model.
pub mod Requests
pub mod Effects
pub mod History
pub mod Samples
mod Examples
use gotth_scim.Base.{
  ℕ, Bool, true, false, ◌&&◌, ◌||◌, not, ltb, ◌==◌, if◌then◌else◌, Str, bytes, str_eq, lookup,
  erase, length, Option, none, some, List, [], ◌∷◌, Unicode, String,
}
use gotth_scim.Failure.{Failure, client_error, Result, ok, err, fault, ◌>>=◌, ◌>>◌, refuse}
use gotth_scim.Etag.{evaluate_write_preconditions}
use gotth_scim.Json.{Value, str, Object, as_str}
use gotth_scim.Json.Decode.{Codec, decode_document}
use gotth_scim.Schema.{Definition, valid_string}
use gotth_scim.Filter.{Literals}
use gotth_scim.Store.{IndexKey, Record, Tombstone, State}
use gotth_scim.Store.Versions.{new_record, replacement_record}
use gotth_scim.Store.Memory.{get, transact}
use gotth_scim.Store.Memory as Memory
use gotth_scim.Mutability.{enforce_replacement_mutability}
use gotth_scim.Patch.{PatchOp, refusal}
use gotth_scim.Patch.Apply.{apply_patch_document, replace_error}
use gotth_scim.Resource.{Syntax, Callbacks}
use gotth_scim.Resource.Prepare.{Prepared, prepare_resource}

-- The parts of `ServerConfig` that the writes look at. `set_password` is the consumer's
-- `PasswordTransaction.SetPassword`, on the scope, the type, the id and the secret; `none` is a store without it.
pub record Config : Type 0 where
  pub weak_etags : Bool
  pub change_password : Bool
  pub set_password : Option (Str → Str → Str → Str → Result Str)

-- What a request meets: its scope, the time, a fresh id or the error of the entropy source, and whether the
-- context is cancelled before or after the transaction's callback.
pub record Context : Type 0 where
  pub scope : Str
  pub now : ℕ
  pub fresh_id : Result Str
  pub cancelled_before : Bool
  pub cancelled_after : Bool

-- `currentTime`: zero is Go's zero time.
unfoldable pub current_time : ℕ → Result ℕ
current_time now = if now == 0 then err fault else ok now

-- The result of a callback and its working state; an error leaves the state to `transact`.
abbrev pub outcome {ℓ} : {A : Type ℓ} → State → Result (A × State) → Result A × State
outcome s (ok (a, s')) = (ok a, s')
outcome s (err e) = (err e, s)

-- Work before the transaction, which may fail.
abbrev pub with {ℓ κ} :
    {A : Type ℓ} {B : Type κ} → Result A → (A → State → Result B × State) → State → Result B × State
with (err e) f s = (err e, s)
with (ok a) f s = f a s

unfoldable pub in_transaction {ℓ} :
    {A : Type ℓ} → Context → (State → Result (A × State)) → State → Result A × State
in_transaction q f s =
    transact q.cancelled_before q.cancelled_after (λ working. outcome working (f working)) s

module _ (u : Unicode) (l : Literals) (x : Syntax) (cb : Callbacks) (c : Codec) (cfg : Config) where
  checked_secret : Option Str → Result Str
  checked_secret none = err (refusal "invalidValue" "password is invalid")
  checked_secret (some s) = do
    refuse (str_eq s [] || ltb 1024 (length s)) (refusal "invalidValue" "password is invalid")
    elim (x.prepare_password s) [
      | none ↦ err (refusal "invalidValue" "password fails international string preparation")
      | some prepared ↦ do
        refuse (str_eq prepared [] || ltb 1024 (length prepared))
            (refusal "invalidValue" "password fails international string preparation")
        ok prepared
    ]

  -- `extractPassword`: the secret, empty if there is none, and the document without it.
  unfoldable pub extract_password : Object → Str → Result (Str × Object)
  unfolding checked_secret lookup erase
  extract_password document resource_type = elim (lookup (bytes "password") document) [
    | none ↦ ok ([], erase (bytes "password") document)
    | some v ↦ do
      refuse (not cfg.change_password || not (str_eq resource_type (bytes "User")))
          (refusal "mutability" "password changes are not supported")
      secret ← checked_secret (as_str v)
      ok (secret, erase (bytes "password") document)
  ]

  -- `writePassword`
  unfoldable pub write_password : Str → Str → Str → Str → Result Str
  write_password scope resource_type id [] = ok []
  write_password scope resource_type id (b ∷ secret) = elim cfg.set_password [
    | none ↦ err fault
    | some set_password ↦ do
      revision ← set_password scope resource_type id (b ∷ secret)
      refuse (str_eq revision [] || not (valid_string u revision 1024)) fault
      ok revision
  ]

  module _ (d : Definition) where
    -- What `create` does before the transaction: the secret, the resource, the id and the time.
    pub creation : Context → Str → Result (Str × Prepared × Str × ℕ)
    creation q raw = do
      document ←
          replace_error (refusal "invalidSyntax" "resource JSON is invalid")
            (decode_document u c raw)
      (secret, incoming) ← extract_password document d.name
      prepared ←
          replace_error (refusal "invalidValue" "resource is invalid")
            (prepare_resource u l x cb c d true incoming)
      id ← q.fresh_id
      now ← current_time q.now
      ok (secret, prepared, id, now)

    -- The callback of `create`.
    pub create_in : Context → Str → Str × Prepared × Str × ℕ → State → Result (Record × State)
    create_in q manager (secret, prepared, id, now) s = do
      credential ← write_password q.scope d.name id secret
      r ←
          new_record u c q.scope manager d.name id prepared.external_id prepared.document
            prepared.indexes now credential
      s' ← Memory.create u c r s
      ok (r, s')

    -- `create`
    unfoldable pub create : Context → Str → Str → State → Result Record × State
    unfolding in_transaction
    create q manager raw s = with (creation q raw) (λ p. in_transaction q (create_in q manager p)) s

    -- The credential version after a write: the current one where there is no secret.
    pub next_credential : Context → Str → Record → Str → Result Str
    next_credential q id current [] = ok current.credential_version
    next_credential q id current (b ∷ secret) = write_password q.scope d.name id (b ∷ secret)

    pub store_change : Record × Bool → Record → State → Result (Record × State)
    store_change (r, false) current s = ok (r, s)
    store_change (r, true) current s = do s' ← Memory.replace u c r current.version s; ok (r, s')

    -- The callback of `replace` and of `patch`, which differ in the document that they make of the current
    -- one and in the message for a resource that is not valid.
    pub change_in :
        Context
        → Str
        → Str
        → Str
        → Failure
        → ℕ
        → (Object → Result (Str × Object))
        → State
        → Result (Record × State)
    change_in q id if_match if_none_match invalid now edit s = do
      current ← get q.scope d.name id s
      evaluate_write_preconditions cfg.weak_etags if_match if_none_match current.version
      current_document ← decode_document u c current.content
      (secret, document) ← edit current_document
      held ← enforce_replacement_mutability d current_document document
      prepared ← replace_error invalid (prepare_resource u l x cb c d false held)
      credential ← next_credential q id current secret
      result ←
          replacement_record u c current prepared.external_id prepared.document prepared.indexes now
            (some credential)
      store_change result current s

    -- What `replace` does before the transaction.
    pub replacement : Context → Str → Result (Str × Object × ℕ)
    replacement q raw = do
      document ←
          replace_error (refusal "invalidSyntax" "resource JSON is invalid")
            (decode_document u c raw)
      (secret, incoming) ← extract_password document d.name
      now ← current_time q.now
      ok (secret, incoming, now)

    -- `replace`
    unfoldable pub replace : Context → Str → Str → Str → Str → State → Result Record × State
    unfolding in_transaction
    replace q id raw if_match if_none_match s =
        with (replacement q raw)
          (λ p. in_transaction q (
            change_in q id if_match if_none_match (refusal "invalidValue" "resource is invalid") p.2
              (λ current. ok (p.0, p.1))))
          s

    patched : List PatchOp → Object → Result (Str × Object)
    patched operations current = do
      document ← apply_patch_document u l d c current operations
      extract_password document d.name

    -- `patch`
    unfoldable pub patch : Context → Str → List PatchOp → Str → Str → State → Result Record × State
    unfolding patched in_transaction
    patch q id operations if_match if_none_match s =
        with (current_time q.now)
          (λ now. in_transaction q (
            change_in q id if_match if_none_match
              (refusal "invalidValue" "patched resource is invalid") now (patched operations)))
          s

    -- The tombstone that `remove` leaves.
    unfoldable pub tombstone_of : Record → ℕ → Tombstone
    tombstone_of r now = record {
      scope = r.scope;
      resource_type = r.resource_type;
      id = r.id;
      external_id = r.external_id;
      manager = r.manager;
      version = r.version;
      deleted_at = now;
    }

    -- The callback of `remove`.
    unfoldable pub remove_in : Context → Str → Str → Str → ℕ → State → Result (Record × State)
    remove_in q id if_match if_none_match now s = do
      current ← get q.scope d.name id s
      evaluate_write_preconditions cfg.weak_etags if_match if_none_match current.version
      s' ← Memory.delete q.scope d.name id current.version (tombstone_of current now) s
      ok (current, s')

    -- `remove`; the record that is gone stands for the empty result.
    unfoldable pub remove : Context → Str → Str → Str → State → Result Record × State
    unfolding in_transaction
    remove q id if_match if_none_match s =
        with (current_time q.now)
          (λ now. in_transaction q (remove_in q id if_match if_none_match now)) s
