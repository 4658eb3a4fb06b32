-- ===== src/Reconcile.antt =====
-- Reconciliation: pkg/scim/reconcile.go. The entropy of a run is a function from the number of identifiers
-- drawn so far to the next one. The lock of a reconciler makes its runs a sequence.
pub mod Writes
pub mod Managers
mod Examples
use gotth_scim.Base.{
  ℕ, ◌+◌, Bool, true, false, ◌&&◌, ◌||◌, not, ltb, ◌==◌, if◌then◌else◌, Str, bytes, str_eq, Sign,
  less, same, greater, compare_bytes, Map, lookup, insert, erase, length, any, sort_by, Option,
  none, some, List, [], ◌∷◌, ◌++◌, Unicode,
}
use gotth_scim.Failure.{Result, ok, err, fault, conflict, tombstoned, ◌>>=◌, ◌>>◌, refuse}
use gotth_scim.Json.{Object, str}
use gotth_scim.Json.Decode.{Codec, decode_document}
use gotth_scim.Schema.{Definition, valid_string, maximum_string_bytes}
use gotth_scim.Filter.{Literals}
use gotth_scim.Store.{IndexKey, Record, Tombstone, Query, State}
use gotth_scim.Store.Memory.{list, tombstones_of, delete, transact}
use gotth_scim.Store.Memory as Memory
use gotth_scim.Store.Versions.{new_record, replacement_record}
use gotth_scim.Server.{with, outcome}
use gotth_scim.Resource.{Syntax, Callbacks}
use gotth_scim.Resource.Prepare.{prepare_resource}

pub record DesiredResource : Type 0 where
  pub resource_type : Str
  pub external_id : Str
  pub body : Str

pub record ReconcileRequest : Type 0 where
  pub scope : Str
  pub manager : Str
  pub resources : List DesiredResource
  pub delete_missing : Bool

pub record ReconcileResult : Type 0 where
  pub created : ℕ
  pub updated : ℕ
  pub deleted : ℕ
  pub unchanged : ℕ

-- `preparedDesired`
pub record PreparedDesired : Type 0 where
  pub definition : Definition
  pub external_id : Str
  pub document : Object
  pub indexes : List IndexKey

-- What the first loop of the transaction collects.
pub record Found : Type 0 where
  pub live : Map Record
  pub managed : Map Record
  pub tombstoned : List Str

-- What the second loop carries.
pub record Run : Type 0 where
  pub result : ReconcileResult
  pub managed : Map Record
  pub drawn : ℕ
  pub store : State

abbrev pub external_key : Str → Str → Str
external_key resource_type external_id = resource_type ++ (0 ∷ external_id)

abbrev is_less : Sign → Bool
is_less less = true
is_less _ = false

desired_before : PreparedDesired → PreparedDesired → Bool
unfolding compare_bytes str_eq
desired_before a b =
    if str_eq a.definition.name b.definition.name
    then is_less (compare_bytes a.external_id b.external_id)
    else is_less (compare_bytes a.definition.name b.definition.name)

unfoldable pub add_live : Str → List Record → Found → Result Found
unfolding lookup insert str_eq
add_live manager [] found = ok found
add_live manager (r ∷ records) found =
    let key = external_key r.resource_type r.external_id in
    let more = record found {
      live = insert key r found.live;
      managed = if str_eq r.manager manager then insert key r found.managed else found.managed;
    } in
    let rest =
      (refuse (any (λ p. str_eq p.0 key) found.live) fault >> add_live manager records more) in
    let skipped = add_live manager records found in
    if str_eq r.external_id [] then skipped else rest

add_tombstones : List Tombstone → List Str → List Str
unfolding str_eq
add_tombstones [] keys = keys
add_tombstones (t ∷ ts) keys =
    let more = add_tombstones ts (external_key t.resource_type t.external_id ∷ keys) in
    let skipped = add_tombstones ts keys in if str_eq t.external_id [] then skipped else more

module _ (u : Unicode) (l : Literals) (x : Syntax) (cb : Callbacks) (c : Codec) where
  -- The loop that prepares, with the keys that it has seen.
  pub prepare_desired :
      (Str → Option Definition) → List Str → List DesiredResource → Result (List PreparedDesired)
  unfolding valid_string str_eq bytes insert decode_document prepare_resource
  prepare_desired by_name seen [] = ok []
  prepare_desired by_name seen (desired ∷ resources) = elim (by_name desired.resource_type) [
    | none ↦ err fault
    | some d ↦ do
      refuse
          (str_eq desired.external_id []
            || not (valid_string u desired.external_id maximum_string_bytes))
          fault
      let key = external_key desired.resource_type desired.external_id
      refuse (any (str_eq key) seen) fault
      document ← decode_document u c desired.body
      prepared ←
          prepare_resource u l x cb c d true
            (insert (bytes "externalId") (str desired.external_id) document)
      rest ← prepare_desired by_name (key ∷ seen) resources
      ok (
          record {
            definition = d;
            external_id = prepared.external_id;
            document = prepared.document;
            indexes = prepared.indexes;
          }
          ∷ rest)
  ]

  -- The loop over the definitions.
  unfoldable pub gather : Str → Str → List Definition → State → Found → Result Found
  unfolding add_live add_tombstones
  gather scope manager [] s found = ok found
  gather scope manager (d ∷ definitions) s found = do
    records ←
        list u
          (record {
            scope = scope;
            resource_type = d.name;
            attribute = [];
            value = [];
            limit = 10000;
          })
          s
    more ← add_live manager records found
    ts ← tombstones_of scope d.name s
    gather scope manager definitions s
        (record more { tombstoned = add_tombstones ts more.tombstoned })

  module _ (scope manager : Str) (fresh : ℕ → Result Str) (now : ℕ) where
    unfoldable pub create_desired : PreparedDesired → Run → Result Run
    unfolding new_record Memory.create
    create_desired desired run = do
      id ← fresh run.drawn
      r ←
          new_record u c scope manager desired.definition.name id desired.external_id
            desired.document desired.indexes now []
      s' ← Memory.create u c r run.store
      ok (record run {
        result = record run.result { created = run.result.created + 1 };
        drawn = run.drawn + 1;
        store = s';
      })

    unfoldable pub store_update : Str → Record → Record × Bool → Run → Result Run
    unfolding Memory.replace erase
    store_update key existing (r, false) run = ok (record run {
      result = record run.result { unchanged = run.result.unchanged + 1 };
      managed = erase key run.managed;
    })
    store_update key existing (r, true) run = do
      s' ← Memory.replace u c r existing.version run.store
      ok (record run {
        result = record run.result { updated = run.result.updated + 1 };
        managed = erase key run.managed;
        store = s';
      })

    unfoldable pub update_desired : Str → Record → PreparedDesired → Run → Result Run
    unfolding store_update replacement_record str_eq
    update_desired key existing desired run = do
      refuse (not (str_eq existing.manager manager)) conflict
      updated ←
          replacement_record u c existing desired.external_id desired.document desired.indexes now
            none
      store_update key existing updated run

    unfoldable pub place_desired : Str → Option Record → PreparedDesired → Run → Result Run
    unfolding create_desired update_desired
    place_desired key none desired run = create_desired desired run
    place_desired key (some existing) desired run = update_desired key existing desired run

    -- The loop over the desired resources.
    unfoldable pub place_all : Found → List PreparedDesired → Run → Result Run
    unfolding place_desired lookup str_eq
    place_all found [] run = ok run
    place_all found (desired ∷ rest) run = do
      let key = external_key desired.definition.name desired.external_id
      refuse (any (str_eq key) found.tombstoned) tombstoned
      run' ← place_desired key (lookup key found.live) desired run
      place_all found rest run'

    -- The loop over the managed records that no one asked for.
    unfoldable pub delete_missing : Map Record → Run → Result Run
    unfolding delete
    delete_missing [] run = ok run
    delete_missing ((key, r) ∷ records) run = do
      let t : Tombstone = record {
        scope = r.scope;
        resource_type = r.resource_type;
        id = r.id;
        external_id = r.external_id;
        manager = r.manager;
        version = r.version;
        deleted_at = now;
      }
      s' ← delete r.scope r.resource_type r.id r.version t run.store
      delete_missing records (record run {
        result = record run.result { deleted = run.result.deleted + 1 };
        store = s';
      })

    unfoldable pub finish_missing : Bool → Run → Result Run
    unfolding delete_missing
    finish_missing true run = delete_missing run.managed run
    finish_missing false run = ok run

    -- The callback of the transaction.
    unfoldable pub reconcile_in :
        List Definition → Bool → List PreparedDesired → State → Result (ReconcileResult × State)
    unfolding gather place_all finish_missing
    reconcile_in definitions missing prepared s = do
      found ←
          gather scope manager definitions s (record { live = []; managed = []; tombstoned = [] })
      run ← place_all found prepared (record {
        result = record { created = 0; updated = 0; deleted = 0; unchanged = 0 };
        managed = found.managed;
        drawn = 0;
        store = s;
      })
      done ← finish_missing missing run
      ok (done.result, done.store)

  -- What `Reconcile` does before the transaction.
  pub prepared_request :
      (Str → Option Definition) → ℕ → ReconcileRequest → Result (List PreparedDesired)
  unfolding valid_string prepare_desired sort_by desired_before str_eq
  prepared_request by_name now request = do
    refuse
        (str_eq request.scope []
          || not (valid_string u request.scope 1024)
          || str_eq request.manager []
          || not (valid_string u request.manager 1024)
          || ltb 10000 (length request.resources))
        fault
    prepared ← prepare_desired by_name [] request.resources
    refuse (now == 0) fault
    ok (sort_by desired_before prepared)

  -- `Reconcile`, with the definitions of the registry, the entropy, the time and the cancellation of the
  -- context.
  unfoldable pub reconcile :
      List Definition
      → (Str → Option Definition)
      → (ℕ → Result Str)
      → ℕ
      → Bool
      → Bool
      → ReconcileRequest
      → State
      → Result ReconcileResult × State
  unfolding prepared_request reconcile_in transact
  reconcile definitions by_name fresh now cancelled_before cancelled_after request =
      with (prepared_request by_name now request) (λ prepared.
        transact cancelled_before cancelled_after (λ working. outcome working (
          reconcile_in request.scope request.manager fresh now definitions request.delete_missing
            prepared working)))
