-- ===== src/Server/Effects.antt =====
-- Every request that writes is at most one write of the store.
use gotth_scim.Base.{
  ℕ, Bool, true, false, Str, some, Unicode, ◌≡◌, refl, subst, sym, ap, ◌∙◌, inl, inr, ◌⊎◌,
}
use gotth_scim.Failure.{Failure, Result, ok, >>=-eq-ok, ok-injective}
use gotth_scim.Json.{Object}
use gotth_scim.Json.Decode.{Codec, decode_document}
use gotth_scim.Schema.{Definition}
use gotth_scim.Filter.{Literals}
use gotth_scim.Etag.{evaluate_write_preconditions}
use gotth_scim.Store.{Record, State}
use gotth_scim.Store.Versions.{new_record, replacement_record}
use gotth_scim.Store.Versions.Kept.{SameIdentity, new_record-parts, replacement_record-SameIdentity}
use gotth_scim.Store.Memory.{get}
use gotth_scim.Store.Memory as Memory
use gotth_scim.Store.Memory.History.{creates, replaces, deletes, perform}
use gotth_scim.Mutability.{enforce_replacement_mutability}
use gotth_scim.Patch.Apply.{replace_error}
use gotth_scim.Resource.{Syntax, Callbacks}
use gotth_scim.Resource.Prepare.{Prepared, prepare_resource}
use gotth_scim.Server.{
  Config, Context, create_in, change_in, remove_in, store_change, next_credential, write_password,
  tombstone_of,
}
use gotth_scim.Server.Requests.{
  Request, creating, replacing, patching, removing, Ends, Ends-imp, Writes, serve, create-Ends,
  replace-Ends, patch-Ends, remove-Ends,
}

module _ (u : Unicode) (l : Literals) (x : Syntax) (cb : Callbacks) (c : Codec) (cfg : Config) where
  module _ (d : Definition) (q : Context) where
    pub create_in-parts :
        (manager : Str) (p : Str × Prepared × Str × ℕ) (s : State) {r : Record} {s' : State}
        → create_in u l x cb c cfg d q manager p s ≡ ok (r, s')
        → (r.scope ≡ q.scope)
          × (r.resource_type ≡ d.name)
          × (r.id ≡ p.2)
          × (r.manager ≡ manager)
          × (r.created ≡ p.3)
          × (Memory.create u c r s ≡ ok s')
    unfolding create_in
    create_in-parts manager (secret, prepared, id, now) s {r} {s'} h =
        let (credential, _, h1) =
          >>=-eq-ok (write_password u l x cb c cfg q.scope d.name id secret) _ h in
        let (r', made, h2) =
          >>=-eq-ok
            (new_record u c q.scope manager d.name id prepared.external_id prepared.document
              prepared.indexes now credential)
            _ h1 in
        let (t, stored, h3) = >>=-eq-ok (Memory.create u c r' s) _ h2 in
        let same : (r', t) ≡ (r, s') = ok-injective h3 in
        let r_same : r' ≡ r = ap (λ (z : Record × State). z.0) same in
        let s_same : t ≡ s' = ap (λ (z : Record × State). z.1) same in
        let (a, b, e, m, n) =
          new_record-parts u c q.scope manager d.name id prepared.external_id prepared.document
            prepared.indexes now credential made in
        rw (← r_same, ← s_same) (a, b, e, m, n, stored)

    store_change-parts :
        (result : Record × Bool) (current : Record) (s : State) {r : Record} {s' : State}
        → store_change u l x cb c cfg d result current s ≡ ok (r, s')
        → (result.0 ≡ r)
          × (((result.1 ≡ false) × (s' ≡ s))
              ⊎ ((result.1 ≡ true) × (Memory.replace u c r current.version s ≡ ok s')))
    unfolding store_change
    store_change-parts (r', false) current s {r} {s'} h =
        let same : (r', s) ≡ (r, s') = ok-injective h in
        (
          ap (λ (z : Record × State). z.0) same,
          inl (refl, ap (λ (z : Record × State). z.1) (sym same)),
        )
    store_change-parts (r', true) current s {r} {s'} h =
        let (t, stored, h1) = >>=-eq-ok (Memory.replace u c r' current.version s) _ h in
        let same : (r', t) ≡ (r, s') = ok-injective h1 in
        let r_same : r' ≡ r = ap (λ (z : Record × State). z.0) same in
        let s_same : t ≡ s' = ap (λ (z : Record × State). z.1) same in
        (r_same, inr (refl, rw (← r_same, ← s_same) stored))

    -- What a replacement or a PATCH that succeeds has met and done.
    abbrev pub Changed : Str → Str → Str → State → Record → State → Type 0
    Changed id if_match if_none_match s r s' =
        (current : Record) × (get q.scope d.name id s ≡ ok current)
        × (evaluate_write_preconditions cfg.weak_etags if_match if_none_match current.version
            ≡ ok tt)
        × SameIdentity r current
        × (((r ≡ current) × (s' ≡ s)) ⊎ (Memory.replace u c r current.version s ≡ ok s'))

    settled :
        (s : State) (current : Record) {r0 r : Record} {b : Bool} {s' : State}
        {P P' P'' P''' Q : Type 0}
        → r0 ≡ r
        → SameIdentity r0 current
        → ((b ≡ false) × (r0 ≡ current)) ⊎ ((b ≡ true) × P × P' × P'' × P''')
        → ((b ≡ false) × (s' ≡ s)) ⊎ ((b ≡ true) × Q)
        → SameIdentity r current × (((r ≡ current) × (s' ≡ s)) ⊎ Q)
    settled s current e same (inl (_, kept)) (inl (_, quiet)) =
        (subst (λ z. SameIdentity z current) e same, inl (sym e ∙ kept, quiet))
    settled s current e same (inr (_, _, _, _, _)) (inr (_, stored)) =
        (subst (λ z. SameIdentity z current) e same, inr stored)
    settled s current e same (inl (p, _)) (inr (p', _)) = cc
    settled s current e same (inr (p, _, _, _, _)) (inl (p', _)) = cc

    pub change_in-parts :
        (id if_match if_none_match : Str) (invalid : Failure) (now : ℕ)
        (edit : Object → Result (Str × Object)) (s : State) {r : Record} {s' : State}
        → change_in u l x cb c cfg d q id if_match if_none_match invalid now edit s ≡ ok (r, s')
        → Changed id if_match if_none_match s r s'
    unfolding change_in
    change_in-parts id if_match if_none_match invalid now edit s {r} {s'} h =
        let (current, found, h1) = >>=-eq-ok (get q.scope d.name id s) _ h in
        let (_, admitted, h2) =
          >>=-eq-ok
            (evaluate_write_preconditions cfg.weak_etags if_match if_none_match current.version) _
            h1 in
        let (document, _, h3) = >>=-eq-ok (decode_document u c current.content) _ h2 in
        let (edited, _, h4) = >>=-eq-ok (edit document) _ h3 in
        let (held, _, h5) = >>=-eq-ok (enforce_replacement_mutability d document edited.1) _ h4 in
        let (prepared, _, h6) =
          >>=-eq-ok (replace_error invalid (prepare_resource u l x cb c d false held)) _ h5 in
        let (credential, _, h7) =
          >>=-eq-ok (next_credential u l x cb c cfg d q id current edited.0) _ h6 in
        let (result, made, h8) =
          >>=-eq-ok
            (replacement_record u c current prepared.external_id prepared.document prepared.indexes
              now (some credential))
            _ h7 in
        let (r_same, stored) = store_change-parts result current s h8 in
        let (identity, kept) =
          replacement_record-SameIdentity u c current prepared.external_id prepared.document
            prepared.indexes now (some credential) result.0 result.1 made in
        let (same, effect) = settled s current r_same identity kept stored in
        (current, found, admitted, same, effect)

    pub remove_in-parts :
        (id if_match if_none_match : Str) (now : ℕ) (s : State) {r : Record} {s' : State}
        → remove_in u l x cb c cfg d q id if_match if_none_match now s ≡ ok (r, s')
        → (get q.scope d.name id s ≡ ok r)
          × (evaluate_write_preconditions cfg.weak_etags if_match if_none_match r.version ≡ ok tt)
          × (Memory.delete q.scope d.name id r.version (tombstone_of u l x cb c cfg d r now) s
              ≡ ok s')
    unfolding remove_in
    remove_in-parts id if_match if_none_match now s {r} {s'} h =
        let (current, found, h1) = >>=-eq-ok (get q.scope d.name id s) _ h in
        let (_, admitted, h2) =
          >>=-eq-ok
            (evaluate_write_preconditions cfg.weak_etags if_match if_none_match current.version) _
            h1 in
        let (t, gone, h3) =
          >>=-eq-ok
            (Memory.delete q.scope d.name id current.version
              (tombstone_of u l x cb c cfg d current now) s)
            _ h2 in
        let same : (current, t) ≡ (r, s') = ok-injective h3 in
        let r_same : current ≡ r = ap (λ (z : Record × State). z.0) same in
        let s_same : t ≡ s' = ap (λ (z : Record × State). z.1) same in
        (rw (← r_same) found, rw (← r_same) admitted, rw (← r_same, ← s_same) gone)

    Changed-Writes :
        (id if_match if_none_match : Str) (s : State) (r : Record) (s' : State)
        → Changed id if_match if_none_match s r s'
        → Writes (perform u c) s s'
    unfolding perform
    Changed-Writes id if_match if_none_match s r s' (current, _, _, _, inl (_, quiet)) = inl quiet
    Changed-Writes id if_match if_none_match s r s' (current, _, _, _, inr stored) =
        inr (replaces r current.version, stored)

    -- A request that creates, replaces, patches or removes either fails and leaves the store as it was, or
    -- succeeds and leaves it as it was or as one write of the store, which succeeded, made it.
    pub serve-Writes :
        (request : Request) (s : State)
        → Ends s (serve u l x cb c cfg d q request s) (λ r s'. Writes (perform u c) s s')
    unfolding serve perform
    serve-Writes (creating manager raw) s =
        Ends-imp s _ _ (λ r s'. Writes (perform u c) s s')
          (λ r s' p. inr (creates r, (create_in-parts manager p.0 s p.2).5))
          (create-Ends u l x cb c cfg d q manager raw s)
    serve-Writes (replacing id raw if_match if_none_match) s =
        Ends-imp s _ _ (λ r s'. Writes (perform u c) s s')
          (λ r s' p.
            Changed-Writes id if_match if_none_match s r s'
              (change_in-parts id if_match if_none_match p.0 p.1 p.2 s p.3))
          (replace-Ends u l x cb c cfg d q id raw if_match if_none_match s)
    serve-Writes (patching id operations if_match if_none_match) s =
        Ends-imp s _ _ (λ r s'. Writes (perform u c) s s')
          (λ r s' p.
            Changed-Writes id if_match if_none_match s r s'
              (change_in-parts id if_match if_none_match p.0 p.1 p.2 s p.3))
          (patch-Ends u l x cb c cfg d q id operations if_match if_none_match s)
    serve-Writes (removing id if_match if_none_match) s =
        Ends-imp s _ _ (λ r s'. Writes (perform u c) s s')
          (λ r s' p. inr (
            deletes q.scope d.name id r.version (tombstone_of u l x cb c cfg d r p.0),
            (remove_in-parts id if_match if_none_match p.0 s p.2).2,
          ))
          (remove-Ends u l x cb c cfg d q id if_match if_none_match s)
