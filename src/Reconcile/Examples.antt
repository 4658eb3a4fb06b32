-- ===== src/Reconcile/Examples.antt =====
-- A reconciliation on the sample store.
use gotth_scim.Base.{
  ℕ, str_eq, lookup, true, false, some, [], ◌∷◌, ◌≡◌, ◌≢◌, refl, ap, length, arith,
}
use gotth_scim.Failure.{ok}
use gotth_scim.Samples.{ascii, literals, user, stored}
use gotth_scim.Server.Samples.{syntax, callbacks, schemas_codec, users}
use gotth_scim.Reconcile.{ReconcileRequest, reconcile}
use gotth_scim.Reconcile.Managers.{reconcile-Spares}

-- The manager `mm` wants nothing and deletes what is missing.
abbrev request : ReconcileRequest
request = record {
  scope = 115 ∷ [];
  manager = 109 ∷ 109 ∷ [];
  resources = [];
  delete_missing = true;
}

other_manager : user.manager ≢ request.manager
other_manager h = let lengths : ◌≡◌ {A = ℕ} 1 2 = ap length h in absurd (omega arith)

at_key : lookup (85 ∷ 0 ∷ 49 ∷ []) stored.records ≡ some user
unfolding lookup str_eq
at_key = refl

reconcile-Spares_example :
    lookup
      (85 ∷ 0 ∷ 49 ∷ [])
      (reconcile ascii literals syntax callbacks schemas_codec
        (users ∷ [])
        (λ s. some users)
        (λ n. ok (50 ∷ []))
        2
        false
        false
        request
        stored).1.records
    ≡ some user
reconcile-Spares_example =
    reconcile-Spares ascii schemas_codec literals syntax callbacks (users ∷ []) (λ s. some users)
      (λ n. ok (50 ∷ [])) 2 false false request stored (85 ∷ 0 ∷ 49 ∷ []) user at_key other_manager
