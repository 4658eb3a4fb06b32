-- ===== src/Bulk/Kept.antt =====
-- What the loops of a Bulk request keep when every attempt keeps it: `serveBulk` of
-- pkg/scim/bulk_execute.go.
use gotth_scim.Base.{
  All, if_cases, ℕ, zero, suc, ◌==◌, Option, none, some, List, [], ◌∷◌, ◌≡◌, subst,
}
use gotth_scim.Bulk.{BulkOperation}
use gotth_scim.Bulk.Schedule.{
  Entry, Progress, Setting, Pass, attempt, attempted, is_skipped, limit_reached, pass, undone,
  after_pass, rounds, fresh_entries,
}

-- Every entry is for an operation with the property.
abbrev pub AllFor : (BulkOperation → Type 0) → List Entry → Type 0
AllFor O es = All (λ e. O e.operation) es

pub AllFor-fresh :
    (O : BulkOperation → Type 0) (operations : List BulkOperation)
    → All O operations
    → AllFor O (fresh_entries operations)
AllFor-fresh O [] h = tt
AllFor-fresh O (o ∷ operations) (h, hs) = (h, AllFor-fresh O operations hs)

pass-AllFor {ℓ} :
    {S : Type ℓ} (k : Setting S) (O : BulkOperation → Type 0) (es : List Entry) (p : Progress S)
    → AllFor O es
    → AllFor O (pass k es p).entries
unfolding pass attempted
pass-AllFor k O [] p h = tt
pass-AllFor {S = S} k O (e ∷ es) p (h, hs) =
    let later = attempt k e.operation p in
    if_cases (λ (z : Pass S). AllFor O z.entries) (is_skipped k e p) _ _
      (λ skip. (h, pass-AllFor k O es p hs))
      (λ go.
        if_cases (λ (z : Pass S). AllFor O z.entries) (limit_reached k later.1) _ _
          (λ limit. (h, hs)) (λ more. (h, pass-AllFor k O es later.1 hs)))

module _ {ℓ κ} {S : Type ℓ} (k : Setting S) (O : BulkOperation → Type 0) (P : Progress S → Type κ)
    (attempt-keeps : (o : BulkOperation) (p : Progress S) → O o → P p → P (attempt k o p).1) where
  pub pass-keeps : (es : List Entry) (p : Progress S) → AllFor O es → P p → P (pass k es p).progress
  unfolding pass attempted
  pass-keeps [] p a h = h
  pass-keeps (e ∷ es) p (a, as_) h =
      let later = attempt k e.operation p in
      if_cases (λ (z : Pass S). P z.progress) (is_skipped k e p) _ _ (λ skip. pass-keeps es p as_ h)
        (λ go.
          if_cases (λ (z : Pass S). P z.progress) (limit_reached k later.1) _ _
            (λ limit. attempt-keeps e.operation p a h)
            (λ more. pass-keeps es later.1 as_ (attempt-keeps e.operation p a h)))

  -- Of the result of the loop.
  abbrev Kept : Option (List Entry × Progress S) → Type κ
  Kept none = Unit
  Kept (some (es, p)) = P p

  rounds-Kept :
      (fuel : ℕ) (es : List Entry) (p : Progress S) → AllFor O es → P p → Kept (rounds k fuel es p)
  unfolding rounds after_pass
  rounds-Kept zero es p a h = if_cases Kept (undone es == 0) _ _ (λ e. h) (λ e. tt)
  rounds-Kept (suc fuel) es p a h =
      let r = pass k es p in
      let next =
        rounds-Kept fuel r.entries r.progress (pass-AllFor k O es p a) (pass-keeps es p a h) in
      if_cases Kept (undone es == 0) _ _ (λ e. h)
        (λ e.
          if_cases Kept r.stopped _ _ (λ stop. pass-keeps es p a h)
            (λ on. if_cases Kept r.moved _ _ (λ moved. next) (λ stuck. pass-keeps es p a h)))

  pub rounds-keeps :
      (fuel : ℕ) (es : List Entry) (p : Progress S) {es' : List Entry} {p' : Progress S}
      → AllFor O es
      → P p
      → rounds k fuel es p ≡ some (es', p')
      → P p'
  rounds-keeps fuel es p a h e = subst Kept e (rounds-Kept fuel es p a h)
