-- ===== src/Bulk/Asked.antt =====
-- The requests that the operations of a Bulk request ask for: the method and the version that
-- `executeBulkOperation` of pkg/scim/bulk_execute.go is to hand on.
use gotth_scim.Base.{
  Bool, true, ◌&&◌, Str, bytes, str_eq, str_eq_refl, any, All, or-true, List, [], ◌∷◌, ◌≡◌, refl,
}
use gotth_scim.Server.Requests.{Request, creating, replacing, patching, removing, Call}
use gotth_scim.Bulk.{BulkOperation}

-- The request is of the operation's method and, unless it creates, has the operation's version as its
-- If-Match.
abbrev pub asks_for : BulkOperation → Request → Bool
asks_for o (creating manager raw) = str_eq o.method (bytes "POST") && str_eq manager []
asks_for o (replacing id raw if_match if_none_match) =
    str_eq o.method (bytes "PUT") && (str_eq if_match o.version && str_eq if_none_match [])
asks_for o (patching id operations if_match if_none_match) =
    str_eq o.method (bytes "PATCH") && (str_eq if_match o.version && str_eq if_none_match [])
asks_for o (removing id if_match if_none_match) =
    str_eq o.method (bytes "DELETE") && (str_eq if_match o.version && str_eq if_none_match [])

pub asked :
    (a : Bool) (version : Str) → a ≡ true → (a && (str_eq version version && str_eq [] [])) ≡ true
asked a version h = rw (h, str_eq_refl version, str_eq_refl []) refl

-- One of the operations asks for the call's request.
abbrev pub is_asked : List BulkOperation → Call → Bool
is_asked operations k = any (λ o. asks_for o k.request) operations

abbrev pub IsIn : List BulkOperation → BulkOperation → Type 0
IsIn operations o =
    (request : Request)
    → asks_for o request ≡ true
    → any (λ o. asks_for o request) operations ≡ true

All-IsIn_more :
    (b : BulkOperation) (operations os : List BulkOperation)
    → All (IsIn operations) os
    → All (IsIn (b ∷ operations)) os
All-IsIn_more b operations [] h = tt
All-IsIn_more b operations (o ∷ os) (h, hs) =
    ((λ request e. rw (h request e) (or-true _)), All-IsIn_more b operations os hs)

pub All-IsIn : (operations : List BulkOperation) → All (IsIn operations) operations
All-IsIn [] = tt
All-IsIn (o ∷ operations) =
    ((λ request e. rw e refl), All-IsIn_more o operations operations (All-IsIn operations))
