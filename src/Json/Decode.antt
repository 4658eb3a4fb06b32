-- ===== src/Json/Decode.antt =====
-- pkg/scim/json.go and `CoreKeyCases` of pkg/scim/normalize.go. encoding/json is a parameter: it turns text
-- into tokens, with `bad` where it reports an error, and values into text.
pub mod Size
pub mod Names
pub mod Sound
pub mod Total
mod Examples
use gotth_scim.Base.{
  ℕ, zero, suc, ◌+◌, ◌*◌, Bool, true, false, ◌&&◌, ◌||◌, not, ltb, leb, if◌then◌else◌, Str, bytes,
  str_eq, Map, lookup, insert, Option, none, some, List, [], ◌∷◌, ◌++◌, length, Unicode, String,
  map, ◌^◌,
}
use gotth_scim.Failure.{Result, ok, err, fault, exhausted, ◌>>=◌, ◌>>◌, refuse}
use gotth_scim.Json.{Value, null, bool, num, str, arr, obj, Object, as_obj, mk_arr, mk_obj}

pub data Scalar : Type 0 where
  nothing : Scalar
  truth : Bool → Scalar
  number : Str → Scalar

abbrev pub scalar_value : Scalar → Value
scalar_value nothing = null
scalar_value (truth b) = bool b
scalar_value (number n) = num n

pub data Token : Type 0 where
  open_brace close_brace open_bracket close_bracket bad : Token
  text : Str → Token
  scalar : Scalar → Token

-- encoding/json and crypto/sha256, as the code uses them. `tokens` is the sequence that
-- `Decoder.Token` returns under `UseNumber`; `marshal` is `json.Marshal`, `none` for its error; `digest` is
-- SHA-256 in hexadecimal; `marshal_version` is
-- `json.Marshal` of the resource type, the id, the data and the credential version of a record.
pub record Codec : Type 0 where
  pub tokens : Str → List Token
  pub marshal : Value → Option Str
  pub digest : Str → Str
  pub marshal_version : Str → Str → Str → Str → Option Str

abbrev pub maximum_depth : ℕ
maximum_depth = 64

abbrev pub maximum_nodes : ℕ
maximum_nodes = 10000

abbrev pub maximum_resource_bytes : ℕ
maximum_resource_bytes = 1048576

abbrev pub core_keys : List String
core_keys =
    "Operations" ∷ "Resources" ∷ "$ref" ∷ "active" ∷ "addresses" ∷ "attributes"
    ∷ "authenticationSchemes" ∷ "bulk" ∷ "bulkId" ∷ "caseExact" ∷ "changePassword" ∷ "country"
    ∷ "created" ∷ "data" ∷ "description" ∷ "display" ∷ "displayName" ∷ "emails" ∷ "endpoint"
    ∷ "entitlements" ∷ "excludedAttributes" ∷ "externalId" ∷ "failOnErrors" ∷ "familyName"
    ∷ "filter" ∷ "formatted" ∷ "givenName" ∷ "groups" ∷ "honorificPrefix" ∷ "honorificSuffix" ∷ "id"
    ∷ "ims" ∷ "itemsPerPage" ∷ "lastModified" ∷ "locale" ∷ "locality" ∷ "location" ∷ "maxOperations"
    ∷ "maxPayloadSize" ∷ "maxResults" ∷ "members" ∷ "meta" ∷ "method" ∷ "middleName" ∷ "multiValued"
    ∷ "mutability" ∷ "name" ∷ "nickName" ∷ "op" ∷ "password" ∷ "patch" ∷ "path" ∷ "phoneNumbers"
    ∷ "photos" ∷ "postalCode" ∷ "preferredLanguage" ∷ "primary" ∷ "profileUrl" ∷ "region"
    ∷ "required" ∷ "response" ∷ "returned" ∷ "roles" ∷ "schema" ∷ "schemaExtensions" ∷ "schemas"
    ∷ "sort" ∷ "startIndex" ∷ "status" ∷ "streetAddress" ∷ "subAttributes" ∷ "supported"
    ∷ "timezone" ∷ "title" ∷ "totalResults" ∷ "type" ∷ "uniqueness" ∷ "userName" ∷ "userType"
    ∷ "value" ∷ "version" ∷ "x509Certificates" ∷ []

module _ (u : Unicode) where
  pub spelled : List String → Map Str
  spelled [] = []
  spelled (k ∷ ks) = insert (u.to_lower (bytes k)) (bytes k) (spelled ks)

  -- `CoreKeyCases`: the known names by their lower case.
  unfoldable pub core_key_cases : Map Str
  unfolding spelled
  core_key_cases = spelled core_keys

  abbrev pub or_else : Str → Option Str → Str
  or_else key none = key
  or_else key (some known) = known

  -- The canonical spelling of a known name, and the name itself otherwise.
  unfoldable pub canonical : Map Str → Str → Str
  canonical table key = or_else key (lookup (u.to_lower key) table)

  abbrev pub is_present {ℓ} : {A : Type ℓ} → Option A → Bool
  is_present none = false
  is_present (some _) = true

  abbrev pub is_out_of_bounds : ℕ → ℕ → Bool
  is_out_of_bounds depth nodes = ltb maximum_depth depth || leb maximum_nodes nodes

  -- `decodeJSONValue` and its two loops. The counter `*nodes` and the rest of the input come back.
  mutual
    pub decode_value : ℕ → ℕ → ℕ → List Token → Result (Value × ℕ × List Token)
    decode_value zero depth nodes ts = err exhausted
    decode_value (suc fuel) depth nodes (text s ∷ ts) = do
      refuse (is_out_of_bounds depth nodes) fault
      ok (str s, nodes + 1, ts)
    decode_value (suc fuel) depth nodes (scalar v ∷ ts) = do
      refuse (is_out_of_bounds depth nodes) fault
      ok (scalar_value v, nodes + 1, ts)
    decode_value (suc fuel) depth nodes (open_brace ∷ ts) = do
      refuse (is_out_of_bounds depth nodes) fault
      (m, nodes', rest) ← decode_fields fuel depth (nodes + 1) [] [] ts
      ok (mk_obj m, nodes', rest)
    decode_value (suc fuel) depth nodes (open_bracket ∷ ts) = do
      refuse (is_out_of_bounds depth nodes) fault
      (vs, nodes', rest) ← decode_items fuel depth (nodes + 1) [] ts
      ok (mk_arr vs, nodes', rest)
    decode_value (suc fuel) depth nodes _ = err fault

    pub decode_fields : ℕ → ℕ → ℕ → Map Str → Object → List Token → Result (Object × ℕ × List Token)
    decode_fields zero depth nodes seen m ts = err exhausted
    decode_fields (suc fuel) depth nodes seen m (close_brace ∷ ts) = ok (m, nodes, ts)
    decode_fields (suc fuel) depth nodes seen m (text key ∷ ts) = do
      refuse (str_eq key [] || not (u.valid_utf8 key)) fault
      refuse (is_present (lookup (u.to_lower key) seen)) fault
      (v, nodes', rest) ← decode_value fuel (depth + 1) nodes ts
      decode_fields fuel depth nodes' (insert (u.to_lower key) key seen)
          (insert (canonical core_key_cases key) v m) rest
    decode_fields (suc fuel) depth nodes seen m _ = err fault

    pub decode_items : ℕ → ℕ → ℕ → List Value → List Token → Result (List Value × ℕ × List Token)
    decode_items zero depth nodes vs ts = err exhausted
    decode_items (suc fuel) depth nodes vs (close_bracket ∷ ts) = ok (vs, nodes, ts)
    decode_items (suc fuel) depth nodes vs [] = err fault
    decode_items (suc fuel) depth nodes vs (close_brace ∷ ts) = err fault
    decode_items (suc fuel) depth nodes vs (token ∷ ts) = do
      (v, nodes', rest) ← decode_value fuel (depth + 1) nodes (token ∷ ts)
      decode_items fuel depth nodes' (vs ++ (v ∷ [])) rest

  abbrev pub as_document : Option Object → Result Object
  as_document none = err fault
  as_document (some m) = ok m

  abbrev pub is_end : List Token → Bool
  is_end [] = true
  is_end _ = false

  module _ (c : Codec) where
    -- `DecodeDocument`
    unfoldable pub decode_document : Str → Result Object
    unfolding decode_value
    decode_document raw = do
      refuse (str_eq raw [] || ltb maximum_resource_bytes (length raw) || not (u.valid_utf8 raw))
          fault
      let ts = c.tokens raw
      (v, _, rest) ← decode_value (2 * length ts + 1) 0 0 ts
      refuse (not (is_end rest)) fault
      as_document (as_obj v)

    abbrev pub some_text : Option Str → Result Str
    some_text none = err fault
    some_text (some s) = ok s

    -- `canonicalDocument`
    unfoldable pub canonical_document : Object → Result Str
    canonical_document document = do
      encoded ← some_text (c.marshal (mk_obj document))
      refuse (str_eq encoded [] || ltb maximum_resource_bytes (length encoded)) fault
      ok encoded

    -- `cloneDocument`
    unfoldable pub clone_document : Object → Result Object
    unfolding decode_document canonical_document
    clone_document document = do encoded ← canonical_document document; decode_document encoded
