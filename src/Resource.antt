-- ===== src/Resource.antt =====
-- The preparation of a resource for the store: pkg/scim/resource.go. The code changes a copy of the
-- document in place; here each step returns the new document.
pub mod Clean
pub mod Values
pub mod Schemas
pub mod Shapes
pub mod Prepare
pub mod Primary
mod Examples
use gotth_scim.Base.{ℕ, Bool, Str, Option}
use gotth_scim.Failure.{Result}
use gotth_scim.Json.{Object}
use gotth_scim.Schema.{Extension, Definition}

-- A parsed URL, of net/url: the scheme, empty if there is none, and whether there is user information.
pub record Url : Type 0 where
  pub scheme : Str
  pub has_user : Bool

-- net/url, encoding/base64 and golang.org/x/text/secure/precis, as the code uses them; `none` is an error.
-- `prepare_username` is `UsernameCasePreserved.String` and `prepare_password` is `OpaqueString.String`.
pub record Syntax : Type 0 where
  pub parse_url : Str → Option Url
  pub is_base64 : Str → Bool
  pub prepare_username : Str → Option Str
  pub prepare_password : Str → Option Str

-- The `Validate` functions of the consumer, which may change the object that they are given; one that is
-- nil admits it as it is. The flag says whether the resource is created.
pub record Callbacks : Type 0 where
  pub validate_resource : Definition → Bool → Object → Result Object
  pub validate_extension : Extension → Object → Result Object
