-- ===== src/Server/Samples.antt =====
-- Sample parameters of the server, in place of its libraries and its configuration.
use gotth_scim.Base.{true, false, bytes, has_byte, none, some, [], ◌∷◌, refl}
use gotth_scim.Failure.{ok}
use gotth_scim.Json.Decode.{Codec, open_brace, close_brace, open_bracket, close_bracket, text}
use gotth_scim.Schema.{Definition, none_left}
use gotth_scim.Store.Memory.Consistent.{IsConsistent}
use gotth_scim.Resource.{Syntax, Callbacks}
use gotth_scim.Samples.{ascii, codec, stored}
use gotth_scim.Server.{Config, Context}

abbrev pub syntax : Syntax
syntax = record {
  parse_url = λ s. none;
  is_base64 = λ s. true;
  prepare_username = λ s. some s;
  prepare_password = λ s. some s;
}

abbrev pub callbacks : Callbacks
callbacks = record { validate_resource = λ d creating r. ok r; validate_extension = λ e r. ok r }

abbrev pub config : Config
config = record { weak_etags = false; change_password = false; set_password = none }

-- Every text stands for `{"schemas":["S"]}`.
abbrev pub schemas_codec : Codec
schemas_codec = record codec {
  tokens = λ s.
      open_brace
      ∷ text (bytes "schemas")
      ∷ open_bracket
      ∷ text (83 ∷ [])
      ∷ close_bracket
      ∷ close_brace
      ∷ [];
}

abbrev pub users : Definition
users = record {
  name = 85 ∷ [];
  endpoint = 85 ∷ [];
  schema = 83 ∷ [];
  description = [];
  attributes = none_left;
  unique_attribute = [];
  filter_attributes = [];
  extensions = [];
}

abbrev pub context : Context
context = record {
  scope = 115 ∷ [];
  now = 2;
  fresh_id = ok (50 ∷ []);
  cancelled_before = false;
  cancelled_after = false;
}

pub stored-IsConsistent : IsConsistent ascii stored
unfolding has_byte
stored-IsConsistent = record { keyed = ((refl, refl, refl), tt); apart = (tt, tt); buried = tt }
