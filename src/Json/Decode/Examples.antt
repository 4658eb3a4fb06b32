-- ===== src/Json/Decode/Examples.antt =====
-- The theorems on decoding at the document `{"a":[1]}`.
use gotth_scim.Base.{◌≤◌, Str, bytes, str_eq, lookup, insert, [], ◌∷◌, refl, ◌≡◌}
use gotth_scim.Failure.{ok, Settles}
use gotth_scim.Json.{mk_obj}
use gotth_scim.Json.Decode.{decode_document, core_key_cases, canonical, maximum_nodes}
use gotth_scim.Json.Decode.Size.{size}
use gotth_scim.Json.Decode.Names.{IsSound}
use gotth_scim.Json.Decode.Total.{decode_document-Settles, decode_document-IsSound}
use gotth_scim.Samples.{ascii, nested_codec, nested, lower, lower_byte, is_ascii}

abbrev document_text : Str
document_text = 123 ∷ 125 ∷ []

decoded : decode_document ascii nested_codec document_text ≡ ok nested
unfolding decode_document canonical core_key_cases lower lower_byte is_ascii lookup insert str_eq
    bytes
decoded = refl

decode_document-Settles_example : Settles (decode_document ascii nested_codec document_text)
decode_document-Settles_example = decode_document-Settles ascii nested_codec document_text

decode_document-IsSound_example :
    (size (mk_obj nested) ≤ maximum_nodes) × IsSound ascii 0 (mk_obj nested)
decode_document-IsSound_example =
    decode_document-IsSound ascii nested_codec document_text nested decoded
