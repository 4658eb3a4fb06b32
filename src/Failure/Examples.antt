-- ===== src/Failure/Examples.antt =====
-- The theorems on responses at two errors.
use gotth_scim.Base.{◌≤◌, false, [], ◌∷◌, str_eq, ◌≡◌}
use gotth_scim.Failure.{protocol, conflict}
use gotth_scim.Failure.Response.{
  bulk_failure, write_store_error, unsafe_detail, bulk_failure-eq-write_store_error,
  write_store_error_safe,
}

bulk_failure-eq-write_store_error_example :
    bulk_failure (protocol 409 [] (65 ∷ [])) ≡ write_store_error (protocol 409 [] (65 ∷ []))
bulk_failure-eq-write_store_error_example =
    bulk_failure-eq-write_store_error (protocol 409 [] (65 ∷ []))

write_store_error_safe_example :
    (400 ≤ (write_store_error conflict).status)
    × ((write_store_error conflict).status ≤ 599)
    × (str_eq (write_store_error conflict).detail [] ≡ false)
    × (unsafe_detail (write_store_error conflict).detail ≡ false)
write_store_error_safe_example = write_store_error_safe conflict
