-- ===== src/Failure/Response.antt =====
-- What a client sees of an error: `NewError` of pkg/scim/schemas.go, `writeStoreError` and
-- `writeProtocolError` of pkg/scim/server.go, `safeFailure` and `bulkFailure` of pkg/scim/bulk_execute.go.
-- A body is kept as its status, type and detail; its schema list is constant.
use gotth_scim.Base.{
  ℕ, ◌≤◌, Bool, false, ◌&&◌, ◌||◌, not, ◌≡◌, ltb, leb, if◌then◌else◌, arith, Str, bytes, has_byte,
  str_eq, [],
}
use gotth_scim.Failure.{
  Failure, protocol, not_found, conflict, precondition, tombstoned, fault, Result, ok, err, ◌>>◌,
  refuse,
}

pub record ErrorResponse : Type 0 where
  pub status : ℕ
  pub scim_type : Str
  pub detail : Str

-- strings.ContainsAny(detail, "\x00\r\n")
pub unsafe_detail : Str → Bool
unsafe_detail detail = has_byte 0 detail || has_byte 13 detail || has_byte 10 detail

new_error : ℕ → Str → Str → Result ErrorResponse
new_error status scim_type detail = do
  refuse (ltb status 400 || ltb 599 status || str_eq detail [] || unsafe_detail detail) fault
  ok (record { status = status; scim_type = scim_type; detail = detail })

-- The response when even the error cannot be built.
operation_failed : ErrorResponse
operation_failed = record { status = 500; scim_type = []; detail = bytes "SCIM operation failed" }

or_operation_failed : Result ErrorResponse → ErrorResponse
unfolding operation_failed
or_operation_failed (ok r) = r
or_operation_failed (err _) = operation_failed

-- The failure that `writeProtocolError` answers with: the error's own if its fields serve.
shown : Failure → Failure
shown (protocol status scim_type detail) =
    if leb 400 status && leb status 599 && not (str_eq detail [])
    then protocol status scim_type detail
    else protocol 500 [] (bytes "SCIM operation failed")
shown _ = protocol 500 [] (bytes "SCIM operation failed")

build : Failure → ErrorResponse
unfolding or_operation_failed new_error
build (protocol status scim_type detail) = or_operation_failed (new_error status scim_type detail)
build _ = operation_failed

write_protocol_error : Failure → ErrorResponse
unfolding shown build
write_protocol_error e = build (shown e)

pub write_store_error : Failure → ErrorResponse
unfolding write_protocol_error
write_store_error (protocol status scim_type detail) =
    write_protocol_error (protocol status scim_type detail)
write_store_error not_found =
    write_protocol_error (protocol 404 [] (bytes "SCIM resource was not found"))
write_store_error conflict =
    write_protocol_error
      (protocol 409 (bytes "uniqueness") (bytes "SCIM resource conflicts with existing state"))
write_store_error tombstoned =
    write_protocol_error
      (protocol 409 (bytes "uniqueness") (bytes "SCIM resource conflicts with existing state"))
write_store_error precondition =
    write_protocol_error (protocol 412 [] (bytes "SCIM resource precondition failed"))
write_store_error _ = write_protocol_error (protocol 500 [] (bytes "SCIM storage operation failed"))

pub safe_failure : Failure → ℕ × Str × Str
safe_failure (protocol status scim_type detail) = (status, scim_type, detail)
safe_failure not_found = (404, [], bytes "SCIM resource was not found")
safe_failure conflict =
    (409, bytes "uniqueness", bytes "SCIM resource conflicts with existing state")
safe_failure tombstoned =
    (409, bytes "uniqueness", bytes "SCIM resource conflicts with existing state")
safe_failure precondition = (412, [], bytes "SCIM resource precondition failed")
safe_failure _ = (500, [], bytes "SCIM storage operation failed")

-- The status and the body of a failed Bulk operation.
unfoldable pub bulk_failure : Failure → ErrorResponse
unfolding safe_failure or_operation_failed new_error
bulk_failure e =
    let (status, scim_type, detail) = safe_failure e in
    or_operation_failed (new_error status scim_type detail)

-- Whatever the error, a Bulk operation reports the status, the type and the detail that the same
-- error has as the answer to a request of its own.
pub bulk_failure-eq-write_store_error : (e : Failure) → bulk_failure e ≡ write_store_error e
unfolding bulk_failure write_store_error
bulk_failure-eq-write_store_error (protocol status scim_type detail) = ground arith
bulk_failure-eq-write_store_error _ = ground arith

-- The status of an error response lies in the range of HTTP errors, and its detail is not empty and
-- holds no NUL, no carriage return and no line feed, whatever error a handler or a store returns.
pub write_store_error_safe :
    (e : Failure)
    → (400 ≤ (write_store_error e).status)
      × ((write_store_error e).status ≤ 599)
      × (str_eq (write_store_error e).detail [] ≡ false)
      × (unsafe_detail (write_store_error e).detail ≡ false)
unfolding write_store_error unsafe_detail bytes str_eq has_byte
write_store_error_safe (protocol status scim_type detail) = ground arith
write_store_error_safe _ = ground arith
