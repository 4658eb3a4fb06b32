-- ===== src/Lib.antt =====
-- gotth-scim is a SCIM 2.0 server in Go. A request is decoded (pkg/scim/json.go), a resource is checked
-- against its schema (resource.go), creation and replacement apply the rules of mutability
-- (mutability.go), PATCH edits a copy of the document (patch_apply.go), and the result is stored in a
-- transaction (store.go, memory.go) under the preconditions of entity tags (etag.go). Queries carry
-- filters (filter_expression.go), which PATCH uses for value paths as well; a search (search.go) selects,
-- sorts, cuts and projects. A Bulk request (bulk.go, bulk_execute.go) runs several such writes in the order
-- that their references to one another allow, and a reconciliation (reconcile.go) makes a manager's
-- resources what it wants them to be. Errors become responses in server.go, schemas.go and
-- bulk_execute.go.
--
-- The files, with the code in pkg/scim that they model:
-- Base: lists, byte strings, maps, sorting, and the record `Unicode` of what Go's Unicode tables decide.
-- Failure, Failure/Response: protocol_error.go, and the rendering of errors by writeStoreError and
--   writeProtocolError of server.go, NewError of schemas.go, and bulkFailure and safeFailure of
--   bulk_execute.go. An error is a value of `Failure`; `fault` is any error that the program only passes on.
-- Etag and its children: etag.go, and evaluateWritePreconditions and entityTag of server.go.
-- Json, Json/Equal, Json/Decode and its children: json.go, CoreKeyCases of normalize.go, and the
--   equality of decoded values that reflect.DeepEqual decides.
-- Schema, Schema/Names, Schema/Resolve, Schema/Exact: the types and the tests on names of resource.go,
--   the resolution of attribute names of filter_expression.go, and ValidateSchemas of schemas.go.
-- Store, Store/Memory and its children, Store/Versions: store.go, memory.go and record.go.
--   The state is a record of two association lists, and each method of a transaction is a function to
--   the next state or an error. A transaction holds the store's lock from its start to its end, so that
--   a history of the store is a list of writes.
-- Filter and its children: filter_expression.go. The parser's position is the list of tokens left.
-- Patch and its children: patch.go (DecodePatch, validAttributePath) and patch_apply.go.
-- Mutability and its children: mutability.go.
-- Resource and its children: prepareResource and what it calls, of resource.go.
-- Server and its children: create, replace, patch and remove of server.go, and credentials.go. A request is
--   a function from the store to its result and the next store; the clock, the fresh id and the
--   cancellation of its context are values that come with it.
-- Search and its children: search.go, from a request to a page of projected documents.
-- Bulk and its children: bulk.go and bulk_execute.go. The scheduling (Bulk/Schedule) takes the execution of
--   an operation as a parameter, which Bulk/Execute fills with the writes of the server.
-- Reconcile and its children: reconcile.go. The entropy of a run is a function from the number of identifiers
--   drawn to the next one.
-- Samples and the modules named Examples: concrete functions for the parameters, and runs.
--
-- Code in place becomes functions to the new value; a Go map is an association list, whose order is the
-- one in which one run visits the map. Strings are lists of bytes. Parameters stand for encoding/json and
-- SHA-256 (`Codec`), for Unicode tables (`Unicode`), for strconv, time and math/big (`Literals`), for
-- net/url, base64 and precis (`Syntax`), for encoding/json and net/url in Bulk requests (`Wire`), for the
-- consumer's Validate functions (`Callbacks`) and for its password store (`Config`). `Site` is what a Bulk
-- request finds on the server, with the printing of a URL (resourceLocation) and encoding/json for PATCH.
-- Sorting is insertion by the code's test, which agrees with sort.SliceStable where the test is an order.
--
-- Fuel: the entity-tag loop and the lexer have one round more than the text has bytes, the JSON decoder
-- twice the number of tokens and one more, a loop of the filter parser one round more than the tokens
-- that are left, and its recursion twelve levels, of three units of depth each, where the code stops at
-- a depth of 32. Running out is the failure `exhausted`, which the program does not have. The outer loop of
-- a Bulk request has one round for each operation.
--
-- Not modelled: HTTP routing and rendering in server.go; in search.go the decoding of a request, the
-- combination of several definitions and the collection of candidates; NewRegistry and the tables of
-- resource.go; validateEnterpriseUser, which is one of the Validate functions; filter.go and id.go. clearSecret overwrites memory. The copy of the state on
-- which a transaction works has no counterpart, since values are not shared. discovery.go and
-- conformance.go are constant documents and a test suite.
pub mod Base
pub mod Samples
pub mod Failure
pub mod Etag
pub mod Json
pub mod Schema
pub mod Store
pub mod Filter
pub mod Patch
pub mod Mutability
pub mod Resource
pub mod Server
pub mod Search
pub mod Bulk
pub mod Reconcile
