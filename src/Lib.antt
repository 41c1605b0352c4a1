-- ===== src/Lib.antt =====
-- Verification library of xuandu-gateway, a gateway that publishes the HTTP routes of thrift
-- services and offers them as MCP tools.
--
-- The parts of the program and how they interact. An administrator imports a ZIP archive of IDL
-- files: internal/archiveidl downloads and unpacks it, internal/idl checks its includes and extracts
-- the routes, internal/metadata keeps it in Consul, and internal/runtime builds a runtime of it and
-- publishes it in a snapshot; internal/admin does this on request, and brings the snapshot to the
-- catalog in Consul whenever that changes. A request takes a lease of the current snapshot, which keeps the
-- snapshot's runtimes open: internal/httpgateway chooses the route by domain and application code
-- and calls internal/executor, which maps errors with internal/apperr. internal/mcp keeps a catalog
-- of servers, tools and keys in Consul, compiles it for a snapshot, and authorizes its requests.
--
-- Which file models which part:
--   Prelude         shared names, lists, texts, maps, results, and paths of Go's package path
--   Platform        what the program calls of Go's standard library, as parameters
--   Idl             internal/idl: Ast (the syntax tree read), Routes (routes.go: ExtractRoutes and
--                   isStruct), Loader (loader.go: LoadArchive)
--   Archive         internal/archiveidl/fetcher.go: Unpack and HTTPFetcher.Resolve
--   Metadata        internal/metadata: Domain (domain.go), Model (model.go), Consul (the store, a
--                   parameter with laws), Contracts (contracts.go), Store and Watch
--                   (consul_store.go), Backend (the interfaces Store and CatalogStore)
--   Router          internal/router/table.go: Build and Match; Kitex's tree is a parameter
--   Runtime         internal/runtime: Heap (runtime.go: the cells of shared runtimes), Manager
--                   (snapshot.go: one function for each hold of the mutex), System (snapshot.go: the
--                   interleavings of Acquire, Release, Publish and Close as a step relation),
--                   Builder (builder.go and multi_client.go)
--   Admin           internal/admin/service.go: the state and the shared steps; Reconcile, Requests,
--                   Operations (CreateApp, UpdateAppWithRequest, DeleteApp) and Views (List, Get,
--                   Ready, Stop); Life (operations and leases as events), Wired (the service with
--                   the builder). Proofs: Protocol (each operation as a run that leaves no
--                   candidate), Desired (what is published), Outcome (what an operation has done)
--   Config          internal/config/config.go: Load and Validate
--   Failures        internal/apperr/mapper.go: FromCommon and Map
--   Executor        internal/executor/executor.go: Execute
--   Gateway         internal/httpgateway/handler.go: Serve
--   Logging         internal/logging/file.go: open, Write, rotate and Close on file sizes
--   Mcp             internal/mcp: Model and Validate (model.go), Mutate (the switch of
--                   Service.Mutate), Build (Service.build), Serve (Service.ServeHTTP), Call
--                   (Service.call), View (Service.View and Tools), Service (ConsulRepository,
--                   Service.Refresh and the whole of Service.Mutate)
--   Examples        witnesses on a small world of concrete parameters
--
-- How state and operations correspond to the code. A Go string or byte slice is a Text, the list of
-- its bytes; a map is an association list, read by the first entry of a key, and a range over it goes
-- in list order, one of the orders of Go. A pair (value, error) is a Result; the errors of a part are
-- one data type with a constructor for each message. Objects shared by pointer are cells of a heap.
-- State is passed explicitly, and the state of a foreign service is a type variable W with the
-- functions on it as parameters. Each function that can return early is a chain of `refuse` in the
-- order of the code.
--
-- The functions of package strings that fold case or trim do so for ASCII only, where Go's know all
-- of Unicode: what they make of other letters and spaces is outside the model.
--
-- Bounds and fuel. Numbers are natural numbers; the code's counters stay far below 2 ^ 63 by its own
-- limits. A reference counter and the count of active leases are decremented once for each
-- increment, so that the difference that stops at 0 is the code's. The recursion over includes has
-- fuel for each file and one more, since a name that is being visited is not entered again; isStruct
-- has the code's own depth of 33; chunks and parents of a path have the length of the archive or of
-- the name as fuel, each round taking a byte or more.
--
-- Not modelled: Service.OpenAPI of internal/admin, internal/openapi and internal/mcp/compiler.go
-- (JSON documents; parameters of Mcp.Build and Mcp.Call), the HTTP bindings of internal/admin and
-- internal/mcp, logging's Tee, the configuration of the Consul client, internal/app and cmd (wiring),
-- web and benchmark (no core logic). Logs, timeouts of contexts and listeners are left out, and JSON,
-- YAML and Kitex are parameters.
pub mod Prelude
pub mod Platform
pub mod Idl
pub mod Archive
pub mod Metadata
pub mod Router
pub mod Runtime
pub mod Admin
pub mod Config
pub mod Mcp
pub mod Failures
pub mod Executor
pub mod Gateway
pub mod Logging
pub mod Examples
