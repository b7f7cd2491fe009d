-- ===== src/Lib.antt =====
-- Embedded Alerts API: a verification library for the rules that decide who may do what.
--
-- The program is an HTTP and WebSocket server. A request carries a signed token
-- (src/auth_runtime.rs) or, in development, trusted headers (src/tenant.rs). Its handlers
-- (src/server_routes.rs) validate it, run the statements of a store on PostgreSQL and send events.
-- Alert rules are normalised and validated (src/alerts.rs), name the sources that they search
-- (src/source_scope.rs), and are kept with their revisions (src/alert_store.rs). A query is split
-- into weighted inputs (crates/query/src/lib.rs), which a provider turns into one vector
-- (src/query_embedding.rs, crates/interfaces-compat/src/lib.rs). A crawler with its own token
-- (src/worker_auth.rs) stores pages of allowed URLs (src/indexing.rs), which searches and evaluations
-- of rules then find (src/store.rs), or has a page matched against the rules as it arrives
-- (src/reverse_match.rs). The server migrates its database (src/migrations.rs), starts under a policy
-- and streams events to their audience (src/server_runtime.rs, src/server_websocket.rs). Errors are
-- HTTP responses (src/error.rs).
--
-- Which file models what. A function keeps its name; a loop is a function of its own beside it, and
-- a long function is split at its helper steps, which the comments name.
--   SourceScope   src/source_scope.rs: filters, their canonical form, the scope of a search
--   Alerts        src/alerts.rs: CreateAlertRule, normalized, validate
--   Auth          src/auth_runtime.rs: Context (AuthContext), Roles (role sets, claim paths, cookie
--                 names), Config (AuthConfig and the environment), Jwt (JwtVerifier::verify),
--                 Credentials (headers and cookies, authenticate_at)
--   Tenant        src/tenant.rs
--   HttpError     src/error.rs
--   Query         crates/query/src/lib.rs: Words (tokens, keywords, entities), Analysis
--   Embedding     src/query_embedding.rs and crates/interfaces-compat/src/lib.rs: Service (endpoint
--                 and replies), Vectors (validation and the weighted centroid)
--   WorkerAuth    src/worker_auth.rs
--   Indexing      src/indexing.rs
--   Migrations    src/migrations.rs
--   Contracts     the requests of the contract crate eal-interfaces
--   Store         Rows (the tables), Action (calls on them), Order (ORDER BY and JOIN), Engine (what
--                 the statements take from PostgreSQL), Encoders, Rules (src/alert_store.rs),
--                 Sources, Ingest, Search and Matches (src/store.rs), Pages and Identity (what
--                 src/store.rs and src/reverse_match.rs share), Reverse (src/reverse_match.rs)
--   Server        src/server_runtime.rs and src/server_websocket.rs: Startup (main up to the router,
--                 the startup policy, origins, health) and Events (visibility and the sending loop);
--                 Routes (src/server_routes.rs with publish_event and require_database): its
--                 handlers list_sources, get_source, create_source, ingest_page, search_embeddings
--                 and evaluate_matches have a _route behind their name
--   Prelude, Text, Headers, Json, Floats, Uuids, Urls
--                 shared helpers, Rust's strings and sets, and the libraries' types
--   Tests         runs on concrete inputs
--
-- State and errors. `?` is the bind of Result, and a do block keeps the order of the checks. The
-- process environment, with what a .env file adds to it, is a partial function from names to values.
-- A text is the list of its code points, and byte lengths are those of UTF-8. A BTreeSet is a
-- strictly increasing list under a total order, and every operation on it keeps this. An i64 is an
-- integer with the source's saturating operations and range tests written out. All loops are
-- structural recursion on the list that they run over, so there is no fuel, but for the digits of a
-- decimal number: as many as the number itself plus one.
--
-- The tables are lists of rows in one record, Store, and a call of a store is an Action: from the
-- tables to its result and the tables that it leaves, also where it fails. A statement that fails
-- leaves the tables as they were, and so does a transaction. The parts of one WITH statement all read
-- the tables as they were when it began, pass rows on to each other by RETURNING, and update a row at
-- most once. The time of a call and the identifiers that Rust draws are arguments; an identifier that
-- PostgreSQL draws comes from Constraints. An INSERT or UPDATE of a row goes through unless
-- Constraints refuses it, which stands for the constraints, the triggers and a lost connection alike;
-- where an INSERT has an ON CONFLICT clause, the checks of the proposed row alone come before it. A
-- double that passes through JSON from PostgreSQL is what serde_json reads of it (Numbers.from_json);
-- a 32-bit number is taken to be read exactly.
-- A row that a LIMIT 1 without an ORDER BY selects is the first one; a unique index leaves only one.
-- A vector is kept as the literal that is cast to it. A world of the handlers is the tables and the
-- events that have been sent.
--
-- Parameters. The code of other packages is not modelled: UUID conversion (Uuids), base64, JSON
-- parsing and HMAC (Auth.Jwt.Codecs), header values as text (Headers.HeaderText), the url crate
-- (Urls, with laws of its setters for the removal of a part, of URLs that can be a base), SHA-256 and
-- hexadecimal decoding (WorkerAuth.Digests), floating-point numbers (Floats and
-- Embedding.Vectors.Doubles), the HTTP client's replies (Embedding.Service.Reply),
-- Unicode tables (Query.Words.CharClasses), the contract crate (Query.Analysis.Contracts and
-- Contracts), the database driver with the SQL of the migrations (Migrations.Databases), the
-- arithmetic and order of f32, f64, real and double precision with the distance of vectors
-- (Store.Engine.Numbers), whether PostgreSQL admits a row (Store.Engine.Constraints), and hexadecimal
-- and JSON encoding (Store.Encoders). Their records name what is
-- called, with the laws that the proofs use; Tests gives each a concrete instance.
--
-- Not modelled: the SQL of the migrations with its triggers and its row-level security, for which
-- set_request_context of src/alert_store.rs sets the tenant and the subject (the statements name both
-- again, and these clauses are modelled); reads that fail because the connection is lost; redirects that the HTTP
-- client follows before it has a reply; two
-- requests whose statements interleave; the JSON explanation stored with a match; the WebSocket
-- upgrade and the receiving task; the table of routes, request extraction, logging, CORS headers, the
-- command-line probe (src/bin/semantic_query_probe.rs) and the network itself.
pub mod Prelude
pub mod Text
pub mod Uuids
pub mod SourceScope
pub mod Floats
pub mod HttpError
pub mod Alerts
pub mod Json
pub mod Headers
pub mod Tenant
pub mod Auth
pub mod Query
pub mod Urls
pub mod Indexing
pub mod WorkerAuth
pub mod Migrations
pub mod Server
pub mod Embedding
pub mod Contracts
pub mod Store
pub mod Tests
