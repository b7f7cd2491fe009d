-- ===== src/Store.antt =====
-- The PostgreSQL tables that src/alert_store.rs, src/store.rs and src/reverse_match.rs read and
-- write, each a list of its rows in the order of their insertion, and what the statements need of
-- the machine and of the database.
--
-- A statement of the source is an operation on these tables: WHERE and JOIN keep rows, ORDER BY
-- sorts, LIMIT takes. The connection is taken by a role that bypasses row-level security, as
-- migration 002 says of the service role; so `set_request_context`, which only sets what the
-- policies read, has no part in the model.
pub mod Rows
pub mod Action
pub mod Order
pub mod Engine
pub mod Rules
pub mod Encoders
pub mod Identity
pub mod Sources
pub mod Pages
pub mod Ingest
pub mod Search
pub mod Matches
pub mod Reverse
