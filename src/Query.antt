-- ===== src/Query.antt =====
-- crates/query/src/lib.rs: a query as one complete text with keyword and entity views. The
-- contract crate's limits, its validation and Rust's tables of character classes are parameters.
pub mod Words
pub mod Analysis
