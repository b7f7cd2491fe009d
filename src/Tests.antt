-- ===== src/Tests.antt =====
-- Runs of the model on concrete inputs, and an application of each theorem that has hypotheses.
pub mod Instances
pub mod Filters
pub mod Rules
pub mod Config
pub mod Tokens
pub mod Queries
pub mod Sites
pub mod Starts
pub mod Tables
pub mod Stores
pub mod Indexes
pub mod Searches
pub mod Streams
pub mod Handlers
pub mod Embeddings
