-- ===== src/Backend.antt =====
-- storage/src/postgres/mod.rs: files (Backend/File), buckets and the tables (Backend/Bucket), and the
-- storage layer that they make up (Backend/Traits). The other modules are about this layer over a
-- server that keeps its laws, up to Backend/Refinement.
pub mod File
pub mod Bucket
pub mod Traits
pub mod View
pub mod Holds
pub mod Times
pub mod Opens
pub mod Insert
pub mod Commit
pub mod Window
pub mod Adapters
pub mod Append
pub mod Fulfils
pub mod Refinement
pub mod Cleanup
pub mod Dates
pub mod Life
pub mod Create
