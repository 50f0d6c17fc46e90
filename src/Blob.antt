-- ===== src/Blob.antt =====
-- storage/src/postgres/blob.rs: files as Postgres large objects. Blob/Inner has `BlobHandleInner`,
-- thin wrappers of the server's functions; Blob/Handle has `BlobHandle`, the polled file handle over
-- it; Blob/Polls and Blob/Awaited have what is proved of a handle, polled and awaited.
pub mod Inner
pub mod Handle
pub mod Awaited
pub mod Polls
pub mod Bounds
pub mod Contents
pub mod Adapters
