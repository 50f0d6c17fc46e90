-- ===== src/Faults.antt =====
-- The error types of the Postgres backend: `FileHandleError` of storage/src/postgres/blob.rs,
-- `BucketError` of storage/src/postgres/mod.rs, and what the backend's boxed errors hold.
use Prim.Native.String.{String}

pub data FileHandleError (E : Type 0) : Type 0 where
  query_failed : String → E → FileHandleError E
  transaction_begin_failed : String → E → FileHandleError E
  transaction_commit_failed : String → E → FileHandleError E
  empty_lseek64 : FileHandleError E
  empty_open : FileHandleError E
  empty_read : FileHandleError E
  empty_write : FileHandleError E
  empty_close : FileHandleError E
  is_shutdown : FileHandleError E

pub data BucketError (E : Type 0) : Type 0 where
  query_failed : String → E → BucketError E

-- A fault of the backend, as `std::io::Error::other` and `Box<dyn Error>` hold it.
pub data Fault (E : Type 0) : Type 0 where
  file_handle : FileHandleError E → Fault E
  bucket : BucketError E → Fault E
  sql : E → Fault E
