-- ===== src/Storage.antt =====
-- storage/src/lib.rs: the error types of the storage layer, and the traits `StorageBackend`,
-- `Bucket` and `FileHandleOps` (with the `AsyncRead` and `AsyncSeek` that it asks for) as one record
-- of operations.
--
-- A backend's own errors are the type parameter `F`; `World` is what the operations of the backend
-- read and write (the database); a file handle is a value of its own, so that dropping a handle is
-- forgetting the value. The calls of tokio's `seek`, `read_exact` and `read_u8` on a handle are
-- fields beside the traits' own methods.
pub mod Contract
use Prim.Native.String.{String}
use locally_euclidean.Prelude.{ℕ, ◌<◌, ℤ, pos, negsuc, Outcome, Exec, Bytes, List}

-- `std::io::Error`, by its kind; `other` wraps a backend's error (`std::io::Error::other`).
pub data IoError (F : Type 0) : Type 0 where
  unexpected_eof : IoError F
  write_zero : IoError F
  other : F → IoError F

-- `Box<dyn Error>`
pub data BoxError (F : Type 0) : Type 0 where
  io : IoError F → BoxError F
  backend : F → BoxError F

pub data FileOpenError (F : Type 0) : Type 0 where
  does_not_exist : FileOpenError F
  invalid_name : FileOpenError F
  other_error : BoxError F → FileOpenError F

pub data FileCreateError (F : Type 0) : Type 0 where
  file_exists : FileCreateError F
  invalid_name : FileCreateError F
  other_error : BoxError F → FileCreateError F

-- `std::io::SeekFrom`
pub data SeekFrom : Type 0 where
  start : ℕ → SeekFrom
  current : ℤ → SeekFrom
  end : ℤ → SeekFrom

-- A time that a header can give, in microseconds: from 1970 to the end of the year 9999.
abbrev pub IsDate : ℤ → Type 0
IsDate (pos t) = t < 253_402_300_800_000_000
IsDate (negsuc t) = ⊥

pub record FileMetadata : Type 0 where
  pub last_modified_at : ℤ

pub record Storage : Type 1 where
  pub Fault : Type 0
  pub World : Type 0
  pub Bucket : Type 0
  pub FileHandle : Type 0
  -- `StorageBackend::bucket`
  pub bucket : World → String → Outcome (FileOpenError Fault) Bucket
  -- `Bucket::file`, `Bucket::create_file`
  pub file : World → Bucket → String → Outcome (FileOpenError Fault) FileHandle
  pub create_file : Bucket → String → Exec World (FileCreateError Fault) FileHandle
  -- `AsyncSeek` and `AsyncRead`, awaited
  pub seek : SeekFrom → Exec FileHandle (IoError Fault) ℕ
  pub read : ℕ → Exec FileHandle (IoError Fault) Bytes
  pub read_exact : ℕ → Exec FileHandle (IoError Fault) Bytes
  pub read_u8 : Exec FileHandle (IoError Fault) ℕ
  -- The first items of tokio's `ReaderStream` of the given capacity over the handle.
  pub reader_stream : ℕ → ℕ → FileHandle → List (Outcome (IoError Fault) Bytes)
  -- `FileHandleOps::append`, `metadata`, `commit`
  pub append : Bytes → Exec FileHandle (BoxError Fault) Unit
  pub metadata : Exec FileHandle (BoxError Fault) FileMetadata
  pub commit : FileHandle → Exec World (BoxError Fault) Unit
