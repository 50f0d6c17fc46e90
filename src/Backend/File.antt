-- ===== src/Backend/File.antt =====
-- `PostgresFileHandle` of storage/src/postgres/mod.rs: a file as a row of `files` and its blob.
use locally_euclidean.Prelude.{
  ℕ, pos, Option, none, some, Outcome, ok, panic, Exec, and_then, map_err, mapping_err, ◌>>◌, Bytes,
}
use locally_euclidean.Storage.{IoError, BoxError, io, backend, SeekFrom, end, FileMetadata}
use locally_euclidean.Faults.{FileHandleError, Fault, file_handle}
use locally_euclidean.Postgres.{Postgres}
use locally_euclidean.Runtime.{Runtime}
use locally_euclidean.Blob.Inner.{BlobHandleInner, read_write}
use locally_euclidean.Blob.Handle.{BlobHandle, open_blob, start_seek}
use locally_euclidean.Blob.Awaited.{
  blob_read, blob_complete, blob_seek, blob_write_all, blob_shutdown,
}

pub record PostgresFileHandle (P : Postgres) : Type 0 where
  pub blob : BlobHandle P
  pub id : P.Uuid

module _ (P : Postgres) where
  -- `PostgresFileHandle::new`
  unfoldable pub new_handle :
      P.Db → P.Oid → P.Uuid → Outcome (FileHandleError P.SqlError) (PostgresFileHandle P)
  unfolding open_blob
  new_handle db blob_oid id =
      and_then (open_blob P blob_oid read_write db) (λ blob. ok (record { blob = blob; id = id }))

module _ (P : Postgres) (R : Runtime) where
  -- The polled methods of a file are those of its blob (`self.project().blob`).
  abbrev on_blob : {E A : Type 0} → Exec (BlobHandle P) E A → Exec (PostgresFileHandle P) E A
  on_blob operation self = ((operation self.blob).0, record self { blob = (operation self.blob).1 })

  unfoldable pub file_read : ℕ → Exec (PostgresFileHandle P) (IoError (Fault P.SqlError)) Bytes
  unfolding blob_read
  file_read n = on_blob (blob_read P R n)

  unfoldable pub file_seek : SeekFrom → Exec (PostgresFileHandle P) (IoError (Fault P.SqlError)) ℕ
  unfolding blob_complete start_seek
  file_seek =
      R.seek (PostgresFileHandle P) (Fault P.SqlError) (on_blob (blob_complete P R))
        (λ position. on_blob (start_seek P position))

  -- `FileHandleOps::append`
  unfoldable pub append : Bytes → Exec (PostgresFileHandle P) (BoxError (Fault P.SqlError)) Unit
  unfolding blob_seek blob_write_all
  append bytes =
      mapping_err io (on_blob (blob_seek P R (end (pos 0))) >> on_blob (blob_write_all P R bytes))

  -- The statement of `FileHandleOps::metadata` in the handle's transaction; `TransactionWrapper`
  -- panics on a handle that is closed.
  metadata_in :
      P.Uuid
      → Option (BlobHandleInner P)
      → Outcome (BoxError (Fault P.SqlError)) FileMetadata × Option (BlobHandleInner P)
  metadata_in id none = (panic, none)
  metadata_in id (some inner) = (
    and_then
        (map_err
          (λ e. backend (
            file_handle
              (FileHandleError.query_failed "select updated_at from files where id = $1" e)))
          (P.select_updated_at id inner.transaction).0)
        (λ t. ok (record { last_modified_at = t })),
    some (record inner { transaction = (P.select_updated_at id inner.transaction).1 }),
  )

  unfoldable pub metadata : Exec (PostgresFileHandle P) (BoxError (Fault P.SqlError)) FileMetadata
  unfolding metadata_in
  metadata self = (
    (metadata_in self.id self.blob.inner).0,
    record self { blob = record self.blob { inner = (metadata_in self.id self.blob.inner).1 } },
  )

  -- `FileHandleOps::commit` consumes the handle.
  unfoldable pub commit : PostgresFileHandle P → Exec P.Db (BoxError (Fault P.SqlError)) Unit
  unfolding blob_shutdown
  commit self db =
      (map_err io (blob_shutdown P R (self.blob, db)).0, (blob_shutdown P R (self.blob, db)).1.1)
