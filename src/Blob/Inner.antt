-- ===== src/Blob/Inner.antt =====
-- `BlobHandleInner` of storage/src/postgres/blob.rs: one statement for each method, in the
-- transaction that the handle holds open.
use Prim.Native.String.{String}
use locally_euclidean.Prelude.{
  ℕ, ℤ, pos, as_i64, as_i32, Outcome, ok, Exec, and_then, map_err, mapping_err, continue, ◌>>=◌,
  lift, ok_or, Bytes,
}
use locally_euclidean.Storage.{SeekFrom, start, current, end}
use locally_euclidean.Faults.{
  FileHandleError, transaction_begin_failed, transaction_commit_failed, empty_lseek64, empty_open,
  empty_read, empty_write, empty_close,
}
use locally_euclidean.Postgres.{Postgres}

pub data OpenMode : Type 0 where
  read_only read_write : OpenMode

-- `mode as i32`: `INV_READ`, and `INV_READ | INV_WRITE`.
open_flags : OpenMode → ℤ
open_flags read_only = pos 0x20000
open_flags read_write = pos 0x60000

-- `nix::unistd::Whence` as an `i32`, with the offset; a start offset is cast from u64 to i64.
seek_arguments : SeekFrom → ℤ × ℤ
seek_arguments (start n) = (as_i64 n, pos 0)
seek_arguments (current n) = (n, pos 1)
seek_arguments (end n) = (n, pos 2)

pub record BlobHandleInner (P : Postgres) : Type 0 where
  pub transaction : P.Tx
  pub fd_num : ℤ

module _ (P : Postgres) where
  -- `query.fetch_one(&mut *self.transaction).await.map_err(QueryFailed)?`
  abbrev in_transaction :
      {A : Type 0}
      → String
      → Exec P.Tx P.SqlError A
      → Exec (BlobHandleInner P) (FileHandleError P.SqlError) A
  in_transaction sql query self = (
    map_err (FileHandleError.query_failed sql) (query self.transaction).0,
    record self { transaction = (query self.transaction).1 },
  )

  unfoldable pub open_inner :
      P.Oid → OpenMode → P.Db → Outcome (FileHandleError P.SqlError) (BlobHandleInner P)
  unfolding open_flags
  open_inner oid mode db =
      and_then (map_err (transaction_begin_failed "lo_open") (P.begin db)) (λ tx.
        and_then
          (map_err (FileHandleError.query_failed "select lo_open($1, $2)")
            (P.lo_open oid (open_flags mode) tx).0)
          (λ handle. and_then (ok_or empty_open handle) (λ fd.
            ok (record { transaction = (P.lo_open oid (open_flags mode) tx).1; fd_num = fd }))))

  unfoldable pub lseek64 : SeekFrom → Exec (BlobHandleInner P) (FileHandleError P.SqlError) ℤ
  unfolding seek_arguments
  lseek64 seek self =
      (in_transaction "select lo_lseek64($1, $2, $3)"
            (P.lo_lseek64 self.fd_num (seek_arguments seek).0 (seek_arguments seek).1)
          >>= λ answer. lift (ok_or empty_lseek64 answer))
        self

  unfoldable pub read : ℕ → Exec (BlobHandleInner P) (FileHandleError P.SqlError) Bytes
  read count self =
      (in_transaction "select loread($1, $2)" (P.loread self.fd_num (as_i32 count)) >>= λ answer.
      lift (ok_or empty_read answer))
        self

  unfoldable pub write : Bytes → Exec (BlobHandleInner P) (FileHandleError P.SqlError) ℤ
  write bytes self =
      (in_transaction "select lowrite($1, $2)" (P.lowrite self.fd_num bytes) >>= λ answer.
      lift (ok_or empty_write answer))
        self

  -- Consumes the handle. Without the commit its writes are rolled back.
  unfoldable pub close : BlobHandleInner P → Exec P.Db (FileHandleError P.SqlError) Unit
  close self db =
      continue
        (map_err (FileHandleError.query_failed "select lo_close($1)")
          (P.lo_close self.fd_num self.transaction).0)
        (λ answer. continue (ok_or empty_close answer) (λ _.
          mapping_err (transaction_commit_failed "lo_close")
            (P.commit (P.lo_close self.fd_num self.transaction).1)))
        db
