-- ===== src/Blob/Awaited.antt =====
-- `BlobHandle` of storage/src/postgres/blob.rs as the callers use it: the polled methods awaited,
-- and tokio's adapters over them.
use locally_euclidean.Prelude.{ℕ, zero, suc, Bool, true, false, Outcome, panic, Exec, Bytes}
use locally_euclidean.Storage.{IoError, SeekFrom}
use locally_euclidean.Faults.{Fault}
use locally_euclidean.Postgres.{Postgres}
use locally_euclidean.Runtime.{Runtime}
use locally_euclidean.Blob.Handle.{
  BlobHandle, Poll, pending, ready, poll_read, start_seek, poll_complete, poll_write, poll_shutdown,
}

-- A poll that finds the operation finished is not `pending`: the first clause is not reached.
finished_with : {E A : Type 0} → Poll (Outcome E A) → Outcome E A
finished_with pending = panic
finished_with (ready r) = r

module _ {H E A : Type 0} where
  poll_again : Exec H E A → Poll (Outcome E A) → Exec H E A
  poll_again again pending h = again h
  poll_again again (ready r) h = (r, h)

  -- `.await`: polls until the answer is ready, here after `k` polls in which it is not.
  unfoldable pub await_poll : (Bool → H → Poll (Outcome E A) × H) → ℕ → Exec H E A
  unfolding finished_with poll_again
  await_poll poll zero h = (finished_with (poll true h).0, (poll true h).1)
  await_poll poll (suc k) h = poll_again (await_poll poll k) (poll false h).0 (poll false h).1

module _ (P : Postgres) (R : Runtime) where
  unfoldable pub blob_read : ℕ → Exec (BlobHandle P) (IoError (Fault P.SqlError)) Bytes
  unfolding await_poll poll_read
  blob_read n = await_poll (λ finished. poll_read P finished n) R.pendings

  unfoldable pub blob_write : Bytes → Exec (BlobHandle P) (IoError (Fault P.SqlError)) ℕ
  unfolding await_poll poll_write
  blob_write bytes = await_poll (λ finished. poll_write P finished bytes) R.pendings

  unfoldable pub blob_complete : Exec (BlobHandle P) (IoError (Fault P.SqlError)) ℕ
  unfolding await_poll poll_complete
  blob_complete = await_poll (poll_complete P) R.pendings

  -- `self.blob.seek(..).await`
  unfoldable pub blob_seek : SeekFrom → Exec (BlobHandle P) (IoError (Fault P.SqlError)) ℕ
  unfolding blob_complete start_seek
  blob_seek = R.seek (BlobHandle P) (Fault P.SqlError) blob_complete (start_seek P)

  -- `self.blob.write_all(..).await`
  unfoldable pub blob_write_all : Bytes → Exec (BlobHandle P) (IoError (Fault P.SqlError)) Unit
  unfolding blob_write
  blob_write_all = R.write_all (BlobHandle P) (Fault P.SqlError) blob_write

  -- `self.blob.shutdown().await`
  unfoldable pub blob_shutdown : Exec (BlobHandle P × P.Db) (IoError (Fault P.SqlError)) Unit
  unfolding await_poll poll_shutdown
  blob_shutdown = await_poll (poll_shutdown P) R.pendings
