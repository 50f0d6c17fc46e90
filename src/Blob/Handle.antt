-- ===== src/Blob/Handle.antt =====
-- `BlobHandle` of storage/src/postgres/blob.rs: `AsyncRead`, `AsyncSeek` and `AsyncWrite` as polled
-- methods over at most one operation in progress.
--
-- The operation in progress is kept as its future, which sends its one statement to the server when it
-- is polled for the first time, so that a future that is dropped and made anew would send it again. A
-- future that has been polled is kept as the server's answer, which a later poll finds; the first
-- argument of a poll says whether this one does. Only a seek is started without a poll. A poll that
-- panics is `ready panic`.
use locally_euclidean.Prelude.{
  ℕ, ◌*◌, min, ℤ, pos, negsuc, Bool, true, false, Option, none, some, Outcome, ok, err, panic, Exec,
  and_then, map_err, Bytes, length, leb, if◌then◌else◌,
}
use locally_euclidean.Storage.{IoError, other, SeekFrom}
use locally_euclidean.Faults.{FileHandleError, is_shutdown, Fault, file_handle}
use locally_euclidean.Postgres.{Postgres}
use locally_euclidean.Blob.Inner.{
  BlobHandleInner, OpenMode, open_inner, lseek64, read, write, close,
}

pub data FileHandleState (P : Postgres) : Type 0 where
  reading : Outcome (FileHandleError P.SqlError) Bytes → FileHandleState P
  seeking : SeekFrom → Option (Outcome (FileHandleError P.SqlError) ℤ) → FileHandleState P
  writing : Outcome (FileHandleError P.SqlError) ℤ → FileHandleState P
  shutting_down : Outcome (IoError (Fault P.SqlError)) Unit → FileHandleState P

pub record BlobHandle (P : Postgres) : Type 0 where
  pub inner : Option (BlobHandleInner P)
  pub state : Option (FileHandleState P)
  pub position : ℕ

pub data Poll (A : Type 0) : Type 0 where
  pending : Poll A
  ready : A → Poll A

-- The constant that the source calls `MIB`.
unfoldable pub mib : ℕ
mib = 2 * 1024 * 1024

module _ (P : Postgres) where
  abbrev pub IoResult : Type 0 → Type 0
  IoResult A = Outcome (IoError (Fault P.SqlError)) A

  -- `std::io::Error::other`
  abbrev pub io_other : FileHandleError P.SqlError → IoError (Fault P.SqlError)
  io_other e = other (file_handle e)

  unfoldable pub open_blob :
      P.Oid → OpenMode → P.Db → Outcome (FileHandleError P.SqlError) (BlobHandle P)
  unfolding open_inner
  open_blob oid mode db =
      and_then (open_inner P oid mode db)
        (λ inner. ok (record { inner = some inner; state = none; position = 0 }))

  -- `inner.lock_owned().await.as_mut().ok_or(IsShutdown)?`, and an operation on it
  unfoldable pub with_inner :
      {A : Type 0}
      → Exec (BlobHandleInner P) (FileHandleError P.SqlError) A
      → Exec (Option (BlobHandleInner P)) (FileHandleError P.SqlError) A
  with_inner operation none = (err is_shutdown, none)
  with_inner operation (some inner) = ((operation inner).0, some (operation inner).1)

  -- `buf.put_slice(&data)` panics if the buffer has not the room.
  unfoldable pub put_slice : ℕ → Outcome (FileHandleError P.SqlError) Bytes → IoResult Bytes
  put_slice remaining (ok bytes) = if leb (length bytes) remaining then ok bytes else panic
  put_slice remaining (err e) = err (io_other e)
  put_slice remaining panic = panic

  -- `written.try_into().expect("wrote negative amount?")`
  unfoldable pub amount : Outcome (FileHandleError P.SqlError) ℤ → IoResult ℕ
  amount (ok (pos n)) = ok n
  amount (ok (negsuc n)) = panic
  amount (err e) = err (io_other e)
  amount panic = panic

  -- `ready!(future.as_mut().poll(cx))`, and what is done with the result.
  continue_read :
      Bool
      → ℕ
      → Outcome (FileHandleError P.SqlError) Bytes
      → BlobHandle P
      → Poll (IoResult Bytes) × BlobHandle P
  continue_read false remaining answer self = (pending, self)
  continue_read true remaining answer self =
      (ready (put_slice remaining answer), record self { state = none })

  poll_read_in :
      Option (FileHandleState P) → Bool → ℕ → BlobHandle P → Poll (IoResult Bytes) × BlobHandle P
  poll_read_in (some (reading answer)) finished remaining self =
      continue_read finished remaining answer self
  poll_read_in (some _) finished remaining self = (ready panic, self)
  poll_read_in none finished remaining self =
      let asked = with_inner (read P (min remaining (8 * mib))) self.inner in
      continue_read finished remaining asked.0
        (record self { inner = asked.1; state = some (reading asked.0) })

  unfoldable pub poll_read : Bool → ℕ → BlobHandle P → Poll (IoResult Bytes) × BlobHandle P
  unfolding poll_read_in continue_read put_slice with_inner mib
  poll_read finished remaining self = poll_read_in self.state finished remaining self

  -- Whatever was in progress is replaced.
  unfoldable pub start_seek : SeekFrom → Exec (BlobHandle P) (IoError (Fault P.SqlError)) Unit
  start_seek position self = (ok tt, record self { state = some (seeking position none) })

  -- What `poll_complete` makes of the seek's result: `self.position` is set on success.
  unfoldable pub end_seek : IoResult ℕ → BlobHandle P → Poll (IoResult ℕ) × BlobHandle P
  end_seek (ok n) self = (ready (ok n), record self { position = n })
  end_seek (err e) self = (ready (err e), self)
  end_seek panic self = (ready panic, self)

  continue_seek :
      Bool
      → Outcome (FileHandleError P.SqlError) ℤ
      → BlobHandle P
      → Poll (IoResult ℕ) × BlobHandle P
  continue_seek false answer self = (pending, self)
  continue_seek true answer self = end_seek (amount answer) (record self { state = none })

  poll_complete_in :
      Option (FileHandleState P) → Bool → BlobHandle P → Poll (IoResult ℕ) × BlobHandle P
  poll_complete_in (some (seeking position none)) finished self =
      let asked = with_inner (lseek64 P position) self.inner in
      continue_seek finished asked.0
        (record self { inner = asked.1; state = some (seeking position (some asked.0)) })
  poll_complete_in (some (seeking position (some answer))) finished self =
      continue_seek finished answer self
  poll_complete_in (some _) finished self = (ready panic, self)
  poll_complete_in none finished self = (ready (ok self.position), self)

  unfoldable pub poll_complete : Bool → BlobHandle P → Poll (IoResult ℕ) × BlobHandle P
  unfolding poll_complete_in continue_seek end_seek amount with_inner
  poll_complete finished self = poll_complete_in self.state finished self

  continue_write :
      Bool
      → Outcome (FileHandleError P.SqlError) ℤ
      → BlobHandle P
      → Poll (IoResult ℕ) × BlobHandle P
  continue_write false answer self = (pending, self)
  continue_write true answer self = (ready (amount answer), record self { state = none })

  -- A write in progress goes on with the bytes that it began with.
  poll_write_in :
      Option (FileHandleState P) → Bool → Bytes → BlobHandle P → Poll (IoResult ℕ) × BlobHandle P
  poll_write_in (some (writing answer)) finished buf self = continue_write finished answer self
  poll_write_in (some _) finished buf self = (ready panic, self)
  poll_write_in none finished buf self =
      let asked = with_inner (write P buf) self.inner in
      continue_write finished asked.0
        (record self { inner = asked.1; state = some (writing asked.0) })

  unfoldable pub poll_write : Bool → Bytes → BlobHandle P → Poll (IoResult ℕ) × BlobHandle P
  unfolding poll_write_in continue_write amount with_inner
  poll_write finished buf self = poll_write_in self.state finished buf self

  unfoldable pub poll_flush : BlobHandle P → Poll (IoResult Unit) × BlobHandle P
  poll_flush self = (ready (ok tt), self)

  -- `inner.take().ok_or(IsShutdown)?.close().await`
  unfoldable pub take_and_close :
      Option (BlobHandleInner P) → Exec P.Db (IoError (Fault P.SqlError)) Unit
  take_and_close none db = (err (io_other is_shutdown), db)
  take_and_close (some inner) db = (map_err io_other (close P inner db).0, (close P inner db).1)

  continue_shutdown :
      Bool → IoResult Unit → BlobHandle P × P.Db → Poll (IoResult Unit) × (BlobHandle P × P.Db)
  continue_shutdown false answer (self, db) = (pending, (self, db))
  continue_shutdown true answer (self, db) = (ready answer, (record self { state = none }, db))

  poll_shutdown_in :
      Option (FileHandleState P)
      → Bool
      → BlobHandle P × P.Db
      → Poll (IoResult Unit) × (BlobHandle P × P.Db)
  poll_shutdown_in (some (shutting_down answer)) finished s = continue_shutdown finished answer s
  poll_shutdown_in (some _) finished s = (ready panic, s)
  poll_shutdown_in none finished (self, db) =
      let closed = take_and_close self.inner db in
      continue_shutdown finished closed.0
        (record self { inner = none; state = some (shutting_down closed.0) }, closed.1)

  unfoldable pub poll_shutdown :
      Bool → BlobHandle P × P.Db → Poll (IoResult Unit) × (BlobHandle P × P.Db)
  unfolding poll_shutdown_in continue_shutdown take_and_close
  poll_shutdown finished s = poll_shutdown_in s.0.state finished s
