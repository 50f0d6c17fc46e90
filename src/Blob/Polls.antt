-- ===== src/Blob/Polls.antt =====
-- What is proved of the polled methods of `BlobHandle` in storage/src/postgres/blob.rs.
use locally_euclidean.Prelude.{
  ℤ, Outcome, ◌∙◌, ℕ, zero, suc, pos, ◌*◌, min, ◌≡◌, refl, false, Option, none, some, ok, Bytes,
}
use locally_euclidean.Storage.{SeekFrom, IoError}
use locally_euclidean.Faults.{FileHandleError, Fault}
use locally_euclidean.Postgres.{Postgres}
use locally_euclidean.Blob.Inner.{BlobHandleInner, read, write, lseek64}
use locally_euclidean.Blob.Handle.{
  BlobHandle, FileHandleState, reading, seeking, writing, shutting_down, mib, poll_read, pending,
  poll_write, poll_complete, poll_shutdown, start_seek, put_slice, amount, with_inner,
  take_and_close, end_seek,
}
use locally_euclidean.Blob.Awaited.{await_poll}

module _ (P : Postgres) where
  -- A handle with no operation in progress, and one with the operation `s`.
  abbrev pub idle : Option (BlobHandleInner P) → ℕ → BlobHandle P
  idle inner position = record { inner = inner; state = none; position = position }

  abbrev pub busy : FileHandleState P → Option (BlobHandleInner P) → ℕ → BlobHandle P
  busy s inner position = record { inner = inner; state = some s; position = position }

  await_reading :
      (k n position : ℕ) (inner : Option (BlobHandleInner P))
      (answer : Outcome (FileHandleError P.SqlError) Bytes)
      → await_poll (λ finished. poll_read P finished n) k (busy (reading answer) inner position)
        ≡ (put_slice P n answer, idle inner position)
  unfolding await_poll poll_read
  await_reading zero n position inner answer = refl
  await_reading (suc k) n position inner answer = await_reading k n position inner answer

  await_writing :
      (k position : ℕ) (inner : Option (BlobHandleInner P)) (buf : Bytes)
      (answer : Outcome (FileHandleError P.SqlError) ℤ)
      → await_poll (λ finished. poll_write P finished buf) k (busy (writing answer) inner position)
        ≡ (amount P answer, idle inner position)
  unfolding await_poll poll_write
  await_writing zero position inner buf answer = refl
  await_writing (suc k) position inner buf answer = await_writing k position inner buf answer

  -- A seek that has been polled ends as if the next poll found it finished.
  await_sought :
      (k position : ℕ) (inner : Option (BlobHandleInner P)) (q : SeekFrom)
      (answer : Outcome (FileHandleError P.SqlError) ℤ)
      → await_poll (poll_complete P) k (busy (seeking q (some answer)) inner position)
        ≡ await_poll (poll_complete P) 0 (busy (seeking q (some answer)) inner position)
  unfolding await_poll poll_complete
  await_sought zero position inner q answer = refl
  await_sought (suc k) position inner q answer = await_sought k position inner q answer

  await_shutting :
      (k position : ℕ) (db : P.Db) (answer : Outcome (IoError (Fault P.SqlError)) Unit)
      → await_poll (poll_shutdown P) k (busy (shutting_down answer) none position, db)
        ≡ (answer, (idle none position, db))
  unfolding await_poll poll_shutdown
  await_shutting zero position db answer = refl
  await_shutting (suc k) position db answer = await_shutting k position db answer

module _ (P : Postgres) (inner : Option (BlobHandleInner P)) (position : ℕ) where
  -- However often it is polled in vain, an awaited read on an idle handle asks the server once, for
  -- as many bytes as the buffer has room for, and leaves the handle idle.
  pub await_read :
      (k n : ℕ)
      → await_poll (λ finished. poll_read P finished n) k (idle P inner position) ≡ (
        put_slice P n (with_inner P (read P (min n (8 * mib))) inner).0,
        idle P (with_inner P (read P (min n (8 * mib))) inner).1 position,
      )
  unfolding await_poll poll_read
  await_read zero n = refl
  await_read (suc k) n = await_reading P k n position _ _

  -- So does an awaited write, of the whole buffer.
  pub await_write :
      (k : ℕ) (buf : Bytes)
      → await_poll (λ finished. poll_write P finished buf) k (idle P inner position) ≡ (
        amount P (with_inner P (write P buf) inner).0,
        idle P (with_inner P (write P buf) inner).1 position,
      )
  unfolding await_poll poll_write
  await_write zero buf = refl
  await_write (suc k) buf = await_writing P k position _ buf _

  -- With no seek in progress the awaited `poll_complete` gives the position of the last one.
  pub await_complete :
      (k : ℕ)
      → await_poll (poll_complete P) k (idle P inner position)
        ≡ (ok position, idle P inner position)
  unfolding await_poll poll_complete
  await_complete zero = refl
  await_complete (suc k) = refl

  -- A seek that was started ends as if its first poll had found it finished.
  await_start_seek :
      (k : ℕ) (q : SeekFrom)
      → await_poll (poll_complete P) k (busy P (seeking q none) inner position)
        ≡ await_poll (poll_complete P) 0 (busy P (seeking q none) inner position)
  unfolding await_poll poll_complete
  await_start_seek zero q = refl
  await_start_seek (suc k) q = await_sought P k position _ q _

  -- A seek that the server answers with an offset sets the position.
  pub await_seeking :
      (k : ℕ) (q : SeekFrom) (n : ℕ) (inner' : Option (BlobHandleInner P))
      → with_inner P (lseek64 P q) inner ≡ (ok (pos n), inner')
      → await_poll (poll_complete P) k (busy P (seeking q none) inner position)
        ≡ (ok n, idle P inner' n)
  unfolding await_poll poll_complete end_seek amount
  await_seeking k q n inner' e = await_start_seek k q ∙ rw e refl

  -- However often it is polled in vain, an awaited shutdown of an idle handle closes and commits once,
  -- with the result and the database that this gives, and leaves a handle that is closed.
  pub await_shutdown :
      (k : ℕ) (db : P.Db)
      → await_poll (poll_shutdown P) k (idle P inner position, db)
        ≡ ((take_and_close P inner db).0, (idle P none position, (take_and_close P inner db).1))
  unfolding await_poll poll_shutdown
  await_shutdown zero db = refl
  await_shutdown (suc k) db = await_shutting P k position _ _

  -- An operation that an idle handle was polled for in vain goes on as it began, however many more
  -- polls are in vain, and whatever the later polls ask for. A read ends with the bytes that the
  -- server gives for as many as the first buffer had room for, 16 MiB at most, put into the buffer of
  -- the later polls; a write has sent the first buffer; the server is asked once, and the handle is
  -- then idle. A shutdown is in progress after its first poll and ends by closing and committing once,
  -- and the handle is then closed. A seek that was started ends as if its first poll had found it finished.
  pub await_continues :
      (k n m : ℕ) (buf later : Bytes) (q : SeekFrom) (db : P.Db)
      → (await_poll
            (λ finished. poll_read P finished m)
            k
            (poll_read P false n (idle P inner position)).1
          ≡ (
            put_slice P m (with_inner P (read P (min n 0x1000000)) inner).0,
            idle P (with_inner P (read P (min n 0x1000000)) inner).1 position,
          ))
        × (await_poll
              (λ finished. poll_write P finished later)
              k
              (poll_write P false buf (idle P inner position)).1
            ≡ (
              amount P (with_inner P (write P buf) inner).0,
              idle P (with_inner P (write P buf) inner).1 position,
            ))
        × (poll_shutdown P false (idle P inner position, db) ≡ (
          pending,
          (
            busy P (shutting_down (take_and_close P inner db).0) none position,
            (take_and_close P inner db).1,
          ),
        ))
        × (await_poll (poll_shutdown P) k (poll_shutdown P false (idle P inner position, db)).1 ≡ (
          (take_and_close P inner db).0,
          (idle P none position, (take_and_close P inner db).1),
        ))
        × (await_poll (poll_complete P) k (start_seek P q (idle P inner position)).1
            ≡ await_poll (poll_complete P) 0 (start_seek P q (idle P inner position)).1)
  unfolding mib poll_read poll_write poll_shutdown start_seek
  await_continues k n m buf later q db = (
    await_reading P k m position _ _,
    await_writing P k position _ later _,
    refl,
    await_shutting P k position _ _,
    await_start_seek k q,
  )
