-- ===== src/Blob/Adapters.antt =====
-- The awaited operations of a `BlobHandle` (storage/src/postgres/blob.rs) through tokio's adapters,
-- over a server and a runtime that keep their laws.
use locally_euclidean.Prelude.{
  ℕ, ◌+◌, ◌≤◌, min, ◌≡◌, ◌≢◌, ◌∙◌, pos, none, some, ok, [], ◌∷◌, ◌++◌, append-nil, Bytes, length,
  take, drop, length-take, drop_all, le→leb, arith,
}
use locally_euclidean.Storage.{SeekFrom, end}
use locally_euclidean.Postgres.{Postgres}
use locally_euclidean.Postgres.Laws.{IsPostgres}
use locally_euclidean.Runtime.{Runtime, IsTokio}
use locally_euclidean.Blob.Inner.{BlobHandleInner, lseek64}
use locally_euclidean.Blob.Handle.{mib, put_slice, amount, with_inner, take_and_close, start_seek}
use locally_euclidean.Blob.Polls.{
  idle, await_read, await_write, await_complete, await_seeking, await_shutdown,
}
use locally_euclidean.Blob.Contents.{
  Stands, read-Stands, seek_end-Stands, write-Stands, close-Stands,
}
use locally_euclidean.Blob.Awaited.{
  blob_read, blob_write, blob_complete, blob_seek, blob_write_all, blob_shutdown,
}

-- What one read gives: at most the room in the buffer, and at most 16 MiB.
abbrev pub window : ℕ → ℕ → Bytes → Bytes
window n p c = take (min n 0x1000000) (drop p c)

module _ (P : Postgres) (R : Runtime) (L : IsPostgres P) (db : P.Db) (o : P.Oid) where
  pub blob_read-lem :
      (i : BlobHandleInner P) (x p n : ℕ) (c : Bytes)
      → Stands L db o i p c
      → (i' : BlobHandleInner P) × (blob_read P R n (idle P (some i) x)
          ≡ (ok (window n p c), idle P (some i') x))
        × Stands L db o i' (p + length (window n p c)) c
  unfolding blob_read put_slice with_inner mib
  blob_read-lem i x p n c s =
      let (i', e, s') = read-Stands P L db o i p c s (min n 0x1000000) (omega arith) in
      let fits : length (window n p c) ≤ n =
        omega (arith, length-take (min n 0x1000000) (drop p c)) in
      (i', await_read P (some i) x R.pendings n ∙ rw (e, le→leb _ n fits), s')

  -- A seek whose statement the server answers leaves the handle idle at the new position.
  pub blob_complete-lem :
      (i i' : BlobHandleInner P) (x n : ℕ) (q : SeekFrom)
      → lseek64 P q i ≡ (ok (pos n), i')
      → blob_complete P R (start_seek P q (idle P (some i) x)).1 ≡ (ok n, idle P (some i') n)
  unfolding blob_complete start_seek with_inner
  blob_complete-lem i i' x n q e = await_seeking P (some i) x R.pendings q n (some i') (rw e)

  pub blob_complete-idle :
      (i : BlobHandleInner P) (x : ℕ)
      → blob_complete P R (idle P (some i) x) ≡ (ok x, idle P (some i) x)
  unfolding blob_complete
  blob_complete-idle i x = await_complete P (some i) x R.pendings

  pub blob_write-lem :
      (i : BlobHandleInner P) (x : ℕ) (c d : Bytes)
      → Stands L db o i (length c) c
      → length c + length d ≤ L.max_object
      → length d ≤ L.max_bytea
      → (i' : BlobHandleInner P) × (blob_write P R d (idle P (some i) x)
          ≡ (ok (length d), idle P (some i') x))
        × Stands L db o i' (length c + length d) (c ++ d)
  unfolding blob_write amount with_inner
  blob_write-lem i x c d s fits short =
      let (i', e, s') = write-Stands P L db o i c d s fits short in
      (i', await_write P (some i) x R.pendings d ∙ rw e, s')

  pub blob_shutdown-lem :
      (i : BlobHandleInner P) (x p : ℕ) (c : Bytes) (now : P.Db) (before : Bytes)
      → Stands L db o i p c
      → L.Up now
      → L.object db o ≡ some before
      → L.object now o ≡ some before
      → (db' : P.Db) × (blob_shutdown P R (idle P (some i) x, now) ≡ (ok tt, (idle P none x, db')))
        × L.Up db'
        × (L.object db' o ≡ some c)
        × ((j : P.Oid) → j ≢ o → L.object db' j ≡ L.object now j)
        × ((b : _) → L.bucket_row db' b ≡ L.bucket_row now b)
        × ((u : P.Uuid) (n : _) → L.file_row db' u n ≡ L.file_row now u n)
        × ((u : P.Uuid) (n : _) → L.due db' u n ≡ L.due now u n)
  unfolding blob_shutdown take_and_close
  blob_shutdown-lem i x p c now before s up then_there still_there =
      let (db', e, up', written, kept, buckets, files, dues) =
        close-Stands P L db o i p c s now before up then_there still_there in
      (
        db',
        await_shutdown P (some i) x R.pendings now ∙ rw e,
        up',
        written,
        kept,
        buckets,
        files,
        dues,
      )

module _ (P : Postgres) (R : Runtime) (L : IsPostgres P) (T : IsTokio R) (db : P.Db)
    (o : P.Oid) where
  -- `self.blob.seek(SeekFrom::End(0)).await`
  pub blob_seek_end :
      (i : BlobHandleInner P) (x p : ℕ) (c : Bytes)
      → Stands L db o i p c
      → (i' : BlobHandleInner P) × (blob_seek P R (end (pos 0)) (idle P (some i) x)
          ≡ (ok (length c), idle P (some i') (length c)))
        × Stands L db o i' (length c) c
  unfolding blob_seek
  blob_seek_end i x p c s =
      let (i', e, s') = seek_end-Stands P L db o i p c s in
      (
        i',
        T.seek_lem _ _ (blob_complete P R) (start_seek P) (end (pos 0)) (idle P (some i) x)
            ∙ rw (blob_complete-idle P R L db o i x, start_seek)
                (blob_complete-lem P R L db o i i' x (length c) (end (pos 0)) e),
        s',
      )

  -- `self.blob.write_all(data).await` at the end: the server takes all of it in one statement.
  pub blob_write_all-lem :
      (i : BlobHandleInner P) (x : ℕ) (c d : Bytes)
      → Stands L db o i (length c) c
      → length c + length d ≤ L.max_object
      → length d ≤ L.max_bytea
      → (i' : BlobHandleInner P) × (blob_write_all P R d (idle P (some i) x)
          ≡ (ok tt, idle P (some i') x))
        × Stands L db o i' (length c + length d) (c ++ d)
  unfolding blob_write_all
  blob_write_all-lem i x c [] s fits short = (
    i,
    T.write_all_nil _ _ _ _,
    let same : length c + 0 ≡ length c = omega arith in rw (same, append-nil c) s,
  )
  blob_write_all-lem i x c (b ∷ d) s fits short =
      let (i', e, s') = blob_write-lem P R L db o i x c (b ∷ d) s fits short in
      (
        i',
        T.write_all_cons _ _ _ b d _
            ∙ rw (e, drop_all (length d) d (omega arith)) (T.write_all_nil _ _ _ _),
        s',
      )
