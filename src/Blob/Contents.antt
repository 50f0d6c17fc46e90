-- ===== src/Blob/Contents.antt =====
-- What the operations of `BlobHandleInner` and `BlobHandle` in storage/src/postgres/blob.rs do to a
-- large object, over a server that keeps its laws.
use locally_euclidean.Prelude.{
  ℕ, ◌+◌, ◌^◌, ◌≤◌, ◌<◌, ◌≡◌, ◌≢◌, sym, ◌∙◌, ap, pos, as_i64_small, as_i32_small, some, ok, ◌++◌,
  append-nil, Bytes, length, take, drop, take_all, drop_all, arith,
}
use locally_euclidean.Storage.{start, end}
use locally_euclidean.Postgres.{Postgres}
use locally_euclidean.Postgres.Laws.{IsPostgres, overwrite}
use locally_euclidean.Blob.Inner.{BlobHandleInner, read_write, read, write, lseek64, close}
use locally_euclidean.Blob.Handle.{open_blob}
use locally_euclidean.Blob.Polls.{idle}

-- An open handle: its descriptor stands at the position `p` of the object `o`, which holds `c` as the
-- handle's transaction sees it; every other object is as it was when the transaction began.
pub record Stands {P : Postgres} (L : IsPostgres P) (db : P.Db) (o : P.Oid) (i : BlobHandleInner P)
    (p : ℕ) (c : Bytes) : Type 0 where
  pub live : L.Live i.transaction
  pub based : L.base i.transaction ≡ db
  pub sees : L.seen i.transaction o ≡ some c
  pub others : (j : P.Oid) → j ≢ o → L.seen i.transaction j ≡ L.object db j
  pub at : L.cursor i.transaction i.fd_num ≡ some (o, p)

-- A write at the end of an object puts the bytes behind it.
overwrite_end : (d c : Bytes) → overwrite (length c) d c ≡ c ++ d
overwrite_end d c = rw (
  take_all (length c) c (omega arith),
  drop_all (length c + length d) c (omega arith),
  append-nil,
)

module _ (P : Postgres) (L : IsPostgres P) (db : P.Db) (o : P.Oid) where
  pub open_blob-Stands :
      (c : Bytes)
      → L.Up db
      → L.object db o ≡ some c
      → (i : BlobHandleInner P) × (open_blob P o read_write db ≡ ok (idle P (some i) 0))
        × Stands L db o i 0 c
  unfolding open_blob
  open_blob-Stands c up content =
      let (tx, e, live, based, same) = L.begin_lem db up in
      let sees : L.seen tx o ≡ some c = same o ∙ content in
      let (fd, tx', e', live', based', same', at') = L.lo_open_lem tx o c live sees in
      (
        record { transaction = tx'; fd_num = fd },
        rw (e, e'),
        record {
          live = live';
          based = based' ∙ based;
          sees = same' o ∙ sees;
          others = λ j ne. same' j ∙ same j;
          at = at';
        },
      )

  module _ (i : BlobHandleInner P) (p : ℕ) (c : Bytes) (s : Stands L db o i p c) where
    pub length-le-max : length c ≤ L.max_object
    length-le-max = L.seen_fits i.transaction o c s.live s.sees

    pub read-Stands :
        (n : ℕ)
        → n < 2 ^ 31
        → (i' : BlobHandleInner P) × (read P n i ≡ (ok (take n (drop p c)), i'))
          × Stands L db o i' (p + length (take n (drop p c))) c
    unfolding read
    read-Stands n small =
        let (tx, e, live, based, same, at') =
          L.loread_lem i.transaction i.fd_num o p n c s.live s.at s.sees small in
        (
          record i { transaction = tx },
          rw (as_i32_small n small, e),
          record {
            live = live;
            based = based ∙ s.based;
            sees = same o ∙ s.sees;
            others = λ j ne. same j ∙ s.others j ne;
            at = at';
          },
        )

    pub seek_start-Stands :
        (q : ℕ)
        → q ≤ length c
        → (i' : BlobHandleInner P) × (lseek64 P (start q) i ≡ (ok (pos q), i'))
          × Stands L db o i' q c
    unfolding lseek64
    seek_start-Stands q le =
        let small : q < 2 ^ 63 = omega (arith, length-le-max, L.max_object_i64) in
        let (tx, e, live, based, same, at') =
          L.lo_lseek64_set i.transaction i.fd_num o p q c s.live s.at s.sees
            (omega (arith, length-le-max)) in
        (
          record i { transaction = tx },
          rw (as_i64_small q small, e),
          record {
            live = live;
            based = based ∙ s.based;
            sees = same o ∙ s.sees;
            others = λ j ne. same j ∙ s.others j ne;
            at = at';
          },
        )

    pub seek_end-Stands :
        (i' : BlobHandleInner P) × (lseek64 P (end (pos 0)) i ≡ (ok (pos (length c)), i'))
        × Stands L db o i' (length c) c
    unfolding lseek64
    seek_end-Stands =
        let (tx, e, live, based, same, at') =
          L.lo_lseek64_end i.transaction i.fd_num o p c s.live s.at s.sees in
        (
          record i { transaction = tx },
          rw e,
          record {
            live = live;
            based = based ∙ s.based;
            sees = same o ∙ s.sees;
            others = λ j ne. same j ∙ s.others j ne;
            at = at';
          },
        )

    pub close-Stands :
        (now : P.Db) (before : Bytes)
        → L.Up now
        → L.object db o ≡ some before
        → L.object now o ≡ some before
        → (db' : P.Db) × (close P i now ≡ (ok tt, db'))
          × L.Up db'
          × (L.object db' o ≡ some c)
          × ((j : P.Oid) → j ≢ o → L.object db' j ≡ L.object now j)
          × ((b : _) → L.bucket_row db' b ≡ L.bucket_row now b)
          × ((u : P.Uuid) (n : _) → L.file_row db' u n ≡ L.file_row now u n)
          × ((u : P.Uuid) (n : _) → L.due db' u n ≡ L.due now u n)
    unfolding close
    close-Stands now before up then_there still_there =
        let (v, tx, e, live, based, same) = L.lo_close_lem i.transaction i.fd_num o p s.live s.at in
        let root = based ∙ s.based in
        let (db', e', up', written, kept, buckets, files) =
          L.commit_lem tx now o c before live up (same o ∙ s.sees)
            (λ j ne. same j ∙ s.others j ne ∙ ap (λ t. L.object t j) (sym root))
            (ap (λ t. L.object t o) root ∙ then_there) still_there in
        (db', rw (e, e'), up', written, kept, buckets, files, L.commit_due tx now db' e')

  pub write-Stands :
      (i : BlobHandleInner P) (c d : Bytes)
      → Stands L db o i (length c) c
      → length c + length d ≤ L.max_object
      → length d ≤ L.max_bytea
      → (i' : BlobHandleInner P) × (write P d i ≡ (ok (pos (length d)), i'))
        × Stands L db o i' (length c + length d) (c ++ d)
  unfolding write
  write-Stands i c d s fits short =
      let (tx, e, live, based, written, same, at') =
        L.lowrite_lem i.transaction i.fd_num o (length c) c d s.live s.at s.sees (omega arith) fits
          short in
      (
        record i { transaction = tx },
        rw e,
        record {
          live = live;
          based = based ∙ s.based;
          sees = written ∙ ap some (overwrite_end d c);
          others = λ j ne. same j ne ∙ s.others j ne;
          at = at';
        },
      )
