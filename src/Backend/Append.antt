-- ===== src/Backend/Append.antt =====
-- `append` and `metadata` of storage/src/postgres/mod.rs on an open file.
use locally_euclidean.Prelude.{ℕ, ◌+◌, ◌≤◌, ◌≡◌, ◌∙◌, ok, ◌++◌, Bytes, length}
use locally_euclidean.Storage.{FileMetadata, IsDate}
use locally_euclidean.Storage.Contract.{Key}
use locally_euclidean.Postgres.{Postgres}
use locally_euclidean.Postgres.Laws.{IsPostgres}
use locally_euclidean.Runtime.{Runtime, IsTokio}
use locally_euclidean.Blob.Adapters.{blob_seek_end, blob_write_all-lem}
use locally_euclidean.Backend.File.{PostgresFileHandle, append, metadata}
use locally_euclidean.Backend.Holds.{Holds, Holds_after, file_at}

module _ (P : Postgres) (R : Runtime) (L : IsPostgres P) (T : IsTokio R) where
  -- Wherever the handle stands, bytes that the server's limits leave room for go to the end of the
  -- file as the handle sees it, and the handle then stands behind them.
  pub append_file :
      (h : PostgresFileHandle P) (db : P.Db) (k : Key) (c : Bytes) (p : ℕ) (d : Bytes)
      → Holds L h db k c p
      → length c + length d ≤ L.max_object
      → length d ≤ L.max_bytea
      → (h' : PostgresFileHandle P) × (append P R d h ≡ (ok tt, h'))
        × Holds L h' db k (c ++ d) (length c + length d)
  unfolding append
  append_file h db k c p d holds fits short =
      let o = holds.row.blob in
      let (i, e, s) = blob_seek_end P R L T db o holds.inner holds.position p c holds.stands in
      let (i', e', s') = blob_write_all-lem P R L T db o i (length c) c d s fits short in
      (
        file_at P i' (length c) holds.row.id,
        rw (holds.is_handle, e, e'),
        Holds_after L holds i' (length c) (length c + length d) (c ++ d) s',
      )

  pub metadata_file :
      (h : PostgresFileHandle P) (db : P.Db) (k : Key) (c : Bytes) (p : ℕ)
      → Holds L h db k c p
      → (h' : PostgresFileHandle P) × (m : FileMetadata) × (metadata P R h ≡ (ok m, h'))
        × Holds L h' db k c p
        × IsDate m.last_modified_at
  unfolding metadata
  metadata_file h db k c p holds =
      let s = holds.stands in
      let i = holds.inner in
      let (t, tx, e, live, based, same, cursors, date) =
        L.select_updated_at_lem i.transaction holds.bucket.id k.1 holds.row s.live
          (rw s.based holds.has_row) in
      (
        file_at P (record i { transaction = tx }) holds.position holds.row.id,
        record { last_modified_at = t },
        rw (holds.is_handle, e),
        Holds_after L holds (record i { transaction = tx }) holds.position p c
            (record {
              live = live;
              based = based ∙ s.based;
              sees = same holds.row.blob ∙ s.sees;
              others = λ j ne. same j ∙ s.others j ne;
              at = cursors i.fd_num ∙ s.at;
            }),
        date,
      )
