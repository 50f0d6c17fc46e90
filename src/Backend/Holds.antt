-- ===== src/Backend/Holds.antt =====
-- When a `PostgresFileHandle` of storage/src/postgres/mod.rs is open on a file: it is idle, its row
-- is the file's, and its blob stands in the file's large object.
use locally_euclidean.Prelude.{ℕ, ◌≡◌, refl, some, Bytes}
use locally_euclidean.Postgres.{Postgres, BucketRow, FileRow}
use locally_euclidean.Postgres.Laws.{IsPostgres}
use locally_euclidean.Storage.Contract.{Key}
use locally_euclidean.Blob.Inner.{BlobHandleInner}
use locally_euclidean.Blob.Polls.{idle}
use locally_euclidean.Blob.Contents.{Stands}
use locally_euclidean.Backend.File.{PostgresFileHandle}

abbrev pub file_at : (P : Postgres) → BlobHandleInner P → ℕ → P.Uuid → PostgresFileHandle P
file_at P i x id = record { blob = idle P (some i) x; id = id }

pub record Holds {P : Postgres} (L : IsPostgres P) (h : PostgresFileHandle P) (db : P.Db) (k : Key)
    (c : Bytes) (p : ℕ) : Type 0 where
  pub inner : BlobHandleInner P
  pub position : ℕ
  pub bucket : BucketRow P.Uuid
  pub row : FileRow P.Uuid P.Oid
  pub is_handle : h ≡ file_at P inner position row.id
  pub in_bucket : L.bucket_row db k.0 ≡ some bucket
  pub has_row : L.file_row db bucket.id k.1 ≡ some row
  pub stands : Stands L db row.blob inner p c

module _ {P : Postgres} (L : IsPostgres P) {h : PostgresFileHandle P} {db : P.Db} {k : Key}
    {c : Bytes} {p : ℕ} (holds : Holds L h db k c p) where
  -- The same file, after an operation on the blob.
  pub Holds_after :
      (i : BlobHandleInner P) (x q : ℕ) (d : Bytes)
      → Stands L db holds.row.blob i q d
      → Holds L (file_at P i x holds.row.id) db k d q
  Holds_after i x q d s = record {
    inner = i;
    position = x;
    bucket = holds.bucket;
    row = holds.row;
    is_handle = refl;
    in_bucket = holds.in_bucket;
    has_row = holds.has_row;
    stands = s;
  }
