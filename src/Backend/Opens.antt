-- ===== src/Backend/Opens.antt =====
-- How buckets and files are opened and created in storage/src/postgres/mod.rs, over a server that
-- keeps its laws.
use Prim.Native.String.{String}
use mathlib.Core.Option
use locally_euclidean.Prelude.{◌≡◌, refl, true, false, none, some, ok, err, Bytes}
use locally_euclidean.Storage.{FileCreateError, FileOpenError, file_exists}
use locally_euclidean.Faults.{Fault}
use locally_euclidean.Postgres.{Postgres, BucketRow, FileRow}
use locally_euclidean.Postgres.Laws.{IsPostgres}
use locally_euclidean.Runtime.{Runtime, IsTokio}
use locally_euclidean.Backend.Times.{delete_after-ok}
use locally_euclidean.Blob.Contents.{open_blob-Stands}
use locally_euclidean.Backend.File.{PostgresFileHandle, new_handle}
use locally_euclidean.Backend.Bucket.{
  PostgresBucket, bucket_named, open_file, create_file, time_delta,
}
use locally_euclidean.Backend.Holds.{Holds, file_at}
use locally_euclidean.Backend.View.{
  Ready, Names, has_bucket, content, has_bucket-true, has_bucket-false, content-some, content-none,
}

module _ (P : Postgres) (L : IsPostgres P) where
  pub bucket_named_missing :
      (db : P.Db) (b : String)
      → Ready P L db
      → has_bucket P L db b ≡ false
      → bucket_named P db b ≡ err FileOpenError.does_not_exist
  unfolding bucket_named
  bucket_named_missing db b ready h =
      rw (L.select_bucket_lem db b ready.0, has_bucket-false P L db b h)

  pub bucket_named_found :
      (db : P.Db) (b : String)
      → Ready P L db
      → has_bucket P L db b ≡ true
      → (bk : PostgresBucket P) × (bucket_named P db b ≡ ok bk) × Names P L db bk b
  unfolding bucket_named
  bucket_named_found db b ready h =
      let (r, there) = has_bucket-true P L db b h in
      (
        record { id = r.id; default_ttl = Option.map time_delta r.default_ttl },
        rw (L.select_bucket_lem db b ready.0, there),
        (r, there, refl, refl),
      )

  -- A handle on a file of which the row is known.
  pub new_handle-Holds :
      (db : P.Db) (b n : String) (r : BucketRow P.Uuid) (f : FileRow P.Uuid P.Oid) (c : Bytes)
      → L.Up db
      → L.bucket_row db b ≡ some r
      → L.file_row db r.id n ≡ some f
      → L.object db f.blob ≡ some c
      → (h : PostgresFileHandle P) × (new_handle P db f.blob f.id ≡ ok h) × Holds L h db (b, n) c 0
  unfolding new_handle
  new_handle-Holds db b n r f c up there found object =
      let (i, e, s) = open_blob-Stands P L db f.blob c up object in
      (
        file_at P i 0 f.id,
        rw e,
        record {
          inner = i;
          position = 0;
          bucket = r;
          row = f;
          is_handle = refl;
          in_bucket = there;
          has_row = found;
          stands = s;
        },
      )

  pub open_file_missing :
      (db : P.Db) (bk : PostgresBucket P) (b n : String)
      → Ready P L db
      → Names P L db bk b
      → content P L db (b, n) ≡ none
      → open_file P db bk n ≡ err FileOpenError.does_not_exist
  unfolding open_file
  open_file_missing db bk b n ready (r, there, id, _) h =
      rw (← id, L.select_file_lem db r.id n ready.0, content-none P L db b n r ready.1 there h)

  pub open_file_found :
      (db : P.Db) (bk : PostgresBucket P) (b n : String) (c : Bytes)
      → Ready P L db
      → Names P L db bk b
      → content P L db (b, n) ≡ some c
      → (h : PostgresFileHandle P) × (open_file P db bk n ≡ ok h) × Holds L h db (b, n) c 0
  unfolding open_file
  open_file_found db bk b n c ready (r, there, id, _) h =
      let (f, found, object) = content-some P L db b n r c there h in
      let (file, e, holds) = new_handle-Holds db b n r f c ready.0 there found object in
      (file, rw (← id, L.select_file_lem db r.id n ready.0, found, e), holds)

  -- Over a server that answers in a sound state, the creation of a file whose name is taken in the
  -- bucket is refused with `FileExists`, and nothing changes.
  pub create_file_exists :
      (R : Runtime) (T : IsTokio R) (db : P.Db) (bk : PostgresBucket P) (b n : String) (c : Bytes)
      → Ready P L db
      → Names P L db bk b
      → content P L db (b, n) ≡ some c
      → create_file P R bk n db ≡ (err file_exists, db)
  unfolding create_file
  create_file_exists R T db bk b n c ready (r, there, id, ttl) h =
      let (f, found, object) = content-some P L db b n r c there h in
      let (until, limit) =
        delete_after-ok R T {E = FileCreateError (Fault P.SqlError)} P L db bk b ready.0
          (r, there, id, ttl) in
      let (e, refused, taken) = L.insert_file_taken db bk.id n until f ready.0 (rw (← id) found) in
      rw (limit, refused, taken)
