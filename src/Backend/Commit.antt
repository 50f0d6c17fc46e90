-- ===== src/Backend/Commit.antt =====
-- `commit` of storage/src/postgres/mod.rs: the file becomes what its handle has seen, no other file
-- changes, and the state stays sound.
use Prim.Native.String.{String}
use locally_euclidean.Prelude.{ℕ, ◌≡◌, ◌≢◌, sym, ◌∙◌, ap, some, ok, Bytes}
use locally_euclidean.Storage.Contract.{Key, Writes}
use locally_euclidean.Postgres.{Postgres, BucketRow, FileRow}
use locally_euclidean.Postgres.Laws.{IsPostgres}
use locally_euclidean.Runtime.{Runtime}
use locally_euclidean.Blob.Adapters.{blob_shutdown-lem}
use locally_euclidean.Backend.File.{PostgresFileHandle, commit}
use locally_euclidean.Backend.Holds.{Holds}
use locally_euclidean.Backend.Insert.{same_key}
use locally_euclidean.Backend.View.{
  IsSound, Ready, has_bucket, content, has_bucket_same, content_of_rows, content_same, SameFile,
  SameFile-refl, SameFile-step,
}

module _ (P : Postgres) (L : IsPostgres P) (db db' : P.Db) (o : P.Oid) (c : Bytes)
    (files : (u : P.Uuid) (n : String) → L.file_row db' u n ≡ L.file_row db u n)
    (written : L.object db' o ≡ some c)
    (kept : (j : P.Oid) → j ≢ o → L.object db' j ≡ L.object db j) where
  Committed-linked :
      IsSound P L db
      → (u : P.Uuid) (n : String) (g : FileRow P.Uuid P.Oid) → L.file_row db' u n ≡ some g
      → (d : Bytes) × (L.object db' g.blob ≡ some d)
  Committed-linked sound u n g found = elim (L.oid_discrete g.blob o) [
    | yes same ↦ (c, ap (L.object db') same ∙ written)
    | no differ ↦
        let (d, there) = sound.linked u n g (sym (files u n) ∙ found) in
        (d, kept g.blob differ ∙ there)
  ]

  Committed-IsSound : IsSound P L db → IsSound P L db'
  Committed-IsSound sound = record {
    linked = Committed-linked sound;
    unshared = λ u v n m f g found found'.
        sound.unshared u v n m f g (sym (files u n) ∙ found) (sym (files v m) ∙ found');
  }

module _ (P : Postgres) (L : IsPostgres P) (R : Runtime) where
  -- The commit on the file `k` keeps the object of every other file.
  other_file :
      (db db' : P.Db) (k : Key) (r : BucketRow P.Uuid) (f : FileRow P.Uuid P.Oid)
      → Ready P L db
      → L.bucket_row db k.0 ≡ some r
      → L.file_row db r.id k.1 ≡ some f
      → ((o : P.Oid) → o ≢ f.blob → L.object db' o ≡ L.object db o)
      → (j : Key) (s : BucketRow P.Uuid) (g : FileRow P.Uuid P.Oid) → j ≢ k
      → L.bucket_row db j.0 ≡ some s
      → L.file_row db s.id j.1 ≡ some g
      → L.object db' g.blob ≡ L.object db g.blob
  other_file db db' k r f ready there found kept j s g ne at_j found' = kept g.blob (λ shared.
      let same = ready.1.unshared s.id r.id j.1 k.1 g f found' found shared in
      ne (same_key (L.bucket_id_unique db j.0 k.0 s r ready.0 at_j there same.0) same.1))

  commit_Writes :
      (db db' : P.Db) (k : Key) (r : BucketRow P.Uuid) (f : FileRow P.Uuid P.Oid) (c : Bytes)
      → Ready P L db
      → L.bucket_row db k.0 ≡ some r
      → L.file_row db r.id k.1 ≡ some f
      → ((b : String) → L.bucket_row db' b ≡ L.bucket_row db b)
      → ((u : P.Uuid) (n : String) → L.file_row db' u n ≡ L.file_row db u n)
      → L.object db' f.blob ≡ some c
      → ((j : P.Oid) → j ≢ f.blob → L.object db' j ≡ L.object db j)
      → Writes (content P L) (has_bucket P L) db db' k c
  commit_Writes db db' k r f c ready there found buckets files written kept = record {
    written =
        content_of_rows P L db' k.0 k.1 r f (buckets k.0 ∙ there) (files r.id k.1 ∙ found)
        ∙ written;
    untouched = λ (a, m) ne.
        content_same P L db db' a m (buckets a) (λ s _. files s.id m)
          (λ s g. other_file db db' k r f ready there found kept (a, m) s g ne);
    same_buckets = λ b. has_bucket_same P L db db' b (buckets b);
  }

  -- The commit of a handle that was opened in the state `db`, when the state is `now`; with what it
  -- leaves of the tables.
  pub commit_tables :
      (h : PostgresFileHandle P) (db now : P.Db) (k : Key) (c : Bytes) (p : ℕ)
      → Ready P L now
      → Holds L h db k c p
      → SameFile P L db now k
      → (db' : P.Db) × (commit P R h now ≡ (ok tt, db'))
        × Ready P L db'
        × Writes (content P L) (has_bucket P L) now db' k c
        × ((u : P.Db) (j : Key) → j ≢ k → SameFile P L u now j → SameFile P L u db' j)
        × ((a : String) → L.bucket_row db' a ≡ L.bucket_row now a)
        × ((u : P.Uuid) (n : String) → L.due db' u n ≡ L.due now u n)
  unfolding commit
  commit_tables h db now k c p ready holds same =
      let o = holds.row.blob in
      let (before, then_there, still_there) =
        same.same_bytes holds.bucket holds.row holds.in_bucket holds.has_row in
      let in_bucket = same.same_bucket ∙ holds.in_bucket in
      let has_row = same.same_row holds.bucket holds.in_bucket ∙ holds.has_row in
      let (db', e, up', written, kept, buckets, files, dues) =
        blob_shutdown-lem P R L db o holds.inner holds.position p c now before holds.stands ready.0
          then_there still_there in
      (
        db',
        rw (holds.is_handle, e),
        (up', Committed-IsSound P L now db' o c files written kept ready.1),
        commit_Writes now db' k holds.bucket holds.row c ready in_bucket has_row buckets files
            written kept,
        λ u j ne unmoved.
            SameFile-step P L u now db' j unmoved (buckets j.0) (λ s _. files s.id j.1)
              (λ s _. dues s.id j.1)
              (λ s g at_j found.
                other_file now db' k holds.bucket holds.row ready in_bucket has_row kept j s g ne
                  at_j found),
        buckets,
        dues,
      )

  pub commit_later :
      (h : PostgresFileHandle P) (db now : P.Db) (k : Key) (c : Bytes) (p : ℕ)
      → Ready P L now
      → Holds L h db k c p
      → SameFile P L db now k
      → (db' : P.Db) × (commit P R h now ≡ (ok tt, db'))
        × Ready P L db'
        × Writes (content P L) (has_bucket P L) now db' k c
        × ((u : P.Db) (j : Key) → j ≢ k → SameFile P L u now j → SameFile P L u db' j)
  commit_later h db now k c p ready holds same =
      let (db', e, ready', writes, apart, _, _) = commit_tables h db now k c p ready holds same in
      (db', e, ready', writes, apart)

  -- Over a server that answers in a sound state, the commit of a handle that was opened in that state
  -- succeeds: the file then holds the bytes that the handle sees, its own writes included, every
  -- other file and the set of buckets stay as they are, and the state is sound again.
  pub commit_file :
      (h : PostgresFileHandle P) (db : P.Db) (k : Key) (c : Bytes) (p : ℕ)
      → Ready P L db
      → Holds L h db k c p
      → (db' : P.Db) × (commit P R h db ≡ (ok tt, db'))
        × Ready P L db'
        × Writes (content P L) (has_bucket P L) db db' k c
  commit_file h db k c p ready holds =
      let (db', e, ready', writes, _) =
        commit_later h db db k c p ready holds (SameFile-refl P L db k ready.1) in
      (db', e, ready', writes)
