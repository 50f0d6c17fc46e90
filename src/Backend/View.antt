-- ===== src/Backend/View.antt =====
-- What a state of the database means to the server: which buckets there are, and what each file of
-- storage/src/postgres/mod.rs holds; and when a state is sound.
use Prim.Native.String.{String}
use mathlib.Core.Option
use locally_euclidean.Prelude.{
  ◌≡◌, refl, sym, ◌∙◌, Bool, true, false, Option, none, some, Bytes, inl, inr, Option-cases, arith,
}
use locally_euclidean.Postgres.{Postgres, BucketRow, FileRow}
use locally_euclidean.Postgres.Laws.{IsPostgres}
use locally_euclidean.Storage.Contract.{Key}
use locally_euclidean.Backend.Bucket.{PostgresBucket, time_delta}

module _ (P : Postgres) (L : IsPostgres P) where
  is_there : Option (BucketRow P.Uuid) → Bool
  is_there none = false
  is_there (some r) = true

  unfoldable pub has_bucket : P.Db → String → Bool
  unfolding is_there
  has_bucket db b = is_there (L.bucket_row db b)

  object_of : P.Db → Option (FileRow P.Uuid P.Oid) → Option Bytes
  object_of db none = none
  object_of db (some f) = L.object db f.blob

  file_in : P.Db → String → Option (BucketRow P.Uuid) → Option Bytes
  file_in db n none = none
  file_in db n (some r) = object_of db (L.file_row db r.id n)

  -- The row of the bucket, the row of the file in it, and the row's large object.
  unfoldable pub content : P.Db → Key → Option Bytes
  unfolding file_in object_of
  content db k = file_in db k.1 (L.bucket_row db k.0)

  -- Every file has its large object, and no two files share one.
  pub record IsSound (db : P.Db) : Type 0 where
    pub linked :
        (u : P.Uuid) (n : String) (f : FileRow P.Uuid P.Oid)
        → L.file_row db u n ≡ some f
        → (c : Bytes) × (L.object db f.blob ≡ some c)
    pub unshared :
        (u v : P.Uuid) (n m : String) (f g : FileRow P.Uuid P.Oid)
        → L.file_row db u n ≡ some f
        → L.file_row db v m ≡ some g
        → f.blob ≡ g.blob
        → (u ≡ v) × (n ≡ m)

  -- The server answers, and its state is sound.
  abbrev pub Ready : P.Db → Type 0
  Ready db = L.Up db × IsSound db

  abbrev pub Names : P.Db → PostgresBucket P → String → Type 0
  Names db bk b =
      (r : BucketRow P.Uuid) × (L.bucket_row db b ≡ some r)
      × (r.id ≡ bk.id)
      × (bk.default_ttl ≡ Option.map time_delta r.default_ttl)

  pub has_bucket-true :
      (db : P.Db) (b : String)
      → has_bucket db b ≡ true
      → (r : BucketRow P.Uuid) × (L.bucket_row db b ≡ some r)
  unfolding has_bucket is_there
  has_bucket-true db b h = elim (Option-cases (L.bucket_row db b)) [
    | inl absent ↦ cc (rw absent at h)
    | inr found ↦ found
  ]

  pub has_bucket-false :
      (db : P.Db) (b : String) → has_bucket db b ≡ false → L.bucket_row db b ≡ none
  unfolding has_bucket is_there
  has_bucket-false db b h = ground arith

  pub has_bucket_same :
      (db db' : P.Db) (b : String)
      → L.bucket_row db' b ≡ L.bucket_row db b
      → has_bucket db' b ≡ has_bucket db b
  unfolding has_bucket
  has_bucket_same db db' b e = rw e

  pub content_of_rows :
      (db : P.Db) (b n : String) (r : BucketRow P.Uuid) (f : FileRow P.Uuid P.Oid)
      → L.bucket_row db b ≡ some r
      → L.file_row db r.id n ≡ some f
      → content db (b, n) ≡ L.object db f.blob
  unfolding content file_in object_of
  content_of_rows db b n r f e e' = rw (e, e')

  pub content_of_no_bucket :
      (db : P.Db) (b n : String) → L.bucket_row db b ≡ none → content db (b, n) ≡ none
  unfolding content file_in
  content_of_no_bucket db b n e = rw e

  pub content_of_no_row :
      (db : P.Db) (b n : String) (r : BucketRow P.Uuid)
      → L.bucket_row db b ≡ some r
      → L.file_row db r.id n ≡ none
      → content db (b, n) ≡ none
  unfolding content file_in object_of
  content_of_no_row db b n r e e' = rw (e, e')

  -- A file that is there is in a bucket that is there.
  pub content-bucket :
      (db : P.Db) (b n : String) (c : Bytes)
      → content db (b, n) ≡ some c
      → (r : BucketRow P.Uuid) × (L.bucket_row db b ≡ some r)
  unfolding content file_in
  content-bucket db b n c h = elim (Option-cases (L.bucket_row db b)) [
    | inl absent ↦ cc (rw absent at h)
    | inr found ↦ found
  ]

  pub content-some :
      (db : P.Db) (b n : String) (r : BucketRow P.Uuid) (c : Bytes)
      → L.bucket_row db b ≡ some r
      → content db (b, n) ≡ some c
      → (f : FileRow P.Uuid P.Oid) × (L.file_row db r.id n ≡ some f) × (L.object db f.blob ≡ some c)
  unfolding content file_in object_of
  content-some db b n r c e h = elim (Option-cases (L.file_row db r.id n)) [
    | inl absent ↦ cc (rw (e, absent, object_of) at h)
    | inr (f, found) ↦ (f, found, sym (content_of_rows db b n r f e found) ∙ h)
  ]

  pub content-none :
      (db : P.Db) (b n : String) (r : BucketRow P.Uuid)
      → IsSound db
      → L.bucket_row db b ≡ some r
      → content db (b, n) ≡ none
      → L.file_row db r.id n ≡ none
  content-none db b n r sound e h = elim (Option-cases (L.file_row db r.id n)) [
    | inl absent ↦ absent
    | inr (f, found) ↦
        let (c, there) = sound.linked r.id n f found in
        cc (sym h ∙ content_of_rows db b n r f e found ∙ there)
  ]

  -- A file reads the same in two states that agree on its bucket, its row and its object.
  pub content_same :
      (db db' : P.Db) (b n : String)
      → L.bucket_row db' b ≡ L.bucket_row db b
      → ((r : BucketRow P.Uuid)
          → L.bucket_row db b ≡ some r
          → L.file_row db' r.id n ≡ L.file_row db r.id n)
      → ((r : BucketRow P.Uuid) (f : FileRow P.Uuid P.Oid)
          → L.bucket_row db b ≡ some r
          → L.file_row db r.id n ≡ some f
          → L.object db' f.blob ≡ L.object db f.blob)
      → content db' (b, n) ≡ content db (b, n)
  unfolding content file_in object_of
  content_same db db' b n buckets files objects = elim (Option-cases (L.bucket_row db b)) [
    | inl absent ↦ rw (buckets, absent)
    | inr (r, there) ↦ elim (Option-cases (L.file_row db r.id n)) [
      | inl absent ↦ rw (buckets, there, files r there, absent)
      | inr (f, found) ↦ rw (buckets, there, files r there, found, objects r f there found)
    ]
  ]

  -- The file `k` is the same in both states: the same rows and date, and the same bytes in its large object.
  pub record SameFile (db now : P.Db) (k : Key) : Type 0 where
    pub same_bucket : L.bucket_row now k.0 ≡ L.bucket_row db k.0
    pub same_row :
        (r : BucketRow P.Uuid)
        → L.bucket_row db k.0 ≡ some r
        → L.file_row now r.id k.1 ≡ L.file_row db r.id k.1
    pub same_due :
        (r : BucketRow P.Uuid)
        → L.bucket_row db k.0 ≡ some r
        → L.due now r.id k.1 ≡ L.due db r.id k.1
    pub same_bytes :
        (r : BucketRow P.Uuid) (f : FileRow P.Uuid P.Oid)
        → L.bucket_row db k.0 ≡ some r
        → L.file_row db r.id k.1 ≡ some f
        → (c : Bytes) × (L.object db f.blob ≡ some c) × (L.object now f.blob ≡ some c)

  pub SameFile-refl : (db : P.Db) (k : Key) → IsSound db → SameFile db db k
  SameFile-refl db k sound = record {
    same_bucket = refl;
    same_row = λ r there. refl;
    same_due = λ r there. refl;
    same_bytes =
        λ r f there found. let (c, object) = sound.linked r.id k.1 f found in (c, object, object);
  }

  -- A step that leaves the rows of a file alone, and its object, leaves it the same.
  pub SameFile-step :
      (db now next : P.Db) (k : Key)
      → SameFile db now k
      → L.bucket_row next k.0 ≡ L.bucket_row now k.0
      → ((r : BucketRow P.Uuid)
          → L.bucket_row now k.0 ≡ some r
          → L.file_row next r.id k.1 ≡ L.file_row now r.id k.1)
      → ((r : BucketRow P.Uuid)
          → L.bucket_row now k.0 ≡ some r
          → L.due next r.id k.1 ≡ L.due now r.id k.1)
      → ((r : BucketRow P.Uuid) (f : FileRow P.Uuid P.Oid)
          → L.bucket_row now k.0 ≡ some r
          → L.file_row now r.id k.1 ≡ some f
          → L.object next f.blob ≡ L.object now f.blob)
      → SameFile db next k
  SameFile-step db now next k same buckets files dues objects = record {
    same_bucket = buckets ∙ same.same_bucket;
    same_row = λ r there. files r (same.same_bucket ∙ there) ∙ same.same_row r there;
    same_due = λ r there. dues r (same.same_bucket ∙ there) ∙ same.same_due r there;
    same_bytes = λ r f there found.
        let (c, before, still) = same.same_bytes r f there found in
        (c, before, objects r f (same.same_bucket ∙ there) (same.same_row r there ∙ found) ∙ still);
  }

  pub SameFile-content :
      (db now : P.Db) (k : Key) → SameFile db now k → content now k ≡ content db k
  SameFile-content db now (b, n) same =
      content_same db now b n same.same_bucket same.same_row (λ r f there found.
        let (c, before, still) = same.same_bytes r f there found in still ∙ sym before)
