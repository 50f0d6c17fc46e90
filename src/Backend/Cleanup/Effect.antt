-- ===== src/Backend/Cleanup/Effect.antt =====
-- What a batch of `delete_old_files_batch` of storage/src/postgres/mod.rs deletes, over a server that
-- keeps its laws.
use Prim.Native.String.{String}
use locally_euclidean.Prelude.{
  ℕ, ℤ, ◌<◌, ◌≡◌, refl, sym, ◌∙◌, Bool, true, false, Option, none, some, Option-cases, inl, inr, ok,
  Bytes,
}
use locally_euclidean.Storage.Contract.{Key}
use locally_euclidean.Postgres.{Postgres, BucketRow, FileRow}
use locally_euclidean.Postgres.Laws.{IsPostgres, is_past}
use locally_euclidean.Backend.Cleanup.{delete_old_files_batch}
use locally_euclidean.Backend.View.{
  IsSound, Ready, has_bucket, content, has_bucket_same, content_of_rows, content_of_no_row,
  content-bucket, content_same, content-some,
}

module _ (P : Postgres) (L : IsPostgres P) where
  due_in : P.Db → String → Option (BucketRow P.Uuid) → Option ℤ
  due_in db n none = none
  due_in db n (some r) = L.due db r.id n

  -- When the file may be deleted, if ever.
  unfoldable pub due_of : P.Db → Key → Option ℤ
  unfolding due_in
  due_of db k = due_in db k.1 (L.bucket_row db k.0)

  pub due_of_row :
      (db : P.Db) (b n : String) (r : BucketRow P.Uuid)
      → L.bucket_row db b ≡ some r
      → due_of db (b, n) ≡ L.due db r.id n
  unfolding due_of due_in
  due_of_row db b n r there = rw there

  pub due_of-none : (db : P.Db) (b n : String) → L.bucket_row db b ≡ none → due_of db (b, n) ≡ none
  unfolding due_of due_in
  due_of-none db b n absent = rw absent

  pub due_of_same :
      (db db' : P.Db) (b n : String)
      → L.bucket_row db' b ≡ L.bucket_row db b
      → ((r : BucketRow P.Uuid) → L.bucket_row db b ≡ some r → L.due db' r.id n ≡ L.due db r.id n)
      → due_of db' (b, n) ≡ due_of db (b, n)
  unfolding due_of due_in
  due_of_same db db' b n buckets dues = elim (Option-cases (L.bucket_row db b)) [
    | inl absent ↦ rw (buckets, absent)
    | inr (r, there) ↦ rw (buckets, there, dues r there)
  ]

  -- The file's time is up.
  abbrev pub is_expired : P.Db → Key → Bool
  is_expired db k = is_past (L.now db) (due_of db k)

  -- The second state is the first without some of its expired files.
  pub record Cleaned (db db' : P.Db) : Type 0 where
    pub same_buckets : (b : String) → has_bucket P L db' b ≡ has_bucket P L db b
    pub kept : (k : Key) → is_expired db k ≡ false → content P L db' k ≡ content P L db k
    pub kept_due : (k : Key) → is_expired db k ≡ false → due_of db' k ≡ due_of db k
    pub nothing_new : (k : Key) (c : Bytes) → content P L db' k ≡ some c → content P L db k ≡ some c

module _ (P : Postgres) (L : IsPostgres P) (db db' : P.Db) (sound : IsSound P L db)
    (buckets : (a : String) → L.bucket_row db' a ≡ L.bucket_row db a)
    (no_new_row : (u : P.Uuid) (n : String) (f : FileRow P.Uuid P.Oid)
      → L.file_row db' u n ≡ some f
      → L.file_row db u n ≡ some f)
    (row_kept : (u : P.Uuid) (n : String)
      → is_past (L.now db) (L.due db u n) ≡ false
      → (L.file_row db' u n ≡ L.file_row db u n) × (L.due db' u n ≡ L.due db u n))
    (object_kept : (o : P.Oid)
      → ((u : P.Uuid) (n : String) (f : FileRow P.Uuid P.Oid)
          → L.file_row db u n ≡ some f
          → f.blob ≡ o
          → L.file_row db' u n ≡ some f)
      → L.object db' o ≡ L.object db o) where
  -- A row that stays keeps its object, since no other row has it.
  object_of_row :
      (u : P.Uuid) (n : String) (f : FileRow P.Uuid P.Oid)
      → L.file_row db' u n ≡ some f
      → L.object db' f.blob ≡ L.object db f.blob
  object_of_row u n f stays = object_kept f.blob (λ v m g found same.
      let (p, q) = sound.unshared v u m n g f found (no_new_row u n f stays) same in
      let there : L.file_row db v m ≡ some f = rw (p, q) (no_new_row u n f stays) in
      rw (p, q) (stays ∙ sym there ∙ sym (rw (p, q) refl) ∙ found))

  Cleaned-IsSound : IsSound P L db'
  Cleaned-IsSound = record {
    linked = λ u n f stays.
        let (c, there) = sound.linked u n f (no_new_row u n f stays) in
        (c, object_of_row u n f stays ∙ there);
    unshared =
        λ u v n m f g e e'. sound.unshared u v n m f g (no_new_row u n f e) (no_new_row v m g e');
  }

  live_row :
      (b n : String) (r : BucketRow P.Uuid)
      → is_expired P L db (b, n) ≡ false
      → L.bucket_row db b ≡ some r
      → is_past (L.now db) (L.due db r.id n) ≡ false
  unfolding due_of due_in
  live_row b n r live there = rw there at live

  content_kept :
      (b n : String)
      → is_expired P L db (b, n) ≡ false
      → content P L db' (b, n) ≡ content P L db (b, n)
  content_kept b n live =
      content_same P L db db' b n (buckets b)
        (λ r there. (row_kept r.id n (live_row b n r live there)).0)
        (λ r f there found.
          object_of_row r.id n f ((row_kept r.id n (live_row b n r live there)).0 ∙ found))

  content_not_new :
      (b n : String) (c : Bytes) → content P L db' (b, n) ≡ some c → content P L db (b, n) ≡ some c
  content_not_new b n c h =
      let (r, there) = content-bucket P L db' b n c h in
      let (f, stays, object) = content-some P L db' b n r c there h in
      content_of_rows P L db b n r f (sym (buckets b) ∙ there) (no_new_row r.id n f stays)
      ∙ sym (object_of_row r.id n f stays)
      ∙ object

  Cleaned_lem : Cleaned P L db db'
  Cleaned_lem = record {
    same_buckets = λ b. has_bucket_same P L db db' b (buckets b);
    kept = λ (b, n). content_kept b n;
    kept_due = λ (b, n) live.
        due_of_same P L db db' b n (buckets b)
          (λ r there. (row_kept r.id n (live_row b n r live there)).1);
    nothing_new = λ (b, n). content_not_new b n;
  }

  content_gone :
      (b n : String)
      → ((u : P.Uuid) → is_past (L.now db) (L.due db u n) ≡ true → L.file_row db' u n ≡ none)
      → is_expired P L db (b, n) ≡ true
      → content P L db' (b, n) ≡ none
  unfolding due_of due_in
  content_gone b n cleared late = elim (Option-cases (L.bucket_row db b)) [
    | inl absent ↦ cc (rw absent at late)
    | inr (r, there) ↦
        content_of_no_row P L db' b n r (buckets b ∙ there) (cleared r.id (rw there at late))
  ]

module _ (P : Postgres) (L : IsPostgres P) where
  -- Over a server that answers in a sound state, a batch succeeds, and leaves a sound state with the
  -- same buckets: a file that has not expired holds what it held, no file has other bytes than it
  -- had, and if the server reports fewer than 1000 rows, then no file that had expired is left.
  pub delete_old_files_batch-Cleaned :
      (db : P.Db)
      → Ready P L db
      → (affected : ℕ) × (db' : P.Db) × ((P.delete_expired 1000 db).0 ≡ ok affected)
        × (delete_old_files_batch P db ≡ (ok tt, db'))
        × Ready P L db'
        × Cleaned P L db db'
        × (affected < 1000 → (k : Key) → is_expired P L db k ≡ true → content P L db' k ≡ none)
  unfolding delete_old_files_batch
  delete_old_files_batch-Cleaned db (up, sound) =
      let (affected, db', e, up', buckets, no_new_row, row_kept, cleared, object_kept, _) =
        L.delete_expired_lem 1000 db up in
      (
        affected,
        db',
        rw e,
        rw e,
        (up', Cleaned-IsSound P L db db' sound buckets no_new_row row_kept object_kept),
        Cleaned_lem P L db db' sound buckets no_new_row row_kept object_kept,
        λ few (b, n).
            content_gone P L db db' sound buckets no_new_row row_kept object_kept b n
              (λ u. cleared few u n),
      )
