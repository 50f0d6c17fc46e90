-- ===== src/Backend/Create.antt =====
-- `create_bucket` of storage/src/postgres/mod.rs: the bucket is there afterwards, and nothing else has
-- changed.
use Prim.Native.String.{String}
use mathlib.Core.Logic.{dite}
use locally_euclidean.Prelude.{
  ◌≡◌, ◌≢◌, refl, sym, ◌∙◌, ℤ, true, false, Option, ok, err, String-discrete,
}
use locally_euclidean.Storage.{file_exists}
use locally_euclidean.Storage.Contract.{Key}
use locally_euclidean.Postgres.{Postgres, TimeDelta, Sendable}
use locally_euclidean.Backend.Times.{ttl_kept}
use locally_euclidean.Postgres.Laws.{IsPostgres}
use locally_euclidean.Backend.Bucket.{PostgresBucket, create_bucket, bucket_named}
use locally_euclidean.Backend.View.{
  Ready, has_bucket, content, has_bucket_same, has_bucket-true, has_bucket-false,
  content_of_no_bucket, content_of_no_row, content_same,
}

module _ (P : Postgres) (L : IsPostgres P) where
  -- Over a server that answers, the creation of a bucket whose name is taken, with a time to
  -- live that can be sent, is refused with `FileExists`, and nothing changes.
  pub create_bucket_taken :
      (db : P.Db) (b : String) (ttl : Option TimeDelta) (m : Option ℤ)
      → Ready P L db
      → Sendable ttl m
      → has_bucket P L db b ≡ true
      → create_bucket P b ttl db ≡ (err file_exists, db)
  unfolding create_bucket
  create_bucket_taken db b ttl m ready whole h =
      let (r, there) = has_bucket-true P L db b h in
      let (e, refused, taken) = L.insert_bucket_taken db b ttl m r ready.0 whole there in
      rw (refused, taken)

  -- Over a server that answers in a sound state, a bucket with a name that is free, and with a
  -- time to live that can be sent, is created: the name then opens just the bucket that the creation
  -- gave, with its time to live, the other buckets are as they were, no file has changed, and the state is sound.
  pub create_bucket_new :
      (db : P.Db) (b : String) (ttl : Option TimeDelta) (m : Option ℤ)
      → Ready P L db
      → Sendable ttl m
      → has_bucket P L db b ≡ false
      → (bk : PostgresBucket P) × (db' : P.Db) × (create_bucket P b ttl db ≡ (ok bk, db'))
        × Ready P L db'
        × (bucket_named P db' b ≡ ok bk)
        × (bk.default_ttl ≡ ttl)
        × ((a : String) → a ≢ b → has_bucket P L db' a ≡ has_bucket P L db a)
        × ((k : Key) → content P L db' k ≡ content P L db k)
  unfolding create_bucket bucket_named
  create_bucket_new db b ttl m (up, sound) whole h =
      let absent = has_bucket-false P L db b h in
      let (u, db', e, up', new_row, old_rows, files, no_file, objects) =
        L.insert_bucket_new db b ttl m up whole absent in
      (
        record { id = u; default_ttl = ttl },
        db',
        rw e,
        (
          up',
          record {
            linked = λ v n f found.
                let (c, there) = sound.linked v n f (sym (files v n) ∙ found) in
                (c, objects f.blob ∙ there);
            unshared = λ v w n m f g found found'.
                sound.unshared v w n m f g (sym (files v n) ∙ found) (sym (files w m) ∙ found');
          },
        ),
        rw (L.select_bucket_lem db' b up', new_row, ttl_kept ttl m whole),
        refl,
        λ a ne. has_bucket_same P L db db' a (old_rows a ne),
        λ (a, n).
            dite (String-discrete a b)
              (λ same. rw same (
                content_of_no_row P L db' b n _ new_row (files u n ∙ no_file n)
                ∙ sym (content_of_no_bucket P L db b n absent)))
              (λ ne.
                content_same P L db db' a n (old_rows a ne) (λ r _. files r.id n)
                  (λ r f _ _. objects f.blob)),
      )
