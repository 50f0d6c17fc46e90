-- ===== src/Backend/Dates.antt =====
-- The date that `create_file` of storage/src/postgres/mod.rs gives to a file, and what a PUT of a new file
-- leaves in the tables.
use Prim.Native.String.{String}
use locally_euclidean.Prelude.{
  ℤ, ◌≤◌, ◌≡◌, ◌≢◌, sym, ◌∙◌, true, Option, none, some, Option-cases, inl, inr, ok, ok-injective,
  List, [], map, flatten, Bytes, length, append-nil, arith,
}
use locally_euclidean.Storage.Contract.{Contract, Key, Writes, Writes-trans}
use locally_euclidean.Storage.{Storage, FileCreateError}
use locally_euclidean.Faults.{Fault}
use locally_euclidean.Postgres.{Postgres, TimeDelta}
use locally_euclidean.Postgres.Laws.{IsPostgres}
use locally_euclidean.Runtime.{Runtime, IsTokio}
use locally_euclidean.Api.{chunk}
use locally_euclidean.Api.Upload.{append_chunks, upload}
use locally_euclidean.Api.Upload.Effect.{ChunksFit, append_chunks-lem}
use locally_euclidean.Api.Write.{put_write_filename}
use locally_euclidean.Api.Write.Effect.{put_created}
use locally_euclidean.Backend.Bucket.{PostgresBucket, bucket_named, delete_after}
use locally_euclidean.Backend.Traits.{postgres_storage}
use locally_euclidean.Backend.View.{Ready, has_bucket, content, SameFile-refl}
use locally_euclidean.Backend.Holds.{Holds}
use locally_euclidean.Backend.Opens.{bucket_named_found}
use locally_euclidean.Backend.Insert.{create_file_tables, same_key}
use locally_euclidean.Backend.Commit.{commit_tables}
use locally_euclidean.Backend.Fulfils.{fulfils}
use locally_euclidean.Backend.Cleanup.Effect.{due_of, due_of_row, due_of_same}

module _ (P : Postgres) (L : IsPostgres P) (R : Runtime) (T : IsTokio R) where
  abbrev S : Storage
  S = postgres_storage P R

  abbrev K : Contract (postgres_storage P R)
  K = fulfils P R L T

  upload_tables :
      (db : P.Db) (k : Key) (ds : List Bytes) (h : S.FileHandle)
      → Ready P L db
      → Holds L h db k [] 0
      → length (flatten ds) ≤ K.max_file
      → ChunksFit S K ds
      → (db' : P.Db) × (upload S (map chunk ds) h db ≡ (ok tt, db'))
        × Ready P L db'
        × Writes (content P L) (has_bucket P L) db db' k (flatten ds)
        × ((a : String) → L.bucket_row db' a ≡ L.bucket_row db a)
        × ((u : P.Uuid) (n : String) → L.due db' u n ≡ L.due db u n)
  unfolding upload append_chunks fulfils
  upload_tables db k ds h ready holds fits each =
      let (h', p', e, holds') = append_chunks-lem S K db k ds [] h [] 0 holds (omega arith) each in
      let (db', e', ready', writes, _, buckets, dues) =
        commit_tables P L R h' db db k (flatten ds) p' ready holds'
          (SameFile-refl P L db k ready.1) in
      (db', rw (← append-nil (map chunk ds)) (rw (e, e')), ready', writes, buckets, dues)

  -- What a PUT of a new file leaves, with the date that `create_file` computes.
  pub put_dated :
      (db : P.Db) (b n : String) (ds : List Bytes)
      → Ready P L db
      → has_bucket P L db b ≡ true
      → content P L db (b, n) ≡ none
      → length (flatten ds) ≤ K.max_file
      → ChunksFit S K ds
      → (bk : PostgresBucket P) × (db' : P.Db) × (until : Option ℤ) × (bucket_named P db b ≡ ok bk)
        × (put_write_filename S n (record { bucket_name = b }) (map chunk ds) db ≡ (ok tt, db'))
        × Ready P L db'
        × Writes (content P L) (has_bucket P L) db db' (b, n) (flatten ds)
        × (delete_after R {E = FileCreateError (Fault P.SqlError)} bk.default_ttl ≡ ok until)
        × (due_of P L db' (b, n) ≡ until)
        × ((j : Key) → j ≢ (b, n) → due_of P L db' j ≡ due_of P L db j)
  put_dated db b n ds ready there absent fits each =
      let (bk, e, names) = bucket_named_found P L db b ready there in
      let (h, v, e', holds, up, created, _, rows, until, limit, dated, others) =
        create_file_tables P L R T db bk b n ready names absent in
      let (db', e'', ready', writes, rows', dues) =
        upload_tables v (b, n) ds h up holds fits each in
      let (r, row, id, _) = names in
      (
        bk,
        db',
        until,
        e,
        put_created S db v b n bk h (map chunk ds) e e' ∙ e'',
        ready',
        Writes-trans (content P L) (has_bucket P L) created writes,
        limit,
        due_of_row P L db' b n r (rows' b ∙ rows b ∙ row) ∙ dues r.id n ∙ rw id dated,
        λ (a, m) ne. due_of_same P L db db' a m (rows' a ∙ rows a) (λ s at_a.
            dues s.id m
            ∙ others s.id m (λ same. ne (
                same_key (L.bucket_id_unique db a b s r ready.0 at_a row (same.0 ∙ sym id))
                  same.1))),
      )

-- The date of a file, from the time to live of its bucket: none if it has none, and otherwise the time
-- of the clock with the time to live added, which can be represented.
abbrev pub Dated : Runtime → Option TimeDelta → Option ℤ → Type 0
Dated R none until = until ≡ none
Dated R (some ttl) until = (t : ℤ) × (until ≡ some t) × (R.from_now ttl ≡ some t)

pub delete_after-Dated :
    {E : Type 0} (R : Runtime) (ttl : Option TimeDelta) (until : Option ℤ)
    → delete_after R {E = E} ttl ≡ ok until
    → Dated R ttl until
unfolding delete_after
delete_after-Dated R none until e = sym (ok-injective e)
delete_after-Dated R (some ttl) until e = elim (Option-cases (R.from_now ttl)) [
  | inl overflows ↦ cc (rw overflows at e)
  | inr (t, now) ↦ (t, sym (ok-injective (rw now at e)), now)
]
