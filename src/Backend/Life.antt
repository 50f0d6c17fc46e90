-- ===== src/Backend/Life.antt =====
-- How long a file lives: from the time to live of its bucket, by `create_file` of
-- storage/src/postgres/mod.rs, to the deletion of old files by the loop of server/src/tasks.rs.
use Prim.Native.String.{String}
use locally_euclidean.Prelude.{
  ℕ, ℤ, ◌≤◌, ◌<◌, ltb_ℤ, ◌≡◌, ◌≢◌, sym, ◌∙◌, ap, Bool, true, false, none, some, Option-cases, inl,
  inr, ok, ok-injective, Bool-cases, List, map, flatten, Bytes, length, arith,
}
use locally_euclidean.Storage.Contract.{Key, Writes}
use locally_euclidean.Storage.{FileCreateError}
use locally_euclidean.Faults.{Fault}
use locally_euclidean.Postgres.{Postgres}
use locally_euclidean.Postgres.Laws.{IsPostgres}
use locally_euclidean.Runtime.{Runtime, IsTokio}
use locally_euclidean.Api.{chunk}
use locally_euclidean.Api.Among.{Others, Others_keep}
use locally_euclidean.Api.Upload.Effect.{ChunksFit}
use locally_euclidean.Api.Write.{put_write_filename}
use locally_euclidean.Api.Write.Effect.{put_without_bucket, put_existing}
use locally_euclidean.Backend.Bucket.{PostgresBucket, bucket_named, delete_after}
use locally_euclidean.Backend.Traits.{postgres_storage}
use locally_euclidean.Backend.View.{Ready, has_bucket, content, SameFile-content}
use locally_euclidean.Backend.Fulfils.{fulfils}
use locally_euclidean.Backend.Cleanup.{Event, delete_old_files_batch, maintenance}
use locally_euclidean.Backend.Cleanup.Rounds.{Keep, maintenance_keeps}
use locally_euclidean.Backend.Cleanup.Effect.{
  due_of, due_of_same, is_expired, delete_old_files_batch-Cleaned,
}
use locally_euclidean.Backend.Dates.{Dated, delete_after-Dated, put_dated}

module _ (P : Postgres) (L : IsPostgres P) (R : Runtime) (T : IsTokio R) where
  -- Over a server that answers in a sound state: a PUT on a new file in a bucket that is there, with a
  -- whole body that fits the limits, succeeds. The file then holds the body; it is never to be deleted
  -- if the bucket has no time to live, and otherwise may be deleted at the time of the clock with the
  -- time to live added, which can be represented; what every other file holds, when it may be
  -- deleted, and the buckets are as they were.
  pub put_dates :
      (db : P.Db) (b n : String) (ds : List Bytes)
      → Ready P L db
      → has_bucket P L db b ≡ true
      → content P L db (b, n) ≡ none
      → length (flatten ds) ≤ L.max_object
      → ChunksFit (postgres_storage P R) (fulfils P R L T) ds
      → (bk : PostgresBucket P) × (db' : P.Db) × (bucket_named P db b ≡ ok bk)
        × (put_write_filename
              (postgres_storage P R)
              n
              (record { bucket_name = b })
              (map chunk ds)
              db
            ≡ (ok tt, db'))
        × Ready P L db'
        × Writes (content P L) (has_bucket P L) db db' (b, n) (flatten ds)
        × Dated R bk.default_ttl (due_of P L db' (b, n))
        × ((j : Key) → j ≢ (b, n) → due_of P L db' j ≡ due_of P L db j)
  unfolding fulfils
  put_dates db b n ds ready there absent fits each =
      let (bk, db', until, named, e, ready', writes, limit, dated, others) =
        put_dated P L R T db b n ds ready there absent fits each in
      (
        bk,
        db',
        named,
        e,
        ready',
        writes,
        rw dated (delete_after-Dated R bk.default_ttl until limit),
        others,
      )

module _ (P : Postgres) (L : IsPostgres P) where
  -- The file is there with these bytes, and is never to be deleted.
  abbrev pub IsKept : Key → Bytes → P.Db → Type 0
  IsKept k c db = Ready P L db × (content P L db k ≡ some c) × (due_of P L db k ≡ none)

  batch-IsKept :
      (k : Key) (c : Bytes) (db : P.Db) → IsKept k c db → IsKept k c (delete_old_files_batch P db).1
  batch-IsKept k c db (ready, there, undated) =
      let (_, db', _, e, ready', cleaned, _) = delete_old_files_batch-Cleaned P L db ready in
      let live : is_expired P L db k ≡ false = rw undated in
      rw e (ready', cleaned.kept k live ∙ there, cleaned.kept_due k live ∙ undated)

module _ (P : Postgres) (L : IsPostgres P) (R : Runtime) (T : IsTokio R) where
  -- A PUT with a whole body that fits the limits, on whatever file, keeps every file that is kept.
  pub put_keeps :
      (k : Key) (c : Bytes) (b n : String) (ds : List Bytes)
      → length (flatten ds) ≤ L.max_object
      → ChunksFit (postgres_storage P R) (fulfils P R L T) ds
      → (db : P.Db) → IsKept P L k c db
      → IsKept P L k c
          (put_write_filename
            (postgres_storage P R)
            n
            (record { bucket_name = b })
            (map chunk ds)
            db).1
  unfolding fulfils
  put_keeps k c b n ds fits each db (ready, holds, undated) =
      elim (Bool-cases (has_bucket P L db b)) [
        | inr missing ↦
            rw
              (put_without_bucket (postgres_storage P R) (fulfils P R L T) db ready b n
                (map chunk ds) missing)
              (ready, holds, undated)
        | inl there ↦ elim (Option-cases (content P L db (b, n))) [
          | inr (d, found) ↦
              rw
                (put_existing (postgres_storage P R) (fulfils P R L T) db ready b n ds d there
                  found)
                (ready, holds, undated)
          | inl absent ↦
              let (_, db', _, _, e, ready', writes, _, _, others) =
                put_dated P L R T db b n ds ready there absent fits each in
              let other : k ≢ (b, n) = λ same. cc (sym holds ∙ ap (content P L db) same ∙ absent) in
              rw e (ready', writes.untouched k other ∙ holds, others k other ∙ undated)
        ]
      ]

  -- A request that does no more than to create and to commit other files keeps a file that is kept.
  others_keep :
      (k : Key) (c : Bytes) (request : P.Db → P.Db)
      → ((db : P.Db)
          → Ready P L db
          → Others (postgres_storage P R) (fulfils P R L T) k db (request db))
      → (db : P.Db) → IsKept P L k c db
      → IsKept P L k c (request db)
  unfolding fulfils
  others_keep (b, n) c request others db (ready, holds, undated) =
      let (ready', same) =
        Others_keep (postgres_storage P R) (fulfils P R L T) (b, n) ready (others db ready) in
      (
        ready',
        SameFile-content P L db (request db) (b, n) same ∙ holds,
        due_of_same P L db (request db) b n same.same_bucket same.same_due ∙ undated,
      )

  -- Over a server that answers in a sound state: what a PUT with a whole body that fits the limits
  -- stores as a new file of a bucket without a time to live is never deleted by the maintenance task,
  -- however often it wakes, cancelled or not, and whatever requests are served in between, as long as
  -- none of them changes the file or when it may be deleted, or leaves the state unsound.
  pub put-IsKept :
      (db : P.Db) (b n : String) (ds : List Bytes) (bk : PostgresBucket P)
      (events : List (Event P.Db)) (running : Bool)
      → Ready P L db
      → bucket_named P db b ≡ ok bk
      → bk.default_ttl ≡ none
      → has_bucket P L db b ≡ true
      → content P L db (b, n) ≡ none
      → length (flatten ds) ≤ L.max_object
      → ChunksFit (postgres_storage P R) (fulfils P R L T) ds
      → Keep (IsKept P L (b, n) (flatten ds)) events
      → (db' : P.Db) × (put_write_filename
            (postgres_storage P R)
            n
            (record { bucket_name = b })
            (map chunk ds)
            db
          ≡ (ok tt, db'))
        × IsKept P L (b, n) (flatten ds) (maintenance P running events db')
  unfolding delete_after fulfils
  put-IsKept db b n ds bk events running ready named unlimited there absent fits each keep =
      let (bk', db', until, named', e, ready', writes, limit, dated, _) =
        put_dated P L R T db b n ds ready there absent fits each in
      let same : bk' ≡ bk = ok-injective (sym named' ∙ named) in
      let never : none ≡ until = ok-injective (rw (same, unlimited) at limit) in
      (
        db',
        e,
        maintenance_keeps P (IsKept P L (b, n) (flatten ds)) (batch-IsKept P L (b, n) (flatten ds))
            events running db' keep (ready', writes.written, dated ∙ sym never),
      )

  -- Over a server that answers in a sound state: a file that was stored by a PUT on a new file of a bucket
  -- with a time to live, with a whole body that fits the limits, is deleted by a batch that runs in a
  -- later sound state, if the server reports fewer than 1000 rows, the file's date has stayed as it was,
  -- and the clock is past the time that `create_file` computed.
  pub put_expires :
      (db db' later : P.Db) (b n : String) (ds : List Bytes) (bk : PostgresBucket P) (t : ℤ)
      (affected : ℕ)
      → Ready P L db
      → bucket_named P db b ≡ ok bk
      → delete_after R {E = FileCreateError (Fault P.SqlError)} bk.default_ttl ≡ ok (some t)
      → has_bucket P L db b ≡ true
      → content P L db (b, n) ≡ none
      → length (flatten ds) ≤ L.max_object
      → ChunksFit (postgres_storage P R) (fulfils P R L T) ds
      → put_write_filename (postgres_storage P R) n (record { bucket_name = b }) (map chunk ds) db
        ≡ (ok tt, db')
      → Ready P L later
      → due_of P L later (b, n) ≡ due_of P L db' (b, n)
      → ltb_ℤ t (L.now later) ≡ true
      → (P.delete_expired 1000 later).0 ≡ ok affected
      → affected < 1000
      → content P L (delete_old_files_batch P later).1 (b, n) ≡ none
  unfolding fulfils
  put_expires db db' later b n ds bk t affected ready named limited there absent fits each put
        ready' undisturbed late reported few =
      let (bk', db'', until, named', e, _, _, limit, dated, _) =
        put_dated P L R T db b n ds ready there absent fits each in
      let same : bk' ≡ bk = ok-injective (sym named' ∙ named) in
      let at : until ≡ some t =
        ok-injective (sym limit ∙ ap (λ x. delete_after R x.default_ttl) same ∙ limited) in
      let stored : db'' ≡ db' = ap (λ p. p.1) (sym e ∙ put) in
      let due : due_of P L later (b, n) ≡ some t =
        undisturbed ∙ sym (ap (λ d. due_of P L d (b, n)) stored) ∙ dated ∙ at in
      let (k, swept, told, e', _, _, cleared) = delete_old_files_batch-Cleaned P L later ready' in
      let counted : k ≡ affected = ok-injective (sym told ∙ reported) in
      rw e' (cleared (omega (arith, counted)) (b, n) (rw due late))
