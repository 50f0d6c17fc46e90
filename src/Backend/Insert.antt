-- ===== src/Backend/Insert.antt =====
-- `create_file` of storage/src/postgres/mod.rs on a name that is free: the row and the object that
-- it adds, and that the state stays sound.
use Prim.Native.String.{String}
use mathlib.Core.Option.{some-injective}
use mathlib.Core.Logic.{dite}
use locally_euclidean.Prelude.{
  ℤ, Option, ◌≡◌, ◌≢◌, sym, ◌∙◌, ap, subst, none, some, ok, [], Bytes, String-discrete,
}
use locally_euclidean.Storage.Contract.{Key, Writes}
use locally_euclidean.Storage.{FileCreateError}
use locally_euclidean.Faults.{Fault}
use locally_euclidean.Postgres.{Postgres, FileRow}
use locally_euclidean.Postgres.Laws.{IsPostgres}
use locally_euclidean.Runtime.{Runtime, IsTokio}
use locally_euclidean.Backend.Times.{delete_after-ok}
use locally_euclidean.Backend.File.{PostgresFileHandle}
use locally_euclidean.Backend.Bucket.{PostgresBucket, delete_after, create_file}
use locally_euclidean.Backend.Holds.{Holds}
use locally_euclidean.Backend.Opens.{new_handle-Holds}
use locally_euclidean.Backend.View.{
  IsSound, Ready, Names, has_bucket, content, has_bucket_same, content_of_rows, content-none,
  content_same, SameFile, SameFile-step,
}

pub same_key : {a b m n : String} → a ≡ b → m ≡ n → ◌≡◌ {A = Key} (a, m) (b, n)
same_key p q = λ i. (p i, q i)

-- The state after a file has been inserted.
record Inserted {P : Postgres} (L : IsPostgres P) (db db' : P.Db) (u : P.Uuid) (n : String)
    (f : FileRow P.Uuid P.Oid) : Type 0 where
  new_row : L.file_row db' u n ≡ some f
  old_rows :
      (j : P.Uuid) (m : String) → ¬ ((j ≡ u) × (m ≡ n)) → L.file_row db' j m ≡ L.file_row db j m
  unused : L.object db f.blob ≡ none
  empty : L.object db' f.blob ≡ some []
  old_objects : (o : P.Oid) → o ≢ f.blob → L.object db' o ≡ L.object db o

module _ (P : Postgres) (L : IsPostgres P) (db db' : P.Db) (u : P.Uuid) (n : String)
    (f : FileRow P.Uuid P.Oid) (new : Inserted L db db' u n f) (sound : IsSound P L db) where
  -- A file that was there before has another object.
  other_object :
      (v : P.Uuid) (m : String) (g : FileRow P.Uuid P.Oid)
      → L.file_row db v m ≡ some g
      → g.blob ≢ f.blob
  other_object v m g found same =
      let (c, there) = sound.linked v m g found in
      cc (sym there ∙ ap (L.object db) same ∙ new.unused)

  same_file : (v : P.Uuid) (m : String) → Dec ((v ≡ u) × (m ≡ n))
  same_file v m =
      dite (L.uuid_discrete v u)
        (λ p. dite (String-discrete m n) (λ q. yes (p, q)) (λ q. no (λ e. q e.1)))
        (λ p. no (λ e. p e.0))

  is_new :
      (v : P.Uuid) (m : String) (g : FileRow P.Uuid P.Oid)
      → (v ≡ u) × (m ≡ n)
      → L.file_row db' v m ≡ some g
      → g ≡ f
  is_new v m g same found = some-injective g f (sym (rw (same.0, same.1) at found) ∙ new.new_row)

  was_old :
      (v : P.Uuid) (m : String) (g : FileRow P.Uuid P.Oid)
      → ¬ ((v ≡ u) × (m ≡ n))
      → L.file_row db' v m ≡ some g
      → L.file_row db v m ≡ some g
  was_old v m g differ found = sym (new.old_rows v m differ) ∙ found

  Inserted-linked :
      (v : P.Uuid) (m : String) (g : FileRow P.Uuid P.Oid)
      → L.file_row db' v m ≡ some g
      → (c : Bytes) × (L.object db' g.blob ≡ some c)
  Inserted-linked v m g found = elim (same_file v m) [
    | yes same ↦ (
      [],
      ap (λ (t : FileRow P.Uuid P.Oid). L.object db' t.blob) (is_new v m g same found) ∙ new.empty,
    )
    | no differ ↦
        let before = was_old v m g differ found in
        let (c, there) = sound.linked v m g before in
        (c, new.old_objects g.blob (other_object v m g before) ∙ there)
  ]

  Inserted-unshared :
      (v w : P.Uuid) (m l : String) (g h : FileRow P.Uuid P.Oid)
      → L.file_row db' v m ≡ some g
      → L.file_row db' w l ≡ some h
      → g.blob ≡ h.blob
      → (v ≡ w) × (m ≡ l)
  Inserted-unshared v w m l g h found found' shared = elim (same_file v m) [
    | yes same ↦ elim (same_file w l) [
      | yes same' ↦ (same.0 ∙ sym same'.0, same.1 ∙ sym same'.1)
      | no differ ↦ absurd (
          other_object w l h (was_old w l h differ found')
            (sym shared ∙ ap (λ (t : FileRow P.Uuid P.Oid). t.blob) (is_new v m g same found)))
    ]
    | no differ ↦ elim (same_file w l) [
      | yes same' ↦ absurd (
          other_object v m g (was_old v m g differ found)
            (shared ∙ ap (λ (t : FileRow P.Uuid P.Oid). t.blob) (is_new w l h same' found')))
      | no differ' ↦
          sound.unshared v w m l g h (was_old v m g differ found) (was_old w l h differ' found')
            shared
    ]
  ]

  Inserted-IsSound : IsSound P L db'
  Inserted-IsSound = record { linked = Inserted-linked; unshared = Inserted-unshared }

module _ (P : Postgres) (L : IsPostgres P) (R : Runtime) (T : IsTokio R) where
  -- What the creation of a file does, with what it means for a file that another handle is open on,
  -- and with what it leaves of the tables.
  pub create_file_tables :
      (db : P.Db) (bk : PostgresBucket P) (b n : String)
      → Ready P L db
      → Names P L db bk b
      → content P L db (b, n) ≡ none
      → (h : PostgresFileHandle P) × (db' : P.Db) × (create_file P R bk n db ≡ (ok h, db'))
        × Holds L h db' (b, n) [] 0
        × Ready P L db'
        × Writes (content P L) (has_bucket P L) db db' (b, n) []
        × ((u : P.Db) (j : Key) → j ≢ (b, n) → SameFile P L u db j → SameFile P L u db' j)
        × ((a : String) → L.bucket_row db' a ≡ L.bucket_row db a)
        × (until : Option ℤ) × (delete_after R {E = FileCreateError (Fault P.SqlError)}
              bk.default_ttl
            ≡ ok until)
        × (L.due db' bk.id n ≡ until)
        × ((u : P.Uuid) (m : String) → ¬ ((u ≡ bk.id) × (m ≡ n)) → L.due db' u m ≡ L.due db u m)
  unfolding create_file
  create_file_tables db bk b n ready (r, there, id, ttl) absent =
      let (until, limit) =
        delete_after-ok R T {E = FileCreateError (Fault P.SqlError)} P L db bk b ready.0
          (r, there, id, ttl) in
      let free = content-none P L db b n r ready.1 there absent in
      let (f, db', inserted, up', new_row, old_rows, buckets, unused, empty, old_objects) =
        L.insert_file_new db bk.id n b until r ready.0 there id (rw (← id) free) in
      let (dated, old_dates) = L.insert_file_due db db' bk.id n until f ready.0 inserted in
      let new : Inserted L db db' r.id n f =
        subst (λ u. Inserted L db db' u n f) (sym id)
          (record {
            new_row = new_row;
            old_rows = old_rows;
            unused = unused;
            empty = empty;
            old_objects = old_objects;
          }) in
      let there' = buckets b ∙ there in
      let (h, opened, holds) = new_handle-Holds P L db' b n r f [] up' there' new.new_row empty in
      (
        h,
        db',
        rw (limit, inserted, opened),
        holds,
        (up', Inserted-IsSound P L db db' r.id n f new ready.1),
        record {
          written = content_of_rows P L db' b n r f there' new.new_row ∙ empty;
          untouched = λ (a, m) ne.
              content_same P L db db' a m (buckets a)
                (λ s at_a. new.old_rows s.id m (λ same.
                  ne (same_key (L.bucket_id_unique db a b s r ready.0 at_a there same.0) same.1)))
                (λ s g at_a found.
                  old_objects g.blob (other_object P L db db' r.id n f new ready.1 s.id m g found));
          same_buckets = λ a. has_bucket_same P L db db' a (buckets a);
        },
        λ u j ne unmoved.
            SameFile-step P L u db db' j unmoved (buckets j.0)
              (λ s at_j. new.old_rows s.id j.1 (λ same.
                ne (same_key (L.bucket_id_unique db j.0 b s r ready.0 at_j there same.0) same.1)))
              (λ s at_j. old_dates s.id j.1 (λ same. ne (
                same_key (L.bucket_id_unique db j.0 b s r ready.0 at_j there (same.0 ∙ sym id))
                  same.1)))
              (λ s g at_j found.
                old_objects g.blob (other_object P L db db' r.id n f new ready.1 s.id j.1 g found)),
        buckets,
        until,
        limit,
        dated,
        old_dates,
      )

  pub create_file_step :
      (db : P.Db) (bk : PostgresBucket P) (b n : String)
      → Ready P L db
      → Names P L db bk b
      → content P L db (b, n) ≡ none
      → (h : PostgresFileHandle P) × (db' : P.Db) × (create_file P R bk n db ≡ (ok h, db'))
        × Holds L h db' (b, n) [] 0
        × Ready P L db'
        × Writes (content P L) (has_bucket P L) db db' (b, n) []
        × ((u : P.Db) (j : Key) → j ≢ (b, n) → SameFile P L u db j → SameFile P L u db' j)
  create_file_step db bk b n ready names absent =
      let (h, db', e, holds, ready', writes, apart, _, _, _, _, _) =
        create_file_tables db bk b n ready names absent in
      (h, db', e, holds, ready', writes, apart)
