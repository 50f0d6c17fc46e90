-- ===== src/Start/Commands.antt =====
-- What the commands of server/src/main.rs do.
use Prim.Native.String.{String}
use locally_euclidean.Prelude.{List, Bool, ◌≡◌, ◌≢◌, refl, true, false, ℤ, Option, none, ok, err}
use locally_euclidean.Storage.{file_exists}
use locally_euclidean.Storage.Contract.{Key}
use locally_euclidean.Postgres.{Postgres, TimeDelta, Sendable}
use locally_euclidean.Postgres.Laws.{IsPostgres}
use locally_euclidean.Backend.Bucket.{PostgresBucket, bucket_named}
use locally_euclidean.Backend.View.{Ready, has_bucket, content}
use locally_euclidean.Backend.Create.{create_bucket_new, create_bucket_taken}
use locally_euclidean.Start.Config.{ConfigLibrary, AppConfig, build}
use locally_euclidean.Start.{
  Database, Network, create_bucket_named, creating_the_bucket_failed, migrate, new_state,
  run_maintenance, run, configured, Console,
}

module _ (P : Postgres) (D : Database P) (L : ConfigLibrary) (N : Network) (C : Console)
    (rounds : List Bool) (I : IsPostgres P) (config : AppConfig) (db migrated : P.Db)
    (name : String) (ttl : Option TimeDelta) (m : Option ℤ) where
  -- `maintenance create-bucket`, with a name that is free, a time to
  -- live that can be sent, a configuration that can be built, a
  -- connection string that can be read, and a database that answers and whose migrations leave it sound:
  -- it succeeds, the name then opens a bucket with the time to live of the command, the other buckets
  -- are as they were, no file changes, and the database stays sound.
  pub configured_bucket_new :
      build L ≡ ok config
      → D.connect_lazy config.db_connection_string ≡ ok tt
      → D.select_one db ≡ ok tt
      → D.run_migrations db ≡ (ok tt, migrated)
      → Ready P I migrated
      → Sendable ttl m
      → has_bucket P I migrated name ≡ false
      → (bk : PostgresBucket P) × (db' : P.Db) × (configured P D L N C rounds
            (create_bucket_named name ttl)
            db
          ≡ (ok none, db'))
        × Ready P I db'
        × (bucket_named P db' name ≡ ok bk)
        × (bk.default_ttl ≡ ttl)
        × ((a : String) → a ≢ name → has_bucket P I db' a ≡ has_bucket P I migrated a)
        × ((k : Key) → content P I db' k ≡ content P I migrated k)
  unfolding configured run run_maintenance new_state migrate
  configured_bucket_new built connected answers migrations ready whole free =
      let (bk, db', e, ready', named, same_ttl, buckets, files) =
        create_bucket_new P I migrated name ttl m ready whole free in
      (
        bk,
        db',
        rw (built, connected, answers, migrations, e) refl,
        ready',
        named,
        same_ttl,
        buckets,
        files,
      )

  -- With a name that is taken and a time to live that can be sent, `maintenance create-bucket` reports
  -- that the creation of the bucket failed because it is there, and the migrations are all that has happened.
  pub configured_bucket_taken :
      build L ≡ ok config
      → D.connect_lazy config.db_connection_string ≡ ok tt
      → D.select_one db ≡ ok tt
      → D.run_migrations db ≡ (ok tt, migrated)
      → Ready P I migrated
      → Sendable ttl m
      → has_bucket P I migrated name ≡ true
      → configured P D L N C rounds (create_bucket_named name ttl) db
        ≡ (err (creating_the_bucket_failed file_exists), migrated)
  unfolding configured run run_maintenance new_state migrate
  configured_bucket_taken built connected answers migrations ready whole taken =
      rw
        (
          built,
          connected,
          answers,
          migrations,
          create_bucket_taken P I migrated name ttl m ready whole taken,
        )
        refl
