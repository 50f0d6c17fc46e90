-- ===== src/Start/CommandLine.antt =====
-- The command line of server/src/main.rs: `parse_timedelta`, and `maintenance create-bucket` from its
-- words on.
use Prim.Native.String.{String}
use text.Mathlib.Text.{starts_with}
use locally_euclidean.Prelude.{
  Bool, ◌≡◌, ◌≢◌, ◌∙◌, ap, continue, map_err, Outcome, false, ℤ, none, some, List, [], ◌∷◌, ok, err,
  panic,
}
use locally_euclidean.Storage.Contract.{Key}
use locally_euclidean.Postgres.{Postgres, TimeDelta, Sendable}
use locally_euclidean.Postgres.Laws.{IsPostgres}
use locally_euclidean.Backend.Bucket.{PostgresBucket, bucket_named}
use locally_euclidean.Backend.View.{Ready, has_bucket, content}
use locally_euclidean.Start.Config.{ConfigLibrary, AppConfig, build}
use locally_euclidean.Start.{
  Console, Database, Network, Subcommand, serve, create_bucket_named, tracing_setup_failed, usage,
  configured, parse_timedelta, main,
}
use locally_euclidean.Start.Commands.{configured_bucket_new}

-- A word that clap does not take for an option.
abbrev pub IsValue : String → Type 0
IsValue word = starts_with word "-" ≡ false

-- What is relied on of clap: it reads the commands that `Args` describes, and a time to live with the
-- parser that it is given, whose errors it reports and whose panics it lets through.
pub record IsConsole (C : Console) : Type 0 where
  pub parse_serve :
      (f : String → Outcome C.DurationError TimeDelta) → C.parse_args f ("serve" ∷ []) ≡ ok serve
  pub parse_create :
      (f : String → Outcome C.DurationError TimeDelta) (name : String)
      → IsValue name
      → C.parse_args f ("maintenance" ∷ "create-bucket" ∷ name ∷ [])
        ≡ ok (create_bucket_named name none)
  pub parse_create_ttl :
      (f : String → Outcome C.DurationError TimeDelta) (name ttl : String) (t : TimeDelta)
      → IsValue name
      → IsValue ttl
      → f ttl ≡ ok t
      → C.parse_args f ("maintenance" ∷ "create-bucket" ∷ name ∷ ttl ∷ [])
        ≡ ok (create_bucket_named name (some t))
  pub parse_create_error :
      (f : String → Outcome C.DurationError TimeDelta) (name ttl : String) (e : C.DurationError)
      → IsValue name
      → IsValue ttl
      → f ttl ≡ err e
      → (u : C.UsageError) × (C.parse_args f ("maintenance" ∷ "create-bucket" ∷ name ∷ ttl ∷ [])
          ≡ err u)
  pub parse_create_panic :
      (f : String → Outcome C.DurationError TimeDelta) (name ttl : String)
      → IsValue name
      → IsValue ttl
      → f ttl ≡ panic
      → C.parse_args f ("maintenance" ∷ "create-bucket" ∷ name ∷ ttl ∷ []) ≡ panic

abbrev pub create_words : String → String → List String
create_words name ttl = "maintenance" ∷ "create-bucket" ∷ name ∷ ttl ∷ []

module _ (P : Postgres) (D : Database P) (L : ConfigLibrary) (N : Network) (C : Console)
    (rounds : List Bool) (I : IsConsole C) (db : P.Db) (name ttl : String) where
  -- A command line that can be read does what its subcommand says.
  main-parsed :
      (words : List String) (subcommand : Subcommand)
      → C.init_subscribers ≡ ok tt
      → C.parse_args (parse_timedelta C) words ≡ ok subcommand
      → main P D L N C rounds words db ≡ configured P D L N C rounds subcommand db
  unfolding main
  main-parsed words subcommand set_up parsed =
      ap
        (λ r.
          continue (map_err tracing_setup_failed r)
            (λ _.
              continue (map_err usage (C.parse_args (parse_timedelta C) words))
                (configured P D L N C rounds))
            db)
        set_up
      ∙ ap (λ r. continue (map_err usage r) (configured P D L N C rounds) db) parsed

  -- `maintenance create-bucket NAME TTL`, with a name and a duration that are no options, a duration
  -- that humantime reads and that chrono can hold and sqlx send, a configuration that can be built, a
  -- connection string that can be read, a database that answers and whose migrations leave it sound,
  -- and a name that is free then: it succeeds, the name then opens a bucket with just that time to live,
  -- the other buckets are as they were, no file changes, and the database stays sound.
  pub main_creates :
      (G : IsPostgres P) (config : AppConfig) (migrated : P.Db) (d : C.Duration) (t : TimeDelta)
      (m : ℤ)
      → IsValue name
      → IsValue ttl
      → C.parse_duration ttl ≡ ok d
      → C.from_std d ≡ some t
      → Sendable (some t) (some m)
      → C.init_subscribers ≡ ok tt
      → build L ≡ ok config
      → D.connect_lazy config.db_connection_string ≡ ok tt
      → D.select_one db ≡ ok tt
      → D.run_migrations db ≡ (ok tt, migrated)
      → Ready P G migrated
      → has_bucket P G migrated name ≡ false
      → (bk : PostgresBucket P) × (db' : P.Db) × (main P D L N C rounds (create_words name ttl) db
          ≡ (ok none, db'))
        × Ready P G db'
        × (bucket_named P db' name ≡ ok bk)
        × (bk.default_ttl ≡ some t)
        × ((a : String) → a ≢ name → has_bucket P G db' a ≡ has_bucket P G migrated a)
        × ((k : Key) → content P G db' k ≡ content P G migrated k)
  unfolding main parse_timedelta
  main_creates G config migrated d t m name_value ttl_value reads holds whole set_up built connected
        answers migrations ready free =
      let parsed =
        I.parse_create_ttl (parse_timedelta C) name ttl t name_value ttl_value
          (rw (reads, holds)) in
      let (bk, db', e, ready', named, same_ttl, buckets, files) =
        configured_bucket_new P D L N C rounds G config db migrated name (some t) (some m) built
          connected answers migrations ready whole free in
      (
        bk,
        db',
        main-parsed (create_words name ttl) _ set_up parsed ∙ e,
        ready',
        named,
        same_ttl,
        buckets,
        files,
      )

  -- `maintenance create-bucket NAME TTL` with a text that humantime does not read ends with the usage of
  -- the command line, and changes nothing.
  main_unread_ttl :
      (e : C.DurationError)
      → IsValue name
      → IsValue ttl
      → C.parse_duration ttl ≡ err e
      → C.init_subscribers ≡ ok tt
      → (u : C.UsageError) × (main P D L N C rounds (create_words name ttl) db
          ≡ (err (usage u), db))
  unfolding main parse_timedelta
  main_unread_ttl e name_value ttl_value unread set_up =
      let (u, parsed) =
        I.parse_create_error (parse_timedelta C) name ttl e name_value ttl_value (rw unread) in
      (u, rw (set_up, parsed))

  -- `maintenance create-bucket NAME TTL`, with a duration that humantime reads and that is too long for
  -- chrono, ends with a panic, not with the usage of the command line; it changes nothing.
  pub main_long_ttl :
      (d : C.Duration)
      → IsValue name
      → IsValue ttl
      → C.parse_duration ttl ≡ ok d
      → C.from_std d ≡ none
      → C.init_subscribers ≡ ok tt
      → main P D L N C rounds (create_words name ttl) db ≡ (panic, db)
  unfolding main parse_timedelta
  main_long_ttl d name_value ttl_value reads overflows set_up =
      let parsed =
        I.parse_create_panic (parse_timedelta C) name ttl name_value ttl_value
          (rw (reads, overflows)) in
      rw (set_up, parsed)
