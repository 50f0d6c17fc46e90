-- ===== src/Start.antt =====
-- How the program starts: server/src/config.rs (Start/Config), `AppStateInner` of server/src/lib.rs and
-- `main` of server/src/main.rs, on a command line (Start/CommandLine); and how the service runs and
-- ends (Start/Lifecycle).
pub mod Config
pub mod Lifecycle
pub mod Commands
pub mod Serving
pub mod CommandLine
use Prim.Native.String.{String}
use locally_euclidean.Prelude.{
  Option, none, some, Outcome, ok, panic, and_then, List, Exec, continue, map_err, Bool, true, map,
}
use locally_euclidean.Storage.{FileCreateError}
use locally_euclidean.Faults.{Fault}
use locally_euclidean.Postgres.{Postgres, TimeDelta}
use locally_euclidean.Backend.Bucket.{create_bucket}
use locally_euclidean.Backend.Cleanup.{woken, maintenance}
use locally_euclidean.Start.Config.{SocketAddr, ConfigLibrary, AppConfig, ConfigBuildError, build}
use locally_euclidean.Start.Lifecycle.{Service, started}

-- What sqlx does beside the statements: a lazy pool, which only reads the connection string; the
-- statement `select 1`; and the migrations of the build.
pub record Database (P : Postgres) : Type 0 where
  pub connect_lazy : String → Outcome P.SqlError Unit
  pub select_one : P.Db → Outcome P.SqlError Unit
  pub run_migrations : Exec P.Db P.SqlError Unit

pub data AppStartupError (E : Type 0) : Type 0 where
  connect_to_db : E → AppStartupError E
  migrate_failed : E → AppStartupError E

-- What is used of tokio's network: `TcpListener::bind`.
pub record Network : Type 1 where
  pub Error : Type 0
  pub bind : SocketAddr → Outcome Error Unit

-- The command line, parsed. `maintenance create-bucket` is the one maintenance task.
pub data Subcommand : Type 0 where
  serve : Subcommand
  create_bucket_named : String → Option TimeDelta → Subcommand

-- What is used of humantime and chrono: `parse_duration`, and `TimeDelta::from_std`, which fails on a
-- duration that is too long; of clap: `Args::parse` with the parser of durations of the program, on the
-- words of the command line; and `init_subscribers` of server/src/tracing_setup.rs.
pub record Console : Type 1 where
  pub Duration : Type 0
  pub DurationError : Type 0
  pub UsageError : Type 0
  pub TracingError : Type 0
  pub parse_duration : String → Outcome DurationError Duration
  pub from_std : Duration → Option TimeDelta
  pub parse_args :
      (String → Outcome DurationError TimeDelta) → List String → Outcome UsageError Subcommand
  pub init_subscribers : Outcome TracingError Unit

-- How the program ends early: a report, or the usage of the command line, with which clap exits.
pub data Report (P : Postgres) (L : ConfigLibrary) (N : Network) (C : Console) : Type 0 where
  tracing_setup_failed : C.TracingError → Report P L N C
  usage : C.UsageError → Report P L N C
  configuration : ConfigBuildError L → Report P L N C
  startup : AppStartupError P.SqlError → Report P L N C
  creating_the_bucket_failed : FileCreateError (Fault P.SqlError) → Report P L N C
  failed_to_create_listener : N.Error → Report P L N C

-- `.expect("duration out of range")`
abbrev in_range : {E : Type 0} → Option TimeDelta → Outcome E TimeDelta
in_range none = panic
in_range (some t) = ok t

unfoldable pub parse_timedelta : (C : Console) → String → Outcome C.DurationError TimeDelta
parse_timedelta C input =
    and_then (C.parse_duration input) (λ duration. in_range (C.from_std duration))

module _ (P : Postgres) (D : Database P) where
  -- `PostgresBackend::migrate`
  pub migrate : Exec P.Db P.SqlError Unit
  migrate db = continue (D.select_one db) (λ _. D.run_migrations) db

  -- `AppStateInner::new`: the state is the configuration, and the pool that it names.
  new_state : AppConfig → Exec P.Db (AppStartupError P.SqlError) AppConfig
  unfolding migrate
  new_state config db =
      continue (map_err connect_to_db (D.connect_lazy config.db_connection_string))
        (λ _ now.
          continue (map_err migrate_failed (migrate now).0) (λ _ later. (ok config, later))
            (migrate now).1)
        db

  -- The rounds that the maintenance task comes to before the listener is bound, each with what it finds
  -- of its token, are the scheduler's to choose.
  module _ (L : ConfigLibrary) (N : Network) (C : Console) (rounds : List Bool) where
    run_maintenance : AppConfig → String → Option TimeDelta → Exec P.Db (Report P L N C) Unit
    unfolding new_state
    run_maintenance config name default_ttl db =
        continue (map_err startup (new_state config db).0)
          (λ state now.
            continue (map_err creating_the_bucket_failed (create_bucket P name default_ttl now).0)
              (λ bucket later. (ok tt, later)) (create_bucket P name default_ttl now).1)
          (new_state config db).1

    -- The arms of `match args.subcommand`, up to `try_join!`. The router that `make_app` gives is
    -- `serve` of App. The command `serve` spawns the task that waits for
    -- Ctrl-C and the maintenance task, and then binds the listener. The service is given with the
    -- address that it listens on and as it is spawned: what becomes of its token and its task before
    -- the listener is bound is among its steps (Start/Lifecycle).
    run : AppConfig → Subcommand → Exec P.Db (Report P L N C) (Option (SocketAddr × Service))
    unfolding run_maintenance new_state started
    run config serve db =
        continue (map_err startup (new_state config db).0)
          (λ state now.
            continue (map_err failed_to_create_listener (N.bind state.bind_address))
              (λ listener later. (ok (some (state.bind_address, started)), later))
              (maintenance P true (map woken rounds) now))
          (new_state config db).1
    run config (create_bucket_named name default_ttl) db =
        continue (run_maintenance config name default_ttl db).0 (λ _ later. (ok none, later))
          (run_maintenance config name default_ttl db).1

    -- `main` from the building of the configuration on.
    unfoldable pub configured :
        Subcommand → Exec P.Db (Report P L N C) (Option (SocketAddr × Service))
    unfolding run
    configured subcommand db =
        continue (map_err configuration (build L)) (λ config. run config subcommand) db

    -- `main`, on the words of the command line.
    unfoldable pub main : List String → Exec P.Db (Report P L N C) (Option (SocketAddr × Service))
    unfolding configured parse_timedelta
    main words db =
        continue (map_err tracing_setup_failed C.init_subscribers)
          (λ _. continue (map_err usage (C.parse_args (parse_timedelta C) words)) configured) db
