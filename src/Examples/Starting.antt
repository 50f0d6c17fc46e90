-- ===== src/Examples/Starting.antt =====
-- The theorems on the start of the program (Start) at the database of Examples/Shelf.
use Prim.Native.String.{String}
use locally_euclidean.Prelude.{◌≡◌, refl, false, true, none, some, ok}
use locally_euclidean.Postgres.Memory.{memory}
use locally_euclidean.Postgres.Memory.Lawful.{memory-IsPostgres}
use locally_euclidean.Backend.View.{has_bucket}
use locally_euclidean.Start.{Database, Network}
use locally_euclidean.Start.Config.{
  ConfigLibrary, AppConfig, build, deserialize, default_max_upload_size,
  default_allowed_content_types, default_bind_address,
}
use locally_euclidean.Start.Lifecycle.{
  Service, try_join, joined, started, after_round, after_listener, interrupted, listener_ended,
  task_woken, Steps, stay, then_step, well, failed,
}
use locally_euclidean.Start.Lifecycle.Ends.{listener_ended_cancelled, ends_well_cancelled}
use locally_euclidean.Examples.Shelf.{L, shelf}

-- A server whose schema is up to date.
abbrev pub migrated : Database memory
migrated = record {
  connect_lazy = λ connection. ok tt;
  select_one = λ db. ok tt;
  run_migrations = λ db. (ok tt, db);
}

-- A configuration that names the database alone.
abbrev pub only_database : ConfigLibrary
only_database = record {
  Error = String;
  Tree = String;
  collect = λ sources. ok "postgres:///shelf";
  number = λ t name. ok none;
  texts = λ t name. ok none;
  address = λ t name. ok none;
  text = λ t name. ok (some t);
  missing_field = λ name. name;
}

-- A host on which any address can be bound.
abbrev pub loopback : Network
loopback = record { Error = String; bind = λ address. ok tt }

abbrev pub config : AppConfig
config = record {
  max_upload_size_mb = default_max_upload_size;
  allowed_content_types = default_allowed_content_types;
  bind_address = default_bind_address;
  db_connection_string = "postgres:///shelf";
}

pub config_built : build only_database ≡ ok config
unfolding build deserialize
config_built = refl

pub no_bucket : has_bucket memory L shelf "other" ≡ false
unfolding has_bucket memory-IsPostgres
no_bucket = refl

abbrev stopping : Service
stopping = record { cancelled = true; listener = none; tasks = none }

abbrev half_stopped : Service
half_stopped = record { cancelled = true; listener = none; tasks = some well }

abbrev stopped : Service
stopped = record { cancelled = true; listener = some well; tasks = some well }

stops : Steps started stopped
unfolding started try_join after_round after_listener
stops =
    then_step
      (then_step (then_step (stay started) (interrupted started refl refl))
        (task_woken stopping refl refl))
      (listener_ended half_stopped well refl refl (λ e. refl))

stopped_well : joined stopped ≡ some well
unfolding try_join
stopped_well = refl

ends_well_cancelled_example :
    (stopped.cancelled ≡ true) × (stopped.listener ≡ some well) × (stopped.tasks ≡ some well)
ends_well_cancelled_example = ends_well_cancelled stopped stops stopped_well

-- The listener fails at once.
abbrev unheard : Service
unheard = record { cancelled = true; listener = some failed; tasks = none }

fails : Steps started unheard
unfolding started try_join after_listener
fails = then_step (stay started) (listener_ended started failed refl refl (λ e. cc))

listener_ended_cancelled_example :
    (unheard.cancelled ≡ true) × (after_round unheard.cancelled ≡ some well)
listener_ended_cancelled_example = listener_ended_cancelled unheard failed fails refl
