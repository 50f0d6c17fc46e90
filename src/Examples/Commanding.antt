-- ===== src/Examples/Commanding.antt =====
-- The theorems on the command line (Start/CommandLine, Start/Serving) at a console that reads two
-- durations.
use Prim.Native.String.{String}
use text.Mathlib.Text.{◌==◌ as str_eq, starts_with}
use locally_euclidean.Prelude.{
  ℕ, ◌*◌, ◌≡◌, ◌≢◌, refl, pos, Bool, false, true, map, ◌&&◌, if◌then◌else◌, ltb, not, Option, none,
  some, Outcome, ok, err, panic, and_then, List, [], ◌∷◌, arith,
}
use locally_euclidean.Storage.Contract.{Key}
use locally_euclidean.Postgres.{TimeDelta}
use locally_euclidean.Postgres.Memory.{Db, memory}
use locally_euclidean.Backend.Bucket.{PostgresBucket, bucket_named}
use locally_euclidean.Backend.View.{Ready, has_bucket, content}
use locally_euclidean.Backend.Cleanup.{woken, delete_old_files_batch, maintenance}
use locally_euclidean.Start.{Console, Subcommand, serve, create_bucket_named, parse_timedelta, main}
use locally_euclidean.Start.Config.{AppConfig, build, deserialize, default_bind_address}
use locally_euclidean.Start.Lifecycle.{started}
use locally_euclidean.Start.Serving.{main_serving}
use locally_euclidean.Start.CommandLine.{IsConsole, create_words, main_creates, main_long_ttl}
use locally_euclidean.Examples.Shelf.{L, shelf, shelf-Ready}
use locally_euclidean.Examples.Starting.{
  migrated, only_database, loopback, config, config_built, no_bucket,
}

-- Durations are whole seconds.
abbrev parse_seconds : String → Outcome String ℕ
parse_seconds input =
    if str_eq input "5s"
    then ok 5
    else (if str_eq input "10000000000y" then ok 315_576_000_000_000_000 else err "unknown unit")

abbrev from_seconds : ℕ → Option TimeDelta
from_seconds n = if ltb n 9_223_372_036_854_775 then some (pos (n * 1_000_000_000)) else none

abbrev is_value : String → Bool
is_value word = not (starts_with word "-")

abbrev creates : String → String → String → Bool
creates a b name = str_eq a "maintenance" && str_eq b "create-bucket" && is_value name

abbrev parse_words : (String → Outcome String TimeDelta) → List String → Outcome String Subcommand
parse_words f (a ∷ []) = if str_eq a "serve" then ok serve else err "usage"
parse_words f (a ∷ b ∷ name ∷ []) =
    if creates a b name then ok (create_bucket_named name none) else err "usage"
parse_words f (a ∷ b ∷ name ∷ ttl ∷ []) =
    if creates a b name && is_value ttl
    then and_then (f ttl) (λ t. ok (create_bucket_named name (some t)))
    else err "usage"
parse_words f _ = err "usage"

abbrev console : Console
console = record {
  Duration = ℕ;
  DurationError = String;
  UsageError = String;
  TracingError = String;
  parse_duration = parse_seconds;
  from_std = from_seconds;
  parse_args = parse_words;
  init_subscribers = ok tt;
}

console-IsConsole : IsConsole console
console-IsConsole = record {
  parse_serve = λ f. refl;
  parse_create = λ f name value. rw value;
  parse_create_ttl = λ f name ttl t value value' e. rw (value, value', e);
  parse_create_error = λ f name ttl e value value' h. (e, rw (value, value', h));
  parse_create_panic = λ f name ttl value value' h. rw (value, value', h);
}

abbrev rounds : List Bool
rounds = false ∷ []

main_creates_example :
    (bk : PostgresBucket memory) × (db' : Db) × (main memory migrated only_database loopback console
        rounds
        (create_words "other" "5s")
        shelf
      ≡ (ok none, db'))
    × Ready memory L db'
    × (bucket_named memory db' "other" ≡ ok bk)
    × (bk.default_ttl ≡ some (pos 5_000_000_000))
    × ((a : String) → a ≢ "other" → has_bucket memory L db' a ≡ has_bucket memory L shelf a)
    × ((k : Key) → content memory L db' k ≡ content memory L shelf k)
main_creates_example =
    main_creates memory migrated only_database loopback console rounds console-IsConsole shelf
      "other" "5s" L config shelf 5 (pos 5_000_000_000) (pos 5_000_000) refl refl refl refl
      (refl, omega arith) refl config_built refl refl refl shelf-Ready no_bucket

main_long_ttl_example :
    main memory migrated only_database loopback console rounds
      (create_words "other" "10000000000y")
      shelf
    ≡ (panic, shelf)
main_long_ttl_example =
    main_long_ttl memory migrated only_database loopback console rounds console-IsConsole shelf
      "other" "10000000000y" 315_576_000_000_000_000 refl refl refl refl refl

-- A round comes before the listener is bound.
abbrev swept : Db
swept = (delete_old_files_batch memory shelf).1

serving :
    main memory migrated only_database loopback console rounds ("serve" ∷ []) shelf
    ≡ (ok (some (default_bind_address, started)), swept)
unfolding main build deserialize maintenance
serving = refl

main_serving_example :
    (console.parse_args (parse_timedelta console) ("serve" ∷ []) ≡ ok serve)
    × (config : AppConfig) × (build only_database ≡ ok config)
    × (migrated.connect_lazy config.db_connection_string ≡ ok tt)
    × (migrated.select_one shelf ≡ ok tt)
    × (db : Db) × (migrated.run_migrations shelf ≡ (ok tt, db))
    × (swept ≡ maintenance memory true (map woken rounds) db)
    × (default_bind_address ≡ config.bind_address)
    × (loopback.bind default_bind_address ≡ ok tt)
    × (started ≡ started)
main_serving_example =
    main_serving memory migrated only_database loopback console rounds shelf swept ("serve" ∷ [])
      default_bind_address started serving
