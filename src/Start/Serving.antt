-- ===== src/Start/Serving.antt =====
-- When the `serve` command of server/src/main.rs comes to run the service.
use Prim.Native.String.{String}
use mathlib.Core.Option.{some-injective}
use locally_euclidean.Prelude.{
  Bool, true, map, ◌≡◌, refl, sym, ap, ◌∙◌, ok-injective, List, Option, some, Exec, ok, continue,
  continue-ok, Outcome-cases, inl, inr, map_err,
}
use locally_euclidean.Postgres.{Postgres}
use locally_euclidean.Backend.Cleanup.{woken, maintenance}
use locally_euclidean.Start.Config.{SocketAddr, ConfigLibrary, AppConfig, build}
use locally_euclidean.Start.Lifecycle.{Service, started}
use locally_euclidean.Start.{
  Database, Network, Subcommand, serve, create_bucket_named, Report, startup, connect_to_db,
  migrate_failed, failed_to_create_listener, migrate, new_state, run_maintenance, run, configured,
  main, Console, usage, tracing_setup_failed, configuration, parse_timedelta,
}

both : {A B : Type 0} {p : A × B} {a : A} {b : B} → p.0 ≡ a → p.1 ≡ b → p ≡ (a, b)
both e e' i = (e i, e' i)

module _ (P : Postgres) (D : Database P) (L : ConfigLibrary) (N : Network) (C : Console)
    (rounds : List Bool) (config : AppConfig) (db later : P.Db) where
  migrate-ok :
      {migrated : P.Db}
      → migrate P D db ≡ (ok tt, migrated)
      → (D.select_one db ≡ ok tt) × (D.run_migrations db ≡ (ok tt, migrated))
  unfolding migrate
  migrate-ok e = elim (Outcome-cases (D.select_one db)) [
    | inl (_, answers) ↦ (answers, rw answers at e)
    | inr (inl (x, fails)) ↦ cc (rw fails at e)
    | inr (inr panics) ↦ cc (rw panics at e)
  ]

  new_state-ok :
      (state : AppConfig)
      → (new_state P D config db).0 ≡ ok state
      → (D.connect_lazy config.db_connection_string ≡ ok tt)
        × (migrate P D db ≡ (ok tt, (new_state P D config db).1))
        × (state ≡ config)
  unfolding new_state
  new_state-ok state e =
      let (_, connected, e1) =
        continue-ok connect_to_db (D.connect_lazy config.db_connection_string)
          (λ _ now.
            continue (map_err migrate_failed (migrate P D now).0)
              (λ _ at_last. (ok config, at_last)) (migrate P D now).1)
          db (new_state P D config db).1 state (ap (λ o. (o, (new_state P D config db).1)) e) in
      let (_, migrated, e2) =
        continue-ok migrate_failed (migrate P D db).0 (λ _ at_last. (ok config, at_last))
          (migrate P D db).1 _ state e1 in
      (connected, both migrated (ap (λ p. p.1) e2), sym (ok-injective (ap (λ p. p.0) e2)))

  configured_serving :
      (address : SocketAddr) (service : Service)
      → run P D L N C rounds config serve db ≡ (ok (some (address, service)), later)
      → (D.connect_lazy config.db_connection_string ≡ ok tt)
        × (D.select_one db ≡ ok tt)
        × (migrated : P.Db) × (D.run_migrations db ≡ (ok tt, migrated))
        × (later ≡ maintenance P true (map woken rounds) migrated)
        × (address ≡ config.bind_address)
        × (N.bind address ≡ ok tt)
        × (service ≡ started)
  unfolding run new_state
  configured_serving address service e =
      let serving : AppConfig → Exec P.Db (Report P L N C) (Option (SocketAddr × Service)) =
        λ state now.
          continue (map_err failed_to_create_listener (N.bind state.bind_address))
            (λ listener at_last. (ok (some (state.bind_address, started)), at_last))
            (maintenance P true (map woken rounds) now) in
      let (state, new, e1) = continue-ok startup (new_state P D config db).0 serving _ later _ e in
      let (listener, bound, e2) =
        continue-ok failed_to_create_listener (N.bind state.bind_address)
          (λ listener at_last. (ok (some (state.bind_address, started)), at_last)) _ later _ e1 in
      let (connected, migrated, same) = new_state-ok state new in
      let (answers, migrations) = migrate-ok migrated in
      let reached = some-injective _ _ (ok-injective (ap (λ p. p.0) e2)) in
      let at : state.bind_address ≡ address = ap (λ p. p.0) reached in
      (
        connected,
        answers,
        _,
        migrations,
        sym (ap (λ p. p.1) e2),
        sym at ∙ ap (λ s. s.bind_address) same,
        rw at at bound,
        sym (ap (λ p. p.1) reached),
      )

  -- A maintenance command does not come to run the service.
  serves :
      (subcommand : Subcommand) (serving : SocketAddr × Service)
      → run P D L N C rounds config subcommand db ≡ (ok (some serving), later)
      → subcommand ≡ serve
  unfolding run
  serves serve serving e = refl
  serves (create_bucket_named name ttl) serving e =
      elim (Outcome-cases (run_maintenance P D L N C rounds config name ttl db).0) [
        | inl (_, done) ↦ cc (rw done at e)
        | inr (inl (x, fails)) ↦ cc (rw fails at e)
        | inr (inr panics) ↦ cc (rw panics at e)
      ]

module _ (P : Postgres) (D : Database P) (L : ConfigLibrary) (N : Network) (C : Console)
    (rounds : List Bool) (db later : P.Db) where
  -- The service starts only on a database that is migrated: if the program comes to run the service
  -- then its command line is that of `serve`, the configuration could be built and its connection string
  -- read, the database answers, its migrations succeeded, nothing but rounds of the maintenance task has
  -- happened to it since, and the listener is bound to the address of the configuration.
  pub main_serving :
      (words : List String) (address : SocketAddr) (service : Service)
      → main P D L N C rounds words db ≡ (ok (some (address, service)), later)
      → (C.parse_args (parse_timedelta C) words ≡ ok serve)
        × (config : AppConfig) × (build L ≡ ok config)
        × (D.connect_lazy config.db_connection_string ≡ ok tt)
        × (D.select_one db ≡ ok tt)
        × (migrated : P.Db) × (D.run_migrations db ≡ (ok tt, migrated))
        × (later ≡ maintenance P true (map woken rounds) migrated)
        × (address ≡ config.bind_address)
        × (N.bind address ≡ ok tt)
        × (service ≡ started)
  unfolding main configured
  main_serving words address service e =
      let (_, set_up, e1) = continue-ok tracing_setup_failed C.init_subscribers _ db later _ e in
      let (subcommand, parsed, e2) =
        continue-ok usage (C.parse_args (parse_timedelta C) words) (configured P D L N C rounds) db
          later _ e1 in
      let (config, built, e3) =
        continue-ok configuration (build L) (λ config. run P D L N C rounds config subcommand) db
          later _ e2 in
      let served = serves P D L N C rounds config db later subcommand (address, service) e3 in
      let (connected, answers, migrated, migrations, rounds_ran, at, bound, state) =
        configured_serving P D L N C rounds config db later address service (rw served at e3) in
      (
        parsed ∙ ap (λ s. ok s) served,
        config,
        built,
        connected,
        answers,
        migrated,
        migrations,
        rounds_ran,
        at,
        bound,
        state,
      )
