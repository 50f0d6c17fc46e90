-- ===== src/Backend/Cleanup.antt =====
-- `PostgresBackend::delete_old_files_batch` of storage/src/postgres/mod.rs, and the loop of
-- server/src/tasks.rs that calls it.
pub mod Effect
pub mod Rounds
pub mod Backlog
use locally_euclidean.Prelude.{Bool, true, false, Exec, ok, map_err, continue, List, [], ◌∷◌}
use locally_euclidean.Storage.{BoxError, backend}
use locally_euclidean.Faults.{Fault, sql}
use locally_euclidean.Postgres.{Postgres}

-- One round of the loop's `select!`: `terminate.is_cancelled()` after it, on a tick or not; and in
-- between, whatever other requests do to the database.
pub data Event (D : Type 0) : Type 0 where
  woken : Bool → Event D
  served : (D → D) → Event D

module _ (P : Postgres) where
  -- The statement is the server's, with the limit of the source; the number of rows is only traced.
  unfoldable pub delete_old_files_batch : Exec P.Db (BoxError (Fault P.SqlError)) Unit
  delete_old_files_batch db =
      continue (map_err (λ e. backend (sql e)) (P.delete_expired 1000 db).0)
        (λ affected later. (ok tt, later)) (P.delete_expired 1000 db).1

  -- The task: a batch that fails is traced, and the loop goes on; once the token is cancelled it
  -- breaks, and only the requests are left.
  unfoldable pub maintenance : Bool → List (Event P.Db) → P.Db → P.Db
  unfolding delete_old_files_batch
  maintenance running [] db = db
  maintenance running (served request ∷ events) db = maintenance running events (request db)
  maintenance false (woken is_cancelled ∷ events) db = maintenance false events db
  maintenance true (woken true ∷ events) db = maintenance false events db
  maintenance true (woken false ∷ events) db = maintenance true events (delete_old_files_batch db).1
