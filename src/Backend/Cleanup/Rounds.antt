-- ===== src/Backend/Cleanup/Rounds.antt =====
-- The loop of server/src/tasks.rs, round by round, with the requests that are served in between.
use locally_euclidean.Prelude.{◌≡◌, refl, Bool, true, false, List, [], ◌∷◌, ◌++◌}
use locally_euclidean.Postgres.{Postgres}
use locally_euclidean.Backend.Cleanup.{Event, woken, served, delete_old_files_batch, maintenance}

-- The requests alone.
abbrev pub serve : {D : Type 0} → List (Event D) → D → D
serve [] db = db
serve (served request ∷ events) db = serve events (request db)
serve (woken _ ∷ events) db = serve events db

module _ (P : Postgres) where
  maintenance_stopped :
      (events : List (Event P.Db)) (db : P.Db) → maintenance P false events db ≡ serve events db
  unfolding maintenance
  maintenance_stopped [] db = refl
  maintenance_stopped (served request ∷ events) db = maintenance_stopped events (request db)
  maintenance_stopped (woken _ ∷ events) db = maintenance_stopped events db

  -- Once the task has seen that its token is cancelled, it deletes nothing: whatever has happened
  -- before and however often it would wake, the requests alone change the database.
  pub maintenance_cancelled :
      (before after : List (Event P.Db)) (running : Bool) (db : P.Db)
      → maintenance P running (before ++ woken true ∷ after) db
        ≡ serve after (maintenance P running before db)
  unfolding maintenance
  maintenance_cancelled [] after true db = maintenance_stopped after db
  maintenance_cancelled [] after false db = maintenance_stopped after db
  maintenance_cancelled (served request ∷ before) after running db =
      maintenance_cancelled before after running (request db)
  maintenance_cancelled (woken _ ∷ before) after false db =
      maintenance_cancelled before after false db
  maintenance_cancelled (woken true ∷ before) after true db =
      maintenance_cancelled before after false db
  maintenance_cancelled (woken false ∷ before) after true db =
      maintenance_cancelled before after true (delete_old_files_batch P db).1

-- No round has found the token cancelled.
abbrev pub Uncancelled : {D : Type 0} → List (Event D) → Type 0
Uncancelled [] = Unit
Uncancelled (served _ ∷ events) = Uncancelled events
Uncancelled (woken true ∷ events) = ⊥
Uncancelled (woken false ∷ events) = Uncancelled events

module _ (P : Postgres) where
  -- As long as no round has found the token cancelled, every further tick runs one batch, on the
  -- database as it then is, whatever came of the batches before it, errors included.
  maintenance_ticks :
      (before after : List (Event P.Db)) (db : P.Db)
      → Uncancelled before
      → maintenance P true (before ++ woken false ∷ after) db
        ≡ maintenance P true after (delete_old_files_batch P (maintenance P true before db)).1
  unfolding maintenance
  maintenance_ticks [] after db going = refl
  maintenance_ticks (served request ∷ before) after db going =
      maintenance_ticks before after (request db) going
  maintenance_ticks (woken true ∷ before) after db going = absurd going
  maintenance_ticks (woken false ∷ before) after db going =
      maintenance_ticks before after (delete_old_files_batch P db).1 going

-- Every request keeps the invariant.
abbrev pub Keep : {D : Type 0} → (D → Type 0) → List (Event D) → Type 0
Keep Kept [] = Unit
Keep {D} Kept (served request ∷ events) =
    ((db : D) → Kept db → Kept (request db)) × Keep Kept events
Keep Kept (woken _ ∷ events) = Keep Kept events

module _ (P : Postgres) (Kept : P.Db → Type 0)
    (batch_keeps : (db : P.Db) → Kept db → Kept (delete_old_files_batch P db).1) where
  -- What every request and every batch keeps is kept by the task.
  pub maintenance_keeps :
      (events : List (Event P.Db)) (running : Bool) (db : P.Db)
      → Keep Kept events
      → Kept db
      → Kept (maintenance P running events db)
  unfolding maintenance
  maintenance_keeps [] running db keep kept = kept
  maintenance_keeps (served request ∷ events) running db keep kept =
      maintenance_keeps events running (request db) keep.1 (keep.0 db kept)
  maintenance_keeps (woken _ ∷ events) false db keep kept =
      maintenance_keeps events false db keep kept
  maintenance_keeps (woken true ∷ events) true db keep kept =
      maintenance_keeps events false db keep kept
  maintenance_keeps (woken false ∷ events) true db keep kept =
      maintenance_keeps events true (delete_old_files_batch P db).1 keep (batch_keeps db kept)
