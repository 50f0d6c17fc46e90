-- ===== src/Backend/Cleanup/Backlog.antt =====
-- How far the loop of server/src/tasks.rs comes with the files that are to be deleted: a batch of
-- `delete_old_files_batch` of storage/src/postgres/mod.rs takes up to 1000 of them.
use locally_euclidean.Prelude.{
  ℕ, ℤ, ltb_ℤ, suc, ◌-◌, ◌*◌, ◌≤◌, ◌≡◌, refl, sym, ◌∙◌, subst, ok, true, false, Bool-cases, some,
  Option-cases, inl, inr, List, [], ◌∷◌, Bytes, arith,
}
use locally_euclidean.Storage.Contract.{Key}
use locally_euclidean.Postgres.{Postgres}
use locally_euclidean.Postgres.Laws.{IsPostgres, is_past}
use locally_euclidean.Backend.Cleanup.{Event, woken, served, delete_old_files_batch, maintenance}
use locally_euclidean.Backend.Cleanup.Effect.{
  due_of, due_of_row, due_of-none, delete_old_files_batch-Cleaned,
}
use locally_euclidean.Backend.Cleanup.Rounds.{Uncancelled}
use locally_euclidean.Backend.View.{Ready, content, content_of_no_row}

-- The rounds that the task has run.
abbrev pub ticks : {D : Type 0} → List (Event D) → ℕ
ticks [] = 0
ticks (served request ∷ events) = ticks events
ticks (woken _ ∷ events) = suc (ticks events)

module _ (P : Postgres) (L : IsPostgres P) (t : ℤ) where
  -- The server answers, its state is sound, and its clock has come to `t`.
  abbrev pub IsAfter : P.Db → Type 0
  IsAfter db = Ready P L db × (ltb_ℤ (L.now db) t ≡ false)

  -- Every request leaves the server so, and does not add to the files that are due before `t`.
  abbrev pub Quiet : List (Event P.Db) → Type 0
  Quiet [] = Unit
  Quiet (served request ∷ events) =
      ((db : P.Db)
        → IsAfter db
        → IsAfter (request db) × (L.backlog (request db) t ≤ L.backlog db t))
      × Quiet events
  Quiet (woken _ ∷ events) = Quiet events

  batch_leaves :
      (db : P.Db) (affected : ℕ)
      → (P.delete_expired 1000 db).0 ≡ ok affected
      → (delete_old_files_batch P db).1 ≡ (P.delete_expired 1000 db).1
  unfolding delete_old_files_batch
  batch_leaves db affected told = rw told

  batch_drains :
      (db : P.Db)
      → IsAfter db
      → IsAfter (delete_old_files_batch P db).1
        × (L.backlog (delete_old_files_batch P db).1 t ≤ L.backlog db t - 1000)
  batch_drains db (ready, after) =
      let (affected, db', told, e, ready', _, _) = delete_old_files_batch-Cleaned P L db ready in
      let (fewer, after') = L.delete_expired_backlog 1000 db t ready.0 after in
      let leaves = batch_leaves db affected told in
      (
        (rw e ready', subst (λ d. ltb_ℤ (L.now d) t ≡ false) (sym leaves) after'),
        subst (λ d. L.backlog d t ≤ L.backlog db t - 1000) (sym leaves) fewer,
      )

  backlog_drains :
      (events : List (Event P.Db)) (db : P.Db)
      → Uncancelled events
      → Quiet events
      → IsAfter db
      → IsAfter (maintenance P true events db)
        × (L.backlog (maintenance P true events db) t ≤ L.backlog db t - 1000 * ticks events)
  unfolding maintenance
  backlog_drains [] db going quiet after = (after, omega arith)
  backlog_drains (served request ∷ events) db going (calm, quiet) after =
      let (after', fewer) = calm db after in
      let (after'', fewer') = backlog_drains events (request db) going quiet after' in
      (after'', omega (arith, fewer, fewer'))
  backlog_drains (woken true ∷ events) db going quiet after = absurd going
  backlog_drains (woken false ∷ events) db going quiet after =
      let (after', fewer) = batch_drains db after in
      let (after'', fewer') =
        backlog_drains events (delete_old_files_batch P db).1 going quiet after' in
      (after'', omega (arith, fewer, fewer'))

  nothing_due :
      (db : P.Db) (k : Key) (c : Bytes)
      → IsAfter db
      → L.backlog db t ≡ 0
      → content P L db k ≡ some c
      → is_past t (due_of P L db k) ≡ false
  nothing_due db (b, n) c (ready, after) empty holds = elim (Option-cases (L.bucket_row db b)) [
    | inl absent ↦ rw (due_of-none P L db b n absent) refl
    | inr (r, there) ↦ elim (Bool-cases (is_past t (L.due db r.id n))) [
      | inr ahead ↦ rw (due_of_row P L db b n r there) ahead
      | inl past ↦
          let gone = L.backlog_zero db t r.id n ready.0 after empty past in
          cc (sym holds ∙ content_of_no_row P L db b n r there gone)
    ]
  ]

  -- The maintenance task gets to the end of its backlog: over a server that answers in a sound state,
  -- with a clock that has come to `t`, and with at most 1000 files that are due before `t` for each
  -- round that the task runs, all of them uncancelled, no file is then left that is due before `t`,
  -- whatever requests are served in between, as long as they leave the state sound, the server
  -- answering and its clock past `t`, and do not add to the files that are due before `t`.
  pub maintenance_drains :
      (events : List (Event P.Db)) (db : P.Db) (k : Key) (c : Bytes)
      → Uncancelled events
      → Quiet events
      → IsAfter db
      → L.backlog db t ≤ 1000 * ticks events
      → content P L (maintenance P true events db) k ≡ some c
      → is_past t (due_of P L (maintenance P true events db) k) ≡ false
  maintenance_drains events db k c going quiet after enough holds =
      let (after', fewer) = backlog_drains events db going quiet after in
      nothing_due (maintenance P true events db) k c after' (omega (arith, fewer, enough)) holds
