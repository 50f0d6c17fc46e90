-- ===== src/Examples/Draining.antt =====
-- The maintenance task gets to the end of its backlog (Backend/Cleanup/Backlog) at the database of
-- Examples/Shelf, with a file beside the one that has expired.
use locally_euclidean.Prelude.{
  ◌≡◌, refl, pos, true, false, some, ok, subst, ap, sym, ◌∙◌, List, [], ◌∷◌, map, flatten, arith,
}
use locally_euclidean.Blob.Inner.{read, write, lseek64, close}
use locally_euclidean.Prelude.{wrap_signed}
use locally_euclidean.Postgres.Memory.{Db, memory}
use locally_euclidean.Backend.File.{file_read, file_seek, append, metadata, commit}
use locally_euclidean.Postgres.Memory.Lawful.{memory-IsPostgres}
use locally_euclidean.Runtime.Direct.{direct, direct-IsTokio}
use locally_euclidean.Api.{chunk}
use locally_euclidean.Api.Write.{put_write_filename}
use locally_euclidean.Backend.Bucket.{open_file, create_file, bucket_named}
use locally_euclidean.Backend.View.{Ready, content}
use locally_euclidean.Backend.Cleanup.{Event, woken, served, delete_old_files_batch, maintenance}
use locally_euclidean.Backend.Cleanup.Effect.{due_of}
use locally_euclidean.Backend.Cleanup.Backlog.{IsAfter, maintenance_drains}
use locally_euclidean.Postgres.Laws.{is_past}
use locally_euclidean.Backend.Dates.{put_dated}
use locally_euclidean.Examples.Shelf.{
  L, S, shelf, shelf-Ready, backend_new, fits_file, two_chunks, two_chunks_fit,
}
use locally_euclidean.Examples.Living.{bucket_there}

-- Two rounds, with a request in between that reads.
abbrev night : List (Event Db)
night = woken false ∷ served (λ db. db) ∷ woken false ∷ []

both_files : Db
unfolding put_write_filename bucket_named open_file create_file file_read file_seek append metadata
    commit direct read write lseek64 close wrap_signed
both_files =
    (put_write_filename S "new" (record { bucket_name = "my_bucket" }) (map chunk two_chunks)
      shelf).1

both_put :
    put_write_filename S "new" (record { bucket_name = "my_bucket" }) (map chunk two_chunks) shelf
    ≡ (ok tt, both_files)
unfolding both_files
both_put = refl

both-Ready : Ready memory L both_files
unfolding flatten
both-Ready =
    let (_, db', _, _, e, ready', _, _, _, _) =
      put_dated memory L direct direct-IsTokio shelf "my_bucket" "new" two_chunks shelf-Ready
        bucket_there backend_new (fits_file 5 (omega arith)) two_chunks_fit in
    subst (Ready memory L) (ap (λ p. p.1) (sym e ∙ both_put)) ready'

both-IsAfter : IsAfter memory L (pos 1) both_files
unfolding both_files memory-IsPostgres
both-IsAfter = (both-Ready, refl)

one_late : L.backlog both_files (pos 1) ≡ 1
unfolding both_files memory-IsPostgres
one_late = refl

new_stays :
    content memory L (maintenance memory true night both_files) ("my_bucket", "new")
    ≡ some (flatten two_chunks)
unfolding both_files memory-IsPostgres content maintenance delete_old_files_batch flatten
new_stays = refl

maintenance_drains_example :
    is_past
      (pos 1)
      (due_of memory L (maintenance memory true night both_files) ("my_bucket", "new"))
    ≡ false
maintenance_drains_example =
    maintenance_drains memory L (pos 1) night both_files ("my_bucket", "new") (flatten two_chunks)
      tt ((λ db after. (after, omega arith)), tt) both-IsAfter (omega (arith, one_late)) new_stays
