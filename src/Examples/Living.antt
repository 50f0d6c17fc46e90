-- ===== src/Examples/Living.antt =====
-- The theorems on how long files live (Backend/Life, Backend/Times) at the database of Examples/Shelf.
use locally_euclidean.Prelude.{
  ◌≡◌, ◌≢◌, ◌≤◌, ◌+ℤ◌, ◌<◌, ◌^◌, refl, pos, negsuc, scale, magnitude, true, false, some, none, ok,
  ltb_ℤ, subst, ap, sym, ◌∙◌, List, [], ◌∷◌, map, flatten, arith,
}
use locally_euclidean.Storage.Contract.{Key, Writes}
use locally_euclidean.Storage.{FileCreateError}
use locally_euclidean.Faults.{Fault}
use locally_euclidean.Postgres.{Interval}
use locally_euclidean.Blob.Inner.{read, write, lseek64, close}
use locally_euclidean.Prelude.{wrap_signed}
use locally_euclidean.Postgres.Memory.{Db, memory, with_bucket}
use locally_euclidean.Postgres.Memory.Buckets.{with_bucket-UpDb}
use locally_euclidean.Backend.File.{file_read, file_seek, append, metadata, commit}
use locally_euclidean.Postgres.Memory.Lawful.{memory-IsPostgres}
use locally_euclidean.Runtime.Direct.{direct, direct-IsTokio}
use locally_euclidean.Api.{chunk}
use locally_euclidean.Api.Write.{put_write_filename}
use locally_euclidean.Backend.Bucket.{
  PostgresBucket, open_file, create_file, bucket_named, day, time_delta, delete_after,
}
use locally_euclidean.Backend.View.{Ready, has_bucket, content}
use locally_euclidean.Backend.Cleanup.{Event, woken, served, delete_old_files_batch, maintenance}
use locally_euclidean.Backend.Cleanup.Effect.{due_of}
use locally_euclidean.Backend.Times.{longest, time_delta_in_range}
use locally_euclidean.Backend.Dates.{Dated, put_dated}
use locally_euclidean.Backend.Life.{put_dates, IsKept, put_keeps, put-IsKept, put_expires}
use locally_euclidean.Examples.Shelf.{
  L, S, shelf, shelf-Ready, bucket_handle, backend_new, fits_file, fits_object, two_chunks,
  two_chunks_fit,
}

pub bucket_there : has_bucket memory L shelf "my_bucket" ≡ true
unfolding has_bucket memory-IsPostgres
bucket_there = refl

put_dates_example :
    (bk : PostgresBucket memory) × (db' : Db) × (bucket_named memory shelf "my_bucket" ≡ ok bk)
    × (put_write_filename S "new"
          (record { bucket_name = "my_bucket" })
          (map chunk two_chunks)
          shelf
        ≡ (ok tt, db'))
    × Ready memory L db'
    × Writes
        (content memory L)
        (has_bucket memory L)
        shelf
        db'
        ("my_bucket", "new")
        (flatten two_chunks)
    × Dated direct bk.default_ttl (due_of memory L db' ("my_bucket", "new"))
    × ((j : Key) → j ≢ ("my_bucket", "new") → due_of memory L db' j ≡ due_of memory L shelf j)
unfolding flatten
put_dates_example =
    put_dates memory L direct direct-IsTokio shelf "my_bucket" "new" two_chunks shelf-Ready
      bucket_there backend_new (fits_object 5 (omega arith)).0 two_chunks_fit

-- Another file is put between two wakes of the task.
abbrev afternoon : List (Event Db)
afternoon =
    woken false
    ∷ served (λ db.
      (put_write_filename S "other" (record { bucket_name = "my_bucket" }) (map chunk two_chunks)
        db).1)
    ∷ woken false
    ∷ []

opened : bucket_named memory shelf "my_bucket" ≡ ok bucket_handle
unfolding bucket_named
opened = refl

put-IsKept_example :
    (db' : Db) × (put_write_filename S "new"
        (record { bucket_name = "my_bucket" })
        (map chunk two_chunks)
        shelf
      ≡ (ok tt, db'))
    × IsKept memory L
        ("my_bucket", "new")
        (flatten two_chunks)
        (maintenance memory true afternoon db')
unfolding flatten
put-IsKept_example =
    put-IsKept memory L direct direct-IsTokio shelf "my_bucket" "new" two_chunks bucket_handle
      afternoon true shelf-Ready opened refl bucket_there backend_new
      (fits_object 5 (omega arith)).0 two_chunks_fit
      (
        put_keeps memory L direct direct-IsTokio ("my_bucket", "new") (flatten two_chunks)
            "my_bucket" "other" two_chunks (fits_object 5 (omega arith)).0 two_chunks_fit,
        tt,
      )

-- The longest interval of Postgres.
abbrev eons : Interval
eons = record {
  months = pos 2_147_483_647;
  days = negsuc 2_147_483_647;
  microseconds = negsuc 9_223_372_036_854_775_807;
}

time_delta_in_range_example :
    (magnitude (scale eons.months 30) < 2 ^ 63)
    × (magnitude (scale (scale eons.months 30) day) ≤ longest)
    × (magnitude (scale eons.days day) ≤ longest)
    × (magnitude (scale eons.microseconds 1000) ≤ longest)
    × (magnitude (scale (scale eons.months 30) day +ℤ scale eons.days day) ≤ longest)
    × (magnitude (time_delta eons) ≤ longest)
time_delta_in_range_example = time_delta_in_range eons (omega arith, omega arith, omega arith)

-- A bucket of which the files are due before they are stored.
abbrev brief : Db
brief = with_bucket "brief" (some (negsuc 4999)) shelf

brief-Ready : Ready memory L brief
unfolding memory-IsPostgres
brief-Ready = (
  with_bucket-UpDb shelf "brief" (some (negsuc 4999)) (some (negsuc 4)) (refl, omega arith)
      shelf-Ready.0,
  record { linked = shelf-Ready.1.linked; unshared = shelf-Ready.1.unshared },
)

brief_handle : PostgresBucket memory
brief_handle = record { id = 3; default_ttl = some (negsuc 4999) }

brief_opened : bucket_named memory brief "brief" ≡ ok brief_handle
unfolding bucket_named brief_handle time_delta
brief_opened = refl

brief_there : has_bucket memory L brief "brief" ≡ true
unfolding has_bucket memory-IsPostgres
brief_there = refl

brief_new : content memory L brief ("brief", "new") ≡ none
unfolding content memory-IsPostgres
brief_new = refl

stored : Db
unfolding put_write_filename bucket_named open_file create_file file_read file_seek append metadata
    commit direct read write lseek64 close wrap_signed
stored =
    (put_write_filename S "new" (record { bucket_name = "brief" }) (map chunk two_chunks) brief).1

brief_put :
    put_write_filename S "new" (record { bucket_name = "brief" }) (map chunk two_chunks) brief
    ≡ (ok tt, stored)
unfolding stored
brief_put = refl

brief_limit :
    delete_after direct {E = FileCreateError (Fault memory.SqlError)} brief_handle.default_ttl
    ≡ ok (some (negsuc 3999))
unfolding delete_after brief_handle direct
brief_limit = refl

stored-Ready : Ready memory L stored
unfolding flatten
stored-Ready =
    let (_, db', _, _, e, ready', _, _, _, _) =
      put_dated memory L direct direct-IsTokio brief "brief" "new" two_chunks brief-Ready
        brief_there brief_new (fits_file 5 (omega arith)) two_chunks_fit in
    subst (Ready memory L) (ap (λ p. p.1) (sym e ∙ brief_put)) ready'

stored_late : ltb_ℤ (negsuc 3999) (L.now stored) ≡ true
unfolding stored memory-IsPostgres
stored_late = refl

stored_batch : (memory.delete_expired 1000 stored).0 ≡ ok 2
unfolding stored
stored_batch = refl

put_expires_example :
    content memory L (delete_old_files_batch memory stored).1 ("brief", "new") ≡ none
unfolding flatten
put_expires_example =
    put_expires memory L direct direct-IsTokio brief stored stored "brief" "new" two_chunks
      brief_handle (negsuc 3999) 2 brief-Ready brief_opened brief_limit brief_there brief_new
      (fits_object 5 (omega arith)).0 two_chunks_fit brief_put stored-Ready refl stored_late
      stored_batch (omega arith)
