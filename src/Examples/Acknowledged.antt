-- ===== src/Examples/Acknowledged.antt =====
-- The theorems on what the answer to an upload tells, at the database of Examples/Shelf.
use locally_euclidean.Prelude.{◌≡◌, ℕ, ok, pos, flatten, map, arith, ◌++◌}
use locally_euclidean.Storage.{end}
use locally_euclidean.Storage.Contract.{Writes}
use locally_euclidean.Postgres.Memory.{Db}
use locally_euclidean.Api.{chunk, Body, WriteFilenameArgs, AppendFilenameArgs}
use locally_euclidean.Api.Write.{put_write_filename}
use locally_euclidean.Api.Write.Effect.{put_new}
use locally_euclidean.Api.Write.Acknowledged.{Acknowledged, put_write_filename-Acknowledged}
use locally_euclidean.Api.Append.{post_append_filename}
use locally_euclidean.Api.Append.Effect.{append_beyond}
use locally_euclidean.Api.Append.Acknowledged.{Accepted, post_append_filename-Accepted}
use locally_euclidean.Api.Spec.{spec_write, Implements}
use locally_euclidean.Api.Spec.Refinement.{put_write_filename-Implements}
use locally_euclidean.Examples.Shelf.{
  S, K, shelf, meow, shelf_up, shelf_bucket, shelf_old, shelf_new, fits_file, two_chunks,
  two_chunks_fit,
}

abbrev body : Body
body = map chunk two_chunks

abbrev to_new : WriteFilenameArgs
to_new = record { bucket_name = "my_bucket" }

abbrev past_end : AppendFilenameArgs
past_end = record { bucket_name = "my_bucket"; write_offset = 6 }

written :
    (w' : Db) × (put_write_filename S "new" to_new body shelf ≡ (ok tt, w'))
    × K.Up w'
    × Writes K.content K.has_bucket shelf w' ("my_bucket", "new") (flatten two_chunks)
unfolding flatten
written =
    put_new S K shelf shelf_up "my_bucket" "new" two_chunks shelf_bucket shelf_new
      (fits_file 5 (omega arith)) two_chunks_fit

put_write_filename-Acknowledged_example :
    (bucket : S.Bucket) × (S.bucket shelf "my_bucket" ≡ ok bucket)
    × Acknowledged S bucket "new" body written.0
        (S.create_file bucket "new" shelf).0
        (S.create_file bucket "new" shelf).1
put_write_filename-Acknowledged_example =
    put_write_filename-Acknowledged S "new" to_new body shelf written.0 written.1

extended :
    (w' : Db) × (post_append_filename S "old" past_end body shelf ≡ (ok tt, w'))
    × K.Up w'
    × Writes K.content K.has_bucket shelf w' ("my_bucket", "old") (meow ++ flatten two_chunks)
unfolding flatten
extended =
    append_beyond S K shelf shelf_up "my_bucket" "old" two_chunks 6 meow shelf_bucket shelf_old
      (omega arith) (fits_file 10 (omega arith)) two_chunks_fit

post_append_filename-Accepted_example :
    (bucket : S.Bucket) × (file : S.FileHandle) × (size : ℕ) × (S.bucket shelf "my_bucket"
      ≡ ok bucket)
    × (S.file shelf bucket "old" ≡ ok file)
    × ((S.seek (end (pos 0)) file).0 ≡ ok size)
    × Accepted S 6 body (S.seek (end (pos 0)) file).1 size shelf extended.0
post_append_filename-Accepted_example =
    post_append_filename-Accepted S "old" past_end body shelf extended.0 extended.1

put_write_filename-Implements_example :
    Implements S K
      ("my_bucket", "new")
      (spec_write
        (flatten two_chunks)
        (K.has_bucket shelf "my_bucket")
        (K.content shelf ("my_bucket", "new")))
      shelf
      (put_write_filename S "new" to_new body shelf)
unfolding flatten
put_write_filename-Implements_example =
    put_write_filename-Implements S K shelf shelf_up "my_bucket" "new" two_chunks
      (fits_file 5 (omega arith)) two_chunks_fit
