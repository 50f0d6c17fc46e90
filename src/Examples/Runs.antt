-- ===== src/Examples/Runs.antt =====
-- The end to end tests of server/tests/e2e.rs and the unit test of server/src/api.rs, as runs.
use locally_euclidean.Blob.Inner.{read, write, lseek64, close}
use locally_euclidean.Prelude.{wrap_signed}
use locally_euclidean.Prelude.{◌≡◌, refl, Outcome, ok, err, List, [], ◌∷◌, ◌++◌, Bytes}
use locally_euclidean.Api.{
  ApiError, chunk, file_does_not_exist, file_exists_with_conflicting_content,
}
use locally_euclidean.Api.Write.{put_write_filename}
use locally_euclidean.Api.Append.{post_append_filename}
use locally_euclidean.Explore.{get_explore}
use locally_euclidean.Backend.File.{file_read, file_seek, append, metadata, commit}
use locally_euclidean.Backend.Bucket.{bucket_named, open_file, create_file}
use locally_euclidean.Runtime.Direct.{direct}
use locally_euclidean.Postgres.Memory.{Db}
use locally_euclidean.Examples.Shelf.{S, shelf, meow}

after_put : Db
unfolding put_write_filename bucket_named open_file create_file file_read file_seek append metadata
    commit direct read write lseek64 close wrap_signed
after_put =
    (put_write_filename S "meowmeow" (record { bucket_name = "my_bucket" }) (chunk meow ∷ [])
      shelf).1

-- A file can be written twice, if it is the same.
put_twice :
    (put_write_filename S "meowmeow"
      (record { bucket_name = "my_bucket" })
      (chunk meow ∷ [])
      after_put).0
    ≡ ok tt
unfolding after_put
put_twice = refl

put_other :
    (put_write_filename S "meowmeow"
      (record { bucket_name = "my_bucket" })
      (chunk (b'k' ∷ []) ∷ [])
      after_put).0
    ≡ err file_exists_with_conflicting_content
unfolding after_put
put_other = refl

append_missing :
    (post_append_filename S "meowmeow"
      (record { bucket_name = "my_bucket"; write_offset = 0 })
      (chunk meow ∷ [])
      shelf).0
    ≡ err (file_does_not_exist "meowmeow")
unfolding post_append_filename after_put
append_missing = refl

-- The file of five bytes is appended to at the offset 6.
after_append : Db
unfolding after_put post_append_filename
after_append =
    (post_append_filename S "meowmeow" (record { bucket_name = "my_bucket"; write_offset = 6 })
      (chunk meow ∷ []) after_put).1

-- What `GET /explore/my_bucket/meowmeow` sends then.
sent : List (Outcome (ApiError S.Fault) Bytes)
unfolding after_append get_explore
sent = elim (get_explore S "my_bucket" "meowmeow" after_append) [ ok r ↦ r.items 3 | _ ↦ [] ]

sent_twice : sent ≡ ok (meow ++ meow) ∷ []
unfolding sent
sent_twice = refl
