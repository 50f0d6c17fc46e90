-- ===== src/Examples/Requests.antt =====
-- The theorems on requests (Api, Explore) at requests to the database of Examples/Shelf.
use Prim.Native.String.{String, ◌++◌ as ◌<>◌}
use locally_euclidean.Prelude.{
  ℕ, suc, ◌≡◌, ◌↔◌, ok, err, Outcome, List, [], ◌∷◌, ◌++◌, map, flatten, Bytes, length, arith,
}
use locally_euclidean.Postgres.Memory.{Db}
use locally_euclidean.Api.{
  ApiError, Body, body, internal_error, chunk, broken, file_exists_with_conflicting_content,
}
use locally_euclidean.Api.Range.{RangeMatch, matches, check_range_matches}
use locally_euclidean.Api.Range.Verdict.{check_range_matches-decides}
use locally_euclidean.Api.Write.{put_write_filename}
use locally_euclidean.Api.Write.Effect.{put_existing}
use locally_euclidean.Api.Write.Retry.{put_again, put_after_broken}
use locally_euclidean.Api.Append.{post_append_filename}
use locally_euclidean.Explore.{Response, get_explore, get_buck2_log}
use locally_euclidean.Explore.Effect.{explore_file}
use locally_euclidean.Explore.Log.{log_after_put}
use locally_euclidean.Examples.Shelf.{
  S, K, shelf, meow, shelf_up, shelf_bucket, shelf_logs, shelf_old, shelf_new, shelf_no_log,
  fits_file, two_chunks, two_chunks_fit, two_chunks_some, old_handle, old_handle-Holds,
}

abbrev put : String → Body → Db → Outcome (ApiError S.Fault) Unit × Db
put n = put_write_filename S n (record { bucket_name = "my_bucket" })

abbrev post : String → ℕ → Body → Db → Outcome (ApiError S.Fault) Unit × Db
post n o = post_append_filename S n (record { bucket_name = "my_bucket"; write_offset = o })

put_existing_example : put "old" (map chunk two_chunks) shelf ≡ (ok tt, shelf)
unfolding flatten
put_existing_example =
    put_existing S K shelf shelf_up "my_bucket" "old" two_chunks meow shelf_bucket shelf_old

check_range_matches-decides_example :
    (r : RangeMatch) × ((check_range_matches S (map chunk two_chunks) 0 old_handle).0 ≡ ok r)
    × ((r ≡ matches) ↔ (flatten two_chunks ≡ meow))
check_range_matches-decides_example =
    check_range_matches-decides S K shelf ("my_bucket", "old") meow two_chunks 0 0 old_handle
      old_handle-Holds (omega arith)

put_again_example :
    (w' : Db) × (put "new" (map chunk two_chunks) shelf ≡ (ok tt, w'))
    × (put "new" (chunk meow ∷ []) w' ≡ (ok tt, w'))
unfolding flatten
put_again_example =
    put_again S K shelf shelf_up "my_bucket" "new" two_chunks (meow ∷ []) shelf_bucket shelf_new
      (fits_file 5 (omega arith)) two_chunks_fit

put_after_broken_example :
    (w' : Db) × (put "new" (map chunk two_chunks ++ broken ∷ []) shelf
      ≡ (err (internal_error body), w'))
    × (put "new" (map chunk two_chunks) w' ≡ (err file_exists_with_conflicting_content, w'))
unfolding flatten
put_after_broken_example =
    put_after_broken S K shelf shelf_up "my_bucket" "new" two_chunks two_chunks [] shelf_bucket
      shelf_new (fits_file 5 (omega arith)) two_chunks_fit two_chunks_some

explore_file_example :
    (r : Response S.Fault) × (chunks : List Bytes) × (get_explore S "my_bucket" "old" shelf ≡ ok r)
    × (r.content_length ≡ 5)
    × (r.items 6 ≡ map ok chunks)
    × (flatten chunks ≡ meow)
explore_file_example =
    explore_file S K shelf shelf_up "my_bucket" "old" meow 6 shelf_bucket shelf_old (omega arith)

log_after_put_example :
    (w' : Db) × (r : Response S.Fault) × (chunks : List Bytes) × (put_write_filename S
        ("flat/" <> "abcde" <> ".pb.zst")
        (record { bucket_name = "buck2_logs" })
        (map chunk two_chunks)
        shelf
      ≡ (ok tt, w'))
    × (get_buck2_log S "abcde" w' ≡ ok r)
    × (r.content_length ≡ length (flatten two_chunks))
    × (r.items (suc (length (flatten two_chunks))) ≡ map ok chunks)
    × (flatten chunks ≡ flatten two_chunks)
unfolding flatten
log_after_put_example =
    log_after_put S K shelf shelf_up "abcde" two_chunks shelf_logs shelf_no_log
      (fits_file 5 (omega arith)) two_chunks_fit
