-- ===== src/Examples/Growth.antt =====
-- The theorems on sequences of requests and on bodies that break off, at the database of Examples/Shelf.
use locally_euclidean.Prelude.{◌≡◌, ◌≢◌, refl, flatten, none, some, List, [], ◌∷◌, ◌++◌, map, arith}
use locally_euclidean.Api.{chunk, broken, internal_error, body, ok_200}
use locally_euclidean.Api.Growth.{Fits, Grows}
use locally_euclidean.App.{
  Endpoint, append, explore, serve, Answer, layered, error_answer, into_answer,
}
use locally_euclidean.App.Total.{serve_answered}
use locally_euclidean.App.Broken.{serve_broken}
use locally_euclidean.Api.Append.Effect.{append_broken}
use locally_euclidean.App.Growth.{serve_all, serve_all-Grows, RequestsFit}
use locally_euclidean.Examples.Answers.{http, http-IsHttp}
use locally_euclidean.Examples.Shelf.{
  S, K, shelf, meow, shelf_up, shelf_bucket, shelf_old, fits_file, two_chunks, two_chunks_fit,
}

-- A file is looked at, appended to with a body that breaks off, and looked at again.
abbrev requests : List Endpoint
requests =
    explore "my_bucket" "old"
    ∷ append "old" (record { bucket_name = "my_bucket"; write_offset = 6 })
        (map chunk two_chunks ++ broken ∷ [])
    ∷ explore "my_bucket" "old"
    ∷ []

old-Fits : Fits S K (map chunk two_chunks ++ broken ∷ []) (K.content shelf ("my_bucket", "old"))
unfolding flatten
old-Fits = rw shelf_old (fits_file 10 (omega arith), two_chunks_fit)

requests_fit : RequestsFit http none S K requests shelf
unfolding serve
requests_fit = (tt, (old-Fits, (tt, tt)))

serve_all-Grows_example :
    K.Up (serve_all http none S requests shelf)
    × Grows S K shelf (serve_all http none S requests shelf)
serve_all-Grows_example = serve_all-Grows http none S K requests shelf shelf_up requests_fit

-- An append past the end that breaks off.
abbrev broken_off : Endpoint
broken_off =
    append "old" (record { bucket_name = "my_bucket"; write_offset = 6 })
      (map chunk two_chunks ++ broken ∷ [])

abbrev failure : Answer http S.Fault
failure = layered http none (error_answer http (internal_error body))

broken_off_answered : (serve http none S broken_off shelf).0 ≡ some failure
unfolding serve into_answer flatten
broken_off_answered =
    rw
      (append_broken S K shelf shelf_up "my_bucket" "old" two_chunks [] 6 meow shelf_bucket
        shelf_old (omega arith) (fits_file 10 (omega arith)) two_chunks_fit)
      refl

serve_broken_example : failure.status ≢ ok_200
serve_broken_example = serve_broken http none S shelf broken_off failure refl broken_off_answered

serve_answered_example :
    (a : Answer http S.Fault) × ((serve http none S broken_off shelf).0 ≡ some a)
serve_answered_example = serve_answered http http-IsHttp none S K shelf shelf_up broken_off old-Fits
