-- ===== src/App/Missing.antt =====
-- What server/src/lib.rs answers to a request for what is not there.
use Prim.Native.String.{String, ◌++◌ as ◌<>◌}
use mathlib.Core.Option.{some-injective}
use locally_euclidean.Prelude.{◌≡◌, refl, ap, true, false, Option, none, some}
use locally_euclidean.Storage.{Storage}
use locally_euclidean.Storage.Contract.{Contract}
use locally_euclidean.Api.{bucket_does_not_exist, file_does_not_exist, not_found, status_code}
use locally_euclidean.Api.Write.Effect.{put_without_bucket}
use locally_euclidean.Api.Append.Effect.{append_without_bucket, append_without_file}
use locally_euclidean.Explore.{get_buck2_log}
use locally_euclidean.Explore.Effect.{explore_without_bucket, explore_without_file}
use locally_euclidean.App.External.{Http}
use locally_euclidean.App.{
  Endpoint, home, healthcheck, write, append, log, explore, text, Answer, error_answer, into_answer,
  printed, layered, serve,
}

-- The bucket that a request is for.
abbrev pub bucket_of : Endpoint → Option String
bucket_of home = none
bucket_of healthcheck = none
bucket_of (write filename query body) = some query.bucket_name
bucket_of (append filename query body) = some query.bucket_name
bucket_of (log filename) = some "buck2_logs"
bucket_of (explore bucket filename) = some bucket

-- The file that a request reads or appends to, with its bucket.
abbrev pub file_of : Endpoint → Option (String × String)
file_of home = none
file_of healthcheck = none
file_of (write filename query body) = none
file_of (append filename query body) = some (query.bucket_name, filename)
file_of (log filename) = some ("buck2_logs", "flat/" <> filename <> ".pb.zst")
file_of (explore bucket filename) = some (bucket, filename)

module _ (H : Http) (version : Option String) (S : Storage) (K : Contract S) (w : S.World)
    (up : K.Up w) where
  without_bucket_answered :
      (endpoint : Endpoint) (b : String)
      → bucket_of endpoint ≡ some b
      → K.has_bucket w b ≡ false
      → serve H version S endpoint w
        ≡ (some (layered H version (error_answer H (bucket_does_not_exist b))), w)
  unfolding serve into_answer printed get_buck2_log
  without_bucket_answered home b named missing = cc
  without_bucket_answered healthcheck b named missing = cc
  without_bucket_answered (write filename query body) b named missing =
      rw (← some-injective _ _ named) (
        rw
          (put_without_bucket S K w up query.bucket_name filename body
            (rw (some-injective _ _ named) missing))
          refl)
  without_bucket_answered (append filename query body) b named missing =
      rw (← some-injective _ _ named) (
        rw
          (append_without_bucket S K w up query.bucket_name filename body query.write_offset
            (rw (some-injective _ _ named) missing))
          refl)
  without_bucket_answered (log filename) b named missing = rw (← some-injective _ _ named) (
      rw
        (explore_without_bucket S K w up "buck2_logs" ("flat/" <> filename <> ".pb.zst")
          (rw (some-injective _ _ named) missing))
        refl)
  without_bucket_answered (explore bucket filename) b named missing =
      rw (← some-injective _ _ named) (
        rw (explore_without_bucket S K w up bucket filename (rw (some-injective _ _ named) missing))
          refl)

  -- Over a backend that meets the contract, in a well-formed state: every request for a bucket that is
  -- not there is answered 404 with a text that names the bucket, and changes nothing.
  pub serve_without_bucket :
      (endpoint : Endpoint) (b : String)
      → bucket_of endpoint ≡ some b
      → K.has_bucket w b ≡ false
      → (a : Answer H S.Fault) × (serve H version S endpoint w ≡ (some a, w))
        × (a.status ≡ not_found)
        × (a.content ≡ text ("Bucket does not exist: " <> H.quote b))
  unfolding layered error_answer status_code
  serve_without_bucket endpoint b named missing = (
    layered H version (error_answer H (bucket_does_not_exist b)),
    without_bucket_answered endpoint b named missing,
    refl,
    refl,
  )

  without_file_answered :
      (endpoint : Endpoint) (b n : String)
      → file_of endpoint ≡ some (b, n)
      → K.has_bucket w b ≡ true
      → K.content w (b, n) ≡ none
      → serve H version S endpoint w
        ≡ (some (layered H version (error_answer H (file_does_not_exist n))), w)
  unfolding serve into_answer printed get_buck2_log
  without_file_answered home b n named there absent = cc
  without_file_answered healthcheck b n named there absent = cc
  without_file_answered (write filename query body) b n named there absent = cc
  without_file_answered (append filename query body) b n named there absent =
      let e : query.bucket_name ≡ b =
        ap (λ (k : String × String). k.0) (some-injective _ _ named) in
      let e' : filename ≡ n = ap (λ (k : String × String). k.1) (some-injective _ _ named) in
      rw
        (
          e',
          append_without_file S K w up query.bucket_name n body query.write_offset (rw e there)
              (rw e absent),
        )
        refl
  without_file_answered (log filename) b n named there absent =
      let e : "buck2_logs" ≡ b = ap (λ (k : String × String). k.0) (some-injective _ _ named) in
      let e' : ("flat/" <> filename <> ".pb.zst") ≡ n =
        ap (λ (k : String × String). k.1) (some-injective _ _ named) in
      rw
        (
          explore_without_file S K w up "buck2_logs" ("flat/" <> filename <> ".pb.zst") (rw e there)
              (rw (e, e') absent),
          e',
        )
        refl
  without_file_answered (explore bucket filename) b n named there absent =
      let e : bucket ≡ b = ap (λ (k : String × String). k.0) (some-injective _ _ named) in
      let e' : filename ≡ n = ap (λ (k : String × String). k.1) (some-injective _ _ named) in
      rw (e, e', explore_without_file S K w up b n there absent) refl

  -- Over a backend that meets the contract, in a well-formed state: every download of a file and
  -- every append to one that is not there, in a bucket that is, is answered 404 with a text that names
  -- the file, and changes nothing.
  pub serve_without_file :
      (endpoint : Endpoint) (b n : String)
      → file_of endpoint ≡ some (b, n)
      → K.has_bucket w b ≡ true
      → K.content w (b, n) ≡ none
      → (a : Answer H S.Fault) × (serve H version S endpoint w ≡ (some a, w))
        × (a.status ≡ not_found)
        × (a.content ≡ text ("File does not exist: " <> H.quote n))
  unfolding layered error_answer status_code
  serve_without_file endpoint b n named there absent = (
    layered H version (error_answer H (file_does_not_exist n)),
    without_file_answered endpoint b n named there absent,
    refl,
    refl,
  )
