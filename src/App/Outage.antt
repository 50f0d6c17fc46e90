-- ===== src/App/Outage.antt =====
-- What server/src/lib.rs answers when the database does not answer.
use Prim.Native.String.{String, ◌++◌ as ◌<>◌}
use mathlib.Core.Option.{some-injective}
use locally_euclidean.Prelude.{◌≡◌, refl, Option, some, err}
use locally_euclidean.Storage.{FileOpenError, backend}
use locally_euclidean.Faults.{BucketError, Fault, bucket}
use locally_euclidean.Postgres.{Postgres}
use locally_euclidean.Runtime.{Runtime}
use locally_euclidean.Backend.Bucket.{bucket_named, by_name}
use locally_euclidean.Backend.Traits.{postgres_storage}
use locally_euclidean.Api.{
  ApiError, open_error, internal_error, internal_server_error, from_bucket_open_error, status_code,
}
use locally_euclidean.Api.Write.{put_write_filename}
use locally_euclidean.Api.Append.{post_append_filename}
use locally_euclidean.Explore.{get_explore, get_buck2_log}
use locally_euclidean.App.External.{Http}
use locally_euclidean.App.{
  Endpoint, home, healthcheck, write, append, log, explore, text, Answer, error_answer, into_answer,
  printed, layered, serve,
}
use locally_euclidean.App.Missing.{bucket_of}

module _ {F : Type 0} (e : F) where
  -- What the lookup of a bucket comes to when its query fails with `e`.
  abbrev pub lookup_failed : FileOpenError (Fault F)
  lookup_failed = FileOpenError.other_error (
      backend (
        bucket (
          BucketError.query_failed
            "select id as \"id: BucketId\", default_ttl from buckets where name = $1" e)))

  abbrev pub outage : ApiError (Fault F)
  outage = internal_error (open_error lookup_failed)

module _ (P : Postgres) (db : P.Db) (e : P.SqlError) where
  bucket_unavailable :
      (b : String) → P.select_bucket db b ≡ err e → bucket_named P db b ≡ err (lookup_failed e)
  unfolding bucket_named by_name
  bucket_unavailable b failed = rw failed refl

module _ (H : Http) (version : Option String) (P : Postgres) (R : Runtime) (db : P.Db)
    (e : P.SqlError) where
  outage_answered :
      (endpoint : Endpoint) (b : String)
      → bucket_of endpoint ≡ some b
      → P.select_bucket db b ≡ err e
      → serve H version (postgres_storage P R) endpoint db
        ≡ (some (layered H version (error_answer H (outage e))), db)
  unfolding serve into_answer printed put_write_filename post_append_filename get_explore
      get_buck2_log from_bucket_open_error
  outage_answered home b named failed = cc
  outage_answered healthcheck b named failed = cc
  outage_answered (write filename query body) b named failed =
      rw (bucket_unavailable P db e query.bucket_name (rw (some-injective _ _ named) failed)) refl
  outage_answered (append filename query body) b named failed =
      rw (bucket_unavailable P db e query.bucket_name (rw (some-injective _ _ named) failed)) refl
  outage_answered (log filename) b named failed =
      rw (bucket_unavailable P db e "buck2_logs" (rw (some-injective _ _ named) failed)) refl
  outage_answered (explore name filename) b named failed =
      rw (bucket_unavailable P db e name (rw (some-injective _ _ named) failed)) refl

  -- Whatever the server does otherwise: if the query for the bucket of a request fails then the request
  -- is answered 500 with a text that shows the cause, and changes nothing; it is never taken for a
  -- bucket that is not there.
  pub serve_outage :
      (endpoint : Endpoint) (b : String)
      → bucket_of endpoint ≡ some b
      → P.select_bucket db b ≡ err e
      → (a : Answer H (Fault P.SqlError)) × (serve H version (postgres_storage P R) endpoint db
          ≡ (some a, db))
        × (a.status ≡ internal_server_error)
        × (a.content ≡ text ("Internal error: " <> H.show_cause (open_error (lookup_failed e))))
  unfolding layered error_answer status_code
  serve_outage endpoint b named failed = (
    layered H version (error_answer H (outage e)),
    outage_answered endpoint b named failed,
    refl,
    refl,
  )
