-- ===== src/Examples/Answers.antt =====
-- The theorems on whole answers (App) at a database of Examples/Shelf, with maps of headers that are
-- functions.
use Prim.Native.String.{String, ◌++◌ as ◌<>◌}
use text.Mathlib.Text.{◌==◌ as str_eq}
use text.Mathlib.TextEquality.{eq_iff}
use locally_euclidean.Prelude.{
  ℤ, pos, negsuc, true, ◌≡◌, refl, err, Option, none, some, [], if◌then◌else◌, arith,
}
use locally_euclidean.Api.{bucket_does_not_exist, status_code, internal_server_error, not_found}
use locally_euclidean.Api.Write.Effect.{put_without_bucket}
use locally_euclidean.Storage.{IsDate}
use locally_euclidean.Security.{HeaderMap, value_or, default_headers}
use locally_euclidean.Security.Effect.{lookup}
use locally_euclidean.App.Outage.{serve_outage}
use locally_euclidean.Postgres.{Postgres}
use locally_euclidean.Postgres.Memory.{SqlError, refused, memory}
use locally_euclidean.Runtime.Direct.{direct}
use locally_euclidean.Faults.{Fault}
use locally_euclidean.Backend.Traits.{postgres_storage}
use locally_euclidean.App.External.{Http, IsHttp}
use locally_euclidean.App.{
  Endpoint, write, explore, Answer, serve, layered, into_answer, error_answer, Content,
}
use locally_euclidean.App.Missing.{serve_without_bucket, serve_without_file}
use locally_euclidean.App.Headers.{serve-default}
use locally_euclidean.App.Statuses.{serve_refused}
use locally_euclidean.Examples.Shelf.{
  S, K, shelf, shelf_up, shelf_no_bucket, shelf_bucket, shelf_new,
}

abbrev plain : HeaderMap
plain = record {
  Map = String → Option String;
  get = λ m n. m n;
  or_insert = λ n v m a. if str_eq a n then some (value_or v (m n)) else m a;
}

-- Dates before 1970 cannot be given.
abbrev http_date : ℤ → Option String
http_date (pos t) = some "date"
http_date (negsuc t) = none

http_dated : (t : ℤ) → IsDate t → (d : String) × (http_date t ≡ some d) × (true ≡ true)
http_dated (pos t) date = ("date", refl, refl)
http_dated (negsuc t) date = absurd date

abbrev pub http : Http
http = record {
  headers = plain;
  no_headers = λ n. none;
  text_headers = λ n. if str_eq n "content-type" then some "text/plain; charset=utf-8" else none;
  insert = λ n v m a. if str_eq a n then some v else m a;
  otel = λ m. m;
  cors = λ m. m;
  quote = λ s. s;
  show_cause = λ c. "cause";
  show_number = λ n. "number";
  http_date = http_date;
  is_header_value = λ s. true;
}

pub http-IsHttp : IsHttp http
http-IsHttp = record {
  show_number_lem = λ n. refl;
  http_date_lem = http_dated;
  is_map = record {
    or_insert_same = λ n v m. ground (arith, eq_iff n n);
    or_insert_other = λ n v m a ne. ground (arith, eq_iff a n);
  };
  no_headers_lem = λ n. refl;
  text_headers_lem = λ n. refl;
  insert_same = λ n v m. ground (arith, eq_iff n n);
  insert_other = λ n v m a ne. ground (arith, eq_iff a n);
  otel_keeps = λ m n v e. e;
  cors_keeps = λ m n v e. e;
}

-- What a request on a bucket that is not there is answered.
abbrev refusal : Answer http S.Fault
refusal = layered http none (error_answer http (bucket_does_not_exist "other"))

abbrev to_other : Endpoint
to_other = write "new" (record { bucket_name = "other" }) []

to_other_refused : (serve http none S to_other shelf).0 ≡ some refusal
unfolding serve into_answer
to_other_refused = rw (put_without_bucket S K shelf shelf_up "other" "new" [] shelf_no_bucket) refl

serve-default_example : refusal.headers "x-frame-options" ≡ some "deny"
unfolding lookup default_headers
serve-default_example =
    serve-default http http-IsHttp none S shelf to_other refusal "x-frame-options" "deny" (λ e. cc)
      refl to_other_refused

serve_refused_example : (serve http none S to_other shelf).1 ≡ shelf
unfolding error_answer layered status_code
serve_refused_example =
    serve_refused http none S K shelf shelf_up to_other refusal to_other_refused (λ e. cc) (λ e. cc)

serve_without_bucket_example :
    (a : Answer http S.Fault) × (serve http none S to_other shelf ≡ (some a, shelf))
    × (a.status ≡ not_found)
    × (a.content ≡ Content.text ("Bucket does not exist: " <> "other"))
serve_without_bucket_example =
    serve_without_bucket http none S K shelf shelf_up to_other "other" refl shelf_no_bucket

serve_without_file_example :
    (a : Answer http S.Fault) × (serve http none S (explore "my_bucket" "new") shelf
      ≡ (some a, shelf))
    × (a.status ≡ not_found)
    × (a.content ≡ Content.text ("File does not exist: " <> "new"))
serve_without_file_example =
    serve_without_file http none S K shelf shelf_up (explore "my_bucket" "new") "my_bucket" "new"
      refl shelf_bucket shelf_new

-- A server on which the table of buckets cannot be read.
abbrev out : Postgres
out = record memory { select_bucket = λ db b. err refused }

serve_outage_example :
    (a : Answer http (Fault SqlError)) × (serve http none
        (postgres_storage out direct)
        to_other
        shelf
      ≡ (some a, shelf))
    × (a.status ≡ internal_server_error)
    × (a.content ≡ Content.text ("Internal error: " <> "cause"))
serve_outage_example = serve_outage http none out direct shelf refused to_other "other" refl refl
