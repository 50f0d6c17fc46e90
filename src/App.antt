-- ===== src/App.antt =====
-- server/src/lib.rs: `make_app`, which puts the handlers together and the middleware around them; and
-- `service_error!` of server/src/errors.rs, which makes an answer of an error.
pub mod External
pub mod Headers
pub mod Statuses
pub mod Missing
pub mod Outage
pub mod Growth
pub mod Broken
pub mod Total
use Prim.Native.String.{String, ◌++◌ as ◌<>◌}
use locally_euclidean.Prelude.{
  ℕ, Option, none, some, Outcome, ok, err, panic, and_then, if◌then◌else◌, List, Bytes,
}
use locally_euclidean.Storage.{Storage}
use locally_euclidean.Api.{
  ApiError, bucket_does_not_exist, invalid_bucket_name, file_does_not_exist, invalid_file_name,
  file_exists_with_conflicting_content, internal_error, StatusCode, ok_200, status_code,
  WriteFilenameArgs, AppendFilenameArgs, Body,
}
use locally_euclidean.Api.Write.{put_write_filename}
use locally_euclidean.Api.Append.{post_append_filename}
use locally_euclidean.Explore.{Response, get_explore, get_buck2_log}
use locally_euclidean.Security.{headers}
use locally_euclidean.App.External.{Http}

-- A request that has been routed, with what axum has extracted for the handler.
pub data Endpoint : Type 0 where
  home healthcheck : Endpoint
  write : String → WriteFilenameArgs → Body → Endpoint
  append : String → AppendFilenameArgs → Body → Endpoint
  log : String → Endpoint
  explore : String → String → Endpoint

-- The body of an answer: a text, or the items that a client is sent.
pub data Content (F : Type 0) : Type 0 where
  text : String → Content F
  stream : (ℕ → List (Outcome (ApiError F) Bytes)) → Content F

pub record Answer (H : Http) (F : Type 0) : Type 0 where
  pub status : StatusCode
  pub headers : H.headers.Map
  pub content : Content F

-- `VERSION_HEADER`, with `version` the variable of the build.
version_header : Option String → String
version_header none =
    "locally-euclidean/? (https://github.com/mercurytechnologies/locally-euclidean)"
version_header (some version) =
    "locally-euclidean/" <> version <> " (https://github.com/mercurytechnologies/locally-euclidean)"

module _ (H : Http) {F : Type 0} where
  -- `Display` of `ApiError`
  error_text : ApiError F → String
  error_text (bucket_does_not_exist name) = "Bucket does not exist: " <> H.quote name
  error_text (invalid_bucket_name name) = "Invalid bucket name: " <> H.quote name
  error_text (file_does_not_exist name) = "File does not exist: " <> H.quote name
  error_text (invalid_file_name name) = "Invalid file name: " <> H.quote name
  error_text file_exists_with_conflicting_content = "File already exists with conflicting content"
  error_text (internal_error cause) = "Internal error: " <> H.show_cause cause

  abbrev pub text_answer : StatusCode → String → Answer H F
  text_answer code t = record { status = code; headers = H.text_headers; content = text t }

  -- `into_response` of an error
  unfoldable pub error_answer : ApiError F → Answer H F
  unfolding error_text status_code
  error_answer e = text_answer (status_code e) (error_text e)

  -- `into_response` of a handler's result; a handler that panics gives no answer.
  unfoldable pub into_answer :
      {A : Type 0} → (A → Answer H F) → Outcome (ApiError F) A → Option (Answer H F)
  unfolding error_answer
  into_answer f (ok a) = some (f a)
  into_answer f (err e) = some (error_answer e)
  into_answer f panic = none

  -- `into_response` of `()`
  abbrev pub done : Unit {0} → Answer H F
  done _ = record { status = ok_200; headers = H.no_headers; content = text "" }

  -- `HeaderValue::try_from(..).expect(..)`
  abbrev header_value : {A : Type 0} → String → A → Outcome (ApiError F) A
  header_value value a = if H.is_header_value value then ok a else panic

  -- `HttpDate::from(..).to_string()`
  abbrev print_date : Response F → Option String → Outcome (ApiError F) (Response F × String)
  print_date r none = panic
  print_date r (some date) = header_value date (r, date)

  -- The values of the headers that `get_explore` puts into its response, any of which may be a panic.
  unfoldable pub printed :
      Outcome (ApiError F) (Response F) → Outcome (ApiError F) (Response F × String)
  printed found = and_then found (λ r.
      and_then (header_value (H.show_number r.content_length) r)
        (λ r. print_date r (H.http_date r.last_modified)))

  -- The response of `get_explore` with its headers.
  unfoldable pub file_answer : Response F × String → Answer H F
  file_answer (r, date) = record {
    status = ok_200;
    headers = H.insert "last-modified" date (
        H.insert "content-type" r.content_type
          (H.insert "content-length" (H.show_number r.content_length) H.no_headers));
    content = stream r.items;
  }

  -- The layers of `make_app`, on the response to a request that has reached its handler; a response
  -- passes them from the last to the first.
  unfoldable pub layered : Option String → Answer H F → Answer H F
  unfolding version_header headers
  layered version a = record a {
    headers = H.otel (
        H.cors
          (headers H.headers (H.headers.or_insert "server" (version_header version) a.headers)));
  }

abbrev pub map_answer : {A B : Type 0} → (A → B) → Option A → Option B
map_answer f none = none
map_answer f (some a) = some (f a)

module _ (H : Http) (version : Option String) (S : Storage) where
  -- The handlers behind the layers.
  handled : Endpoint → S.World → Option (Answer H S.Fault) × S.World
  handled home w = (
    some (text_answer H ok_200 "This is https://github.com/MercuryTechnologies/locally-euclidean"),
    w,
  )
  handled healthcheck w = (some (text_answer H ok_200 "ok"), w)
  handled (write filename query body) w = (
    into_answer H (done H) (put_write_filename S filename query body w).0,
    (put_write_filename S filename query body w).1,
  )
  handled (append filename query body) w = (
    into_answer H (done H) (post_append_filename S filename query body w).0,
    (post_append_filename S filename query body w).1,
  )
  handled (log filename) w =
      (into_answer H (file_answer H) (printed H (get_buck2_log S filename w)), w)
  handled (explore bucket filename) w =
      (into_answer H (file_answer H) (printed H (get_explore S bucket filename w)), w)

  -- The route of the health check is added after the layers, so they do not reach it.
  unfoldable pub serve : Endpoint → S.World → Option (Answer H S.Fault) × S.World
  unfolding handled
  serve healthcheck w = handled healthcheck w
  serve endpoint w = (map_answer (layered H version) (handled endpoint w).0, (handled endpoint w).1)
