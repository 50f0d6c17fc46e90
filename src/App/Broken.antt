-- ===== src/App/Broken.antt =====
-- What server/src/lib.rs answers to a request whose body breaks off.
use Prim.Native.String.{String}
use mathlib.Core.Option.{some-injective}
use locally_euclidean.Prelude.{
  ◌≡◌, ◌≢◌, refl, ap, ◌∙◌, Bool, true, false, Option, some, Outcome, ok, err, panic,
}
use locally_euclidean.Storage.{Storage}
use locally_euclidean.Api.{
  ApiError, bucket_does_not_exist, invalid_bucket_name, file_does_not_exist, invalid_file_name,
  file_exists_with_conflicting_content, internal_error, status_code, ok_200,
}
use locally_euclidean.Api.Upload.Broken.{breaks}
use locally_euclidean.Api.Write.Broken.{put_unfinished}
use locally_euclidean.Api.Append.Broken.{append_unfinished}
use locally_euclidean.App.External.{Http}
use locally_euclidean.App.{
  Endpoint, home, healthcheck, write, append, log, explore, Answer, error_answer, into_answer, done,
  layered, map_answer, serve,
}

-- Whether the request has a body that breaks off.
abbrev pub breaks_off : Endpoint → Bool
breaks_off (write filename query body) = breaks body
breaks_off (append filename query body) = breaks body
breaks_off _ = false

status_code_unsuccessful : {F : Type 0} (e : ApiError F) → status_code e ≢ ok_200
unfolding status_code
status_code_unsuccessful (bucket_does_not_exist b) h = cc
status_code_unsuccessful (invalid_bucket_name b) h = cc
status_code_unsuccessful (file_does_not_exist n) h = cc
status_code_unsuccessful (invalid_file_name n) h = cc
status_code_unsuccessful file_exists_with_conflicting_content h = cc
status_code_unsuccessful (internal_error c) h = cc

module _ (H : Http) (version : Option String) {F A : Type 0} where
  -- An answer with the status 200 is that of a success.
  into_answer-ok :
      (f : A → Answer H F) (r : Outcome (ApiError F) A) (a : Answer H F)
      → a.status ≡ ok_200
      → map_answer (layered H version) (into_answer H f r) ≡ some a
      → (x : A) × (r ≡ ok x)
  unfolding into_answer error_answer layered
  into_answer-ok f (ok x) a success h = (x, refl)
  into_answer-ok f (err e) a success h = absurd (
      status_code_unsuccessful e
        (ap (λ (t : Answer H F). t.status) (some-injective _ _ h) ∙ success))
  into_answer-ok f panic a success h = cc

module _ (H : Http) (version : Option String) (S : Storage) (w : S.World) where
  -- Over any storage, however it behaves: a request whose body breaks off is never answered 200.
  pub serve_broken :
      (endpoint : Endpoint) (a : Answer H S.Fault)
      → breaks_off endpoint ≡ true
      → (serve H version S endpoint w).0 ≡ some a
      → a.status ≢ ok_200
  unfolding serve
  serve_broken home a off h success = cc
  serve_broken healthcheck a off h success = cc
  serve_broken (write filename query body) a off h success =
      let (_, stored) = into_answer-ok H version (done H) _ a success h in
      put_unfinished S filename query body w off stored
  serve_broken (append filename query body) a off h success =
      let (_, stored) = into_answer-ok H version (done H) _ a success h in
      append_unfinished S w body off filename query stored
  serve_broken (log filename) a off h success = cc
  serve_broken (explore bucket filename) a off h success = cc
