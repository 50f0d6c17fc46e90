-- ===== src/App/Statuses.antt =====
-- The status codes of the answers of server/src/lib.rs, and what they tell.
use Prim.Native.String.{String}
use mathlib.Core.Option.{some-injective}
use locally_euclidean.Prelude.{◌≡◌, ◌≢◌, refl, sym, ap, ◌∙◌, Option, some, Outcome, ok, err, panic}
use locally_euclidean.Storage.{Storage}
use locally_euclidean.Storage.Contract.{Contract}
use locally_euclidean.Api.{ApiError, status_code, ok_200, internal_server_error}
use locally_euclidean.Api.Write.{put_write_filename}
use locally_euclidean.Api.Write.Refusal.{put_refused}
use locally_euclidean.Api.Append.{post_append_filename}
use locally_euclidean.Api.Append.Conflict.{append_refused}
use locally_euclidean.App.External.{Http}
use locally_euclidean.App.{
  Endpoint, home, healthcheck, write, append, log, explore, Answer, error_answer, into_answer, done,
  layered, map_answer, serve,
}

module _ (H : Http) (version : Option String) {F A : Type 0} where
  -- An answer that is not a success is that of an error.
  into_answer-err :
      (f : A → Answer H F) (r : Outcome (ApiError F) A) (a : Answer H F)
      → ((x : A) → (f x).status ≡ ok_200)
      → a.status ≢ ok_200
      → map_answer (layered H version) (into_answer H f r) ≡ some a
      → (e : ApiError F) × (r ≡ err e) × (status_code e ≡ a.status)
  unfolding into_answer error_answer layered
  into_answer-err f (ok x) a success failed h =
      absurd (failed (ap (λ (t : Answer H F). t.status) (sym (some-injective _ _ h)) ∙ success x))
  into_answer-err f (err e) a success failed h =
      (e, refl, ap (λ (t : Answer H F). t.status) (some-injective _ _ h))
  into_answer-err f panic a success failed h = cc

module _ (H : Http) (version : Option String) (S : Storage) (K : Contract S) (w : S.World)
    (up : K.Up w) where
  -- Over a backend that meets the contract, in a well-formed state: whatever the request, if the
  -- answer is neither 200 nor 500, then the request has changed nothing.
  pub serve_refused :
      (endpoint : Endpoint) (a : Answer H S.Fault)
      → (serve H version S endpoint w).0 ≡ some a
      → a.status ≢ ok_200
      → a.status ≢ internal_server_error
      → (serve H version S endpoint w).1 ≡ w
  unfolding serve
  serve_refused home a h failed outer = refl
  serve_refused healthcheck a h failed outer = refl
  serve_refused (write filename query body) a h failed outer =
      let r = put_write_filename S filename query body w in
      let (e, same, status) = into_answer-err H version (done H) r.0 a (λ _. refl) failed h in
      put_refused S K w r.1 up e (λ q. outer (sym status ∙ q)) query.bucket_name filename body
        (λ i. (same i, r.1))
  serve_refused (append filename query body) a h failed outer =
      let r = post_append_filename S filename query body w in
      let (e, same, status) = into_answer-err H version (done H) r.0 a (λ _. refl) failed h in
      append_refused S w r.1 e (λ q. outer (sym status ∙ q)) filename query body
        (λ i. (same i, r.1))
  serve_refused (log filename) a h failed outer = refl
  serve_refused (explore bucket filename) a h failed outer = refl
