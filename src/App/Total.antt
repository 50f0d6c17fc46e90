-- ===== src/App/Total.antt =====
-- Whether server/src/lib.rs answers a request.
use Prim.Native.String.{String, ◌++◌ as ◌<>◌}
use locally_euclidean.Prelude.{
  suc, ◌≡◌, ◌≢◌, refl, Bool-cases, Option-cases, inl, inr, Option, some, Outcome, ok, err, panic,
  length, arith,
}
use locally_euclidean.Storage.{Storage}
use locally_euclidean.Storage.Contract.{Contract}
use locally_euclidean.Api.{ApiError}
use locally_euclidean.Api.Write.{put_write_filename}
use locally_euclidean.Api.Write.Total.{put_total}
use locally_euclidean.Api.Append.{post_append_filename}
use locally_euclidean.Api.Append.Total.{append_total}
use locally_euclidean.Explore.{get_explore, get_buck2_log}
use locally_euclidean.Explore.Effect.{explore_dated, explore_without_bucket, explore_without_file}
use locally_euclidean.App.External.{Http, IsHttp}
use locally_euclidean.App.{
  Endpoint, home, healthcheck, write, append, log, explore, Answer, error_answer, into_answer,
  printed, done, file_answer, layered, map_answer, serve,
}
use locally_euclidean.App.Growth.{RequestFits}

module _ (H : Http) (version : Option String) {F A : Type 0} where
  -- A handler that does not panic gives an answer.
  into_answer-some :
      (f : A → Answer H F) (r : Outcome (ApiError F) A)
      → ◌≢◌ {A = Outcome (ApiError F) A} r panic
      → (a : Answer H F) × (map_answer (layered H version) (into_answer H f r) ≡ some a)
  unfolding into_answer
  into_answer-some f (ok x) total = (layered H version (f x), refl)
  into_answer-some f (err e) total = (layered H version (error_answer H e), refl)
  into_answer-some f panic total = absurd (total refl)

module _ (H : Http) (I : IsHttp H) (S : Storage) (K : Contract S) (w : S.World) (up : K.Up w)
    (b n : String) where
  printed_total : printed H (get_explore S b n w) ≢ panic
  unfolding printed
  printed_total e = elim (Bool-cases (K.has_bucket w b)) [
    | inr missing ↦ cc (rw (explore_without_bucket S K w up b n missing) at e)
    | inl there ↦ elim (Option-cases (K.content w (b, n))) [
      | inl absent ↦ cc (rw (explore_without_file S K w up b n there absent) at e)
      | inr (c, content) ↦
          let (r, chunks, found, _, _, _, date) =
            explore_dated S K w up b n c (suc (length c)) there content (omega arith) in
          let (d, given, valid) = I.http_date_lem r.last_modified date in
          cc (rw (found, I.show_number_lem r.content_length, given, valid) at e)
    ]
  ]

module _ (H : Http) (I : IsHttp H) (version : Option String) (S : Storage) (K : Contract S)
    (w : S.World) (up : K.Up w) where
  -- Over a backend that meets the contract, in a well-formed state: every request whose body, if it has
  -- one, fits the backend's limits is answered, be its body whole or broken off: no handler panics, nor
  -- does the printing of the headers of a file.
  pub serve_answered :
      (endpoint : Endpoint)
      → RequestFits H version S K endpoint w
      → (a : Answer H S.Fault) × ((serve H version S endpoint w).0 ≡ some a)
  unfolding serve get_buck2_log
  serve_answered home fits = (_, refl)
  serve_answered healthcheck fits = (_, refl)
  serve_answered (write filename query body) fits =
      into_answer-some H version (done H) (put_write_filename S filename query body w).0
        (put_total S K w up query.bucket_name filename body fits)
  serve_answered (append filename query body) fits =
      into_answer-some H version (done H) (post_append_filename S filename query body w).0
        (append_total S K w up query.bucket_name filename query.write_offset body fits)
  serve_answered (log filename) fits =
      into_answer-some H version (file_answer H) _
        (printed_total H I S K w up "buck2_logs" ("flat/" <> filename <> ".pb.zst"))
  serve_answered (explore bucket filename) fits =
      into_answer-some H version (file_answer H) _ (printed_total H I S K w up bucket filename)
