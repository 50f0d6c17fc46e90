-- ===== src/App/Headers.antt =====
-- The headers that an answer of server/src/lib.rs has when it leaves the layers.
use Prim.Native.String.{String}
use mathlib.Core.Option.{some-injective}
use text.Mathlib.TextEquality.{eq_iff}
use locally_euclidean.Prelude.{
  ◌≡◌, ◌≢◌, arith, subst, refl, ◌∙◌, Option, none, some, ok, err, panic, Outcome,
}
use locally_euclidean.Storage.{Storage}
use locally_euclidean.Api.{ApiError}
use locally_euclidean.Explore.{Response}
use locally_euclidean.Security.{default_headers}
use locally_euclidean.Security.Effect.{headers_lem, lookup}
use locally_euclidean.App.External.{Http, IsHttp}
use locally_euclidean.App.{
  Endpoint, home, healthcheck, write, append, log, explore, Answer, error_answer, into_answer, done,
  file_answer, layered, map_answer, serve,
}

-- A name that the defaults give a value is none of the names that they do not.
differs :
    (a n v : String) → lookup a default_headers ≡ none → lookup n default_headers ≡ some v → n ≢ a
differs a n v e e' same = cc

module _ (H : Http) (K : IsHttp H) where
  text_unset :
      (n v : String) → lookup n default_headers ≡ some v → H.headers.get H.text_headers n ≡ none
  unfolding lookup default_headers
  text_unset n v default =
      rw (K.text_headers_lem n)
        (ground (arith, eq_iff n "content-type", differs "content-type" n v refl default))

module _ (H : Http) (K : IsHttp H) (version : Option String) {F : Type 0} where
  layered-default :
      (n v : String) (a : Answer H F)
      → lookup n default_headers ≡ some v
      → H.headers.get a.headers n ≡ none
      → H.headers.get (layered H version a).headers n ≡ some v
  unfolding layered lookup default_headers
  layered-default n v a default unset = K.otel_keeps _ n v (
      K.cors_keeps _ n v (
        headers_lem H.headers K.is_map _ n
        ∙ rw
            (
              K.is_map.or_insert_other "server" _ a.headers n (differs "server" n v refl default),
              unset,
              default,
            )
            refl))

  file_unset :
      (n v : String) (r : Response F × String)
      → lookup n default_headers ≡ some v
      → H.headers.get (file_answer H r).headers n ≡ none
  unfolding lookup default_headers file_answer
  file_unset n v (r, date) default =
      K.insert_other "last-modified" _ _ n (differs "last-modified" n v refl default)
      ∙ K.insert_other "content-type" _ _ n (differs "content-type" n v refl default)
      ∙ K.insert_other "content-length" _ _ n (differs "content-length" n v refl default)
      ∙ K.no_headers_lem n

  into_answer-default :
      {A : Type 0} (n v : String) (f : A → Answer H F) (r : Outcome (ApiError F) A) (a : Answer H F)
      → lookup n default_headers ≡ some v
      → ((x : A) → H.headers.get (f x).headers n ≡ none)
      → map_answer (layered H version) (into_answer H f r) ≡ some a
      → H.headers.get a.headers n ≡ some v
  unfolding into_answer error_answer
  into_answer-default n v f (ok x) a default unset e =
      subst (λ (t : Answer H F). H.headers.get t.headers n ≡ some v) (some-injective _ _ e)
        (layered-default n v (f x) default (unset x))
  into_answer-default n v f (err x) a default unset e =
      subst (λ (t : Answer H F). H.headers.get t.headers n ≡ some v) (some-injective _ _ e)
        (layered-default n v (error_answer H x) default (text_unset H K n v default))
  into_answer-default n v f panic a default unset e = cc

module _ (H : Http) (K : IsHttp H) (version : Option String) (S : Storage) (w : S.World) where
  -- Over any storage, every answer to a request that is not the health check, be it a file, an
  -- acknowledgement or an error, has each of the default headers with its default value: no handler
  -- sets one of them, and no layer takes one away.
  pub serve-default :
      (endpoint : Endpoint) (a : Answer H S.Fault) (n v : String)
      → endpoint ≢ healthcheck
      → lookup n default_headers ≡ some v
      → (serve H version S endpoint w).0 ≡ some a
      → H.headers.get a.headers n ≡ some v
  unfolding serve
  serve-default home a n v ne default e =
      subst (λ (t : Answer H S.Fault). H.headers.get t.headers n ≡ some v) (some-injective _ _ e)
        (layered-default H K version n v _ default (text_unset H K n v default))
  serve-default healthcheck a n v ne default e = absurd (ne refl)
  serve-default (write filename query body) a n v ne default e =
      into_answer-default H K version n v (done H) _ a default (λ _. K.no_headers_lem n) e
  serve-default (append filename query body) a n v ne default e =
      into_answer-default H K version n v (done H) _ a default (λ _. K.no_headers_lem n) e
  serve-default (log filename) a n v ne default e =
      into_answer-default H K version n v (file_answer H) _ a default
        (λ r. file_unset H K version n v r default) e
  serve-default (explore bucket filename) a n v ne default e =
      into_answer-default H K version n v (file_answer H) _ a default
        (λ r. file_unset H K version n v r default) e
