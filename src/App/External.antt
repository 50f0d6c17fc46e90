-- ===== src/App/External.antt =====
-- What the server uses of axum, tower-http, http and httpdate, a parameter: the maps of headers, and
-- the printing of what is put into an answer. Routing is axum's too, and is left out: an answer is
-- given to a request that has been routed and parsed.
use Prim.Native.String.{String}
use text.Mathlib.Text.{◌==◌ as str_eq}
use locally_euclidean.Prelude.{◌≡◌, ◌≢◌, ℕ, ℤ, Bool, true, Option, none, some, if◌then◌else◌}
use locally_euclidean.Storage.{IsDate}
use locally_euclidean.Api.{Cause}
use locally_euclidean.Security.{HeaderMap, IsHeaderMap}

pub record Http : Type 1 where
  pub headers : HeaderMap
  -- The headers of `Response::new`, and those of an answer made of a text.
  pub no_headers : headers.Map
  pub text_headers : headers.Map
  -- `HeaderMap::insert`
  pub insert : String → String → headers.Map → headers.Map
  -- The layers `OtelInResponseLayer` and `CorsLayer::new()`, on a response.
  pub otel : headers.Map → headers.Map
  pub cors : headers.Map → headers.Map
  -- `{:?}` of a text, the text of a boxed error, `to_string` of a number, and the date of a header:
  -- `HttpDate::from` panics on a time that is too early or too late. Whether a text can be the value of a header.
  pub quote : String → String
  pub show_cause : {F : Type 0} → Cause F → String
  pub show_number : ℕ → String
  pub http_date : ℤ → Option String
  pub is_header_value : String → Bool

pub record IsHttp (H : Http) : Type 0 where
  pub show_number_lem : (n : ℕ) → H.is_header_value (H.show_number n) ≡ true
  pub http_date_lem :
      (t : ℤ) → IsDate t → (d : String) × (H.http_date t ≡ some d) × (H.is_header_value d ≡ true)
  pub is_map : IsHeaderMap H.headers
  pub no_headers_lem : (n : String) → H.headers.get H.no_headers n ≡ none
  pub text_headers_lem :
      (n : String)
      → H.headers.get H.text_headers n
        ≡ (if str_eq n "content-type" then some "text/plain; charset=utf-8" else none)
  pub insert_same : (n v : String) (m : H.headers.Map) → H.headers.get (H.insert n v m) n ≡ some v
  pub insert_other :
      (n v : String) (m : H.headers.Map) (a : String)
      → a ≢ n
      → H.headers.get (H.insert n v m) a ≡ H.headers.get m a
  -- The layers only add headers.
  pub otel_keeps :
      (m : H.headers.Map) (n v : String)
      → H.headers.get m n ≡ some v
      → H.headers.get (H.otel m) n ≡ some v
  pub cors_keeps :
      (m : H.headers.Map) (n v : String)
      → H.headers.get m n ≡ some v
      → H.headers.get (H.cors m) n ≡ some v
