-- ===== src/Security.antt =====
-- server/src/security_headers.rs: the middleware that adds headers to every response. The map of
-- headers is that of the library, a parameter with the operations that the middleware calls; headers
-- are named in lower case.
pub mod Effect
use Prim.Native.String.{String}
use locally_euclidean.Prelude.{◌≡◌, ◌≢◌, Option, none, some, List, [], ◌∷◌}

-- `HeaderMap`, with `headers.entry(name).or_insert(value)`.
pub record HeaderMap : Type 1 where
  pub Map : Type 0
  pub get : Map → String → Option String
  pub or_insert : String → String → Map → Map

-- A header that is there keeps its value.
abbrev pub value_or : String → Option String → String
value_or v none = v
value_or v (some x) = x

pub record IsHeaderMap (H : HeaderMap) : Type 0 where
  pub or_insert_same :
      (n v : String) (m : H.Map) → H.get (H.or_insert n v m) n ≡ some (value_or v (H.get m n))
  pub or_insert_other :
      (n v : String) (m : H.Map) (a : String) → a ≢ n → H.get (H.or_insert n v m) a ≡ H.get m a

unfoldable pub default_headers : List (String × String)
default_headers =
    ("x-content-type-options", "nosniff")
    ∷ ("x-frame-options", "deny")
    ∷ ("access-control-allow-origin", "")
    ∷ ("content-security-policy", "default-src 'none'; sandbox")
    ∷ []

module _ (H : HeaderMap) where
  -- The `for` loop.
  unfoldable pub insert_all : List (String × String) → H.Map → H.Map
  insert_all [] m = m
  insert_all (d ∷ ds) m = insert_all ds (H.or_insert d.0 d.1 m)

  unfoldable pub headers : H.Map → H.Map
  unfolding insert_all default_headers
  headers = insert_all default_headers
