-- ===== src/Security/Effect.antt =====
-- What `headers` of server/src/security_headers.rs leaves in a response, over a map of headers that
-- keeps its laws.
use Prim.Native.String.{String}
use text.Mathlib.Text.{◌==◌ as str_eq}
use text.Mathlib.TextEquality.{eq_iff}
use locally_euclidean.Prelude.{
  ◌≡◌, refl, ◌∙◌, Option, none, some, List, [], ◌∷◌, if◌then◌else◌, Bool-cases, inl, inr,
}
use locally_euclidean.Security.{
  HeaderMap, IsHeaderMap, default_headers, insert_all, headers, value_or,
}

-- The first value that a list gives a name.
unfoldable pub lookup : String → List (String × String) → Option String
lookup n [] = none
lookup n (d ∷ ds) = if str_eq n d.0 then some d.1 else lookup n ds

abbrev pub or_else : Option String → Option String → Option String
or_else (some x) o = some x
or_else none o = o

or_else-none : (o : Option String) → o ≡ or_else o none
or_else-none none = refl
or_else-none (some x) = refl

or_else_value :
    (o p : Option String) (v : String) → or_else (some (value_or v o)) p ≡ or_else o (some v)
or_else_value none p v = refl
or_else_value (some x) p v = refl

module _ (H : HeaderMap) (K : IsHeaderMap H) where
  insert_all_lem :
      (ds : List (String × String)) (m : H.Map) (n : String)
      → H.get (insert_all H ds m) n ≡ or_else (H.get m n) (lookup n ds)
  unfolding insert_all lookup
  insert_all_lem [] m n = or_else-none (H.get m n)
  insert_all_lem (d ∷ ds) m n =
      insert_all_lem ds (H.or_insert d.0 d.1 m) n ∙ elim (Bool-cases (str_eq n d.0)) [
        | inl same ↦
            rw (same, (eq_iff n d.0).0 same)
              (rw (K.or_insert_same d.0 d.1 m) (or_else_value (H.get m d.0) (lookup d.0 ds) d.1))
        | inr differ ↦
            rw (differ, K.or_insert_other d.0 d.1 m n (λ e. cc (differ, (eq_iff n d.0).1 e)))
      ]

  -- The middleware leaves every header that the handler has set as it is, and gives every other name
  -- the value that the list of defaults has for it, if it has one.
  pub headers_lem :
      (m : H.Map) (n : String)
      → H.get (headers H m) n ≡ or_else (H.get m n) (lookup n default_headers)
  unfolding headers
  headers_lem m n = insert_all_lem default_headers m n
