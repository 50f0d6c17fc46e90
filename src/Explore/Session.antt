-- ===== src/Explore/Session.antt =====
-- Downloads after uploads: `get_explore` of server/src/explore.rs, after any number of PUTs and appends of
-- server/src/api.rs, beside the machine of Api/Spec/Machine.
use Prim.Native.String.{String}
use locally_euclidean.Prelude.{
  ℕ, ◌≡◌, Bool, true, false, Option, none, some, Outcome, ok, err, List, map, flatten, Bytes,
  length,
}
use locally_euclidean.Storage.{Storage}
use locally_euclidean.Storage.Contract.{Contract, Key}
use locally_euclidean.Api.{ApiError, bucket_does_not_exist, file_does_not_exist}
use locally_euclidean.Api.Spec.Refinement.{held}
use locally_euclidean.Explore.{Response}

module _ (F : Type 0) (k : Key) (rounds : ℕ) where
  -- What a client should be told of a file that holds these bytes, or is not there, in a bucket that is
  -- there, or is not: the length and the bytes, in whatever chunks, or the error.
  abbrev pub Tells : Bool → Option Bytes → Outcome (ApiError F) (Response F) → Type 0
  Tells false held answer = answer ≡ err (bucket_does_not_exist k.0)
  Tells true none answer = answer ≡ err (file_does_not_exist k.1)
  Tells true (some c) answer =
      (r : Response F) × (chunks : List Bytes) × (answer ≡ ok r)
      × (r.content_length ≡ length c)
      × (r.items rounds ≡ map ok chunks)
      × (flatten chunks ≡ c)
