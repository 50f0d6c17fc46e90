-- ===== src/Api/Spec.antt =====
-- What the API of server/src/api.rs promises, as a machine on contents alone: each file is a list of
-- bytes or not there, and a request is answered and changes at most its own file.
pub mod Refinement
pub mod Machine
use Prim.Native.String.{String}
use locally_euclidean.Prelude.{
  ℕ, suc, ◌≢◌, ◌≡◌, Bool, true, false, Option, none, some, Outcome, ok, err, Bytes, ◌++◌, drop,
  length, leb, bytes_eq, if◌then◌else◌,
}
use locally_euclidean.Storage.{Storage}
use locally_euclidean.Storage.Contract.{Contract, Key, Writes}
use locally_euclidean.Api.{
  ApiError, bucket_does_not_exist, file_does_not_exist, file_exists_with_conflicting_content,
}

pub data Reply : Type 0 where
  done no_bucket no_file conflict : Reply

-- A reply, and what the file then holds if it is written to.
abbrev pub Effect : Type 0
Effect = Reply × Option Bytes

abbrev agreeing : Bool → Effect
agreeing true = (done, none)
agreeing false = (conflict, none)

-- A write: a new file is stored; one that is there must be the same.
abbrev pub spec_write : Bytes → Bool → Option Bytes → Effect
spec_write d false _ = (no_bucket, none)
spec_write d true none = (done, some d)
spec_write d true (some c) = agreeing (bytes_eq d c)

-- An append: at the end of the file, as README.md has it, and past it, as the end to end test of
-- server/tests/e2e.rs has it, the bytes are put behind the file; before the end they must be its rest.
abbrev pub spec_append : ℕ → Bytes → Bool → Option Bytes → Effect
spec_append o d false _ = (no_bucket, none)
spec_append o d true none = (no_file, none)
spec_append o d true (some c) =
    if leb (suc o) (length c) then agreeing (bytes_eq d (drop o c)) else (done, some (c ++ d))

-- The offset is not just the end of the file.
abbrev pub IsOffEnd : ℕ → Option Bytes → Type 0
IsOffEnd o none = Unit
IsOffEnd o (some c) = o ≢ length c

module _ (S : Storage) (K : Contract S) where
  -- What the reply is to a request on the file `n` of the bucket `b`.
  abbrev pub replied : Key → Reply → Outcome (ApiError S.Fault) Unit
  replied k done = ok tt
  replied k no_bucket = err (bucket_does_not_exist k.0)
  replied k no_file = err (file_does_not_exist k.1)
  replied k conflict = err file_exists_with_conflicting_content

  abbrev pub Changed : S.World → S.World → Key → Option Bytes → Type 0
  Changed w w' k none = w' ≡ w
  Changed w w' k (some c) = Writes K.content K.has_bucket w w' k c

  -- The outcome of a request on `k` is what the specification asks for.
  abbrev pub Implements :
      Key → Effect → S.World → Outcome (ApiError S.Fault) Unit × S.World → Type 0
  Implements k effect w outcome =
      (outcome.0 ≡ replied k effect.0) × K.Up outcome.1 × Changed w outcome.1 k effect.1
