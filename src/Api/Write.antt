-- ===== src/Api/Write.antt =====
-- `put_write_filename` of server/src/api.rs: PUT /v0/write/:filename?bucketName=:bucketName.
pub mod Effect
pub mod Retry
pub mod Meanwhile
pub mod Refusal
pub mod Broken
pub mod Acknowledged
pub mod Total
use Prim.Native.String.{String}
use locally_euclidean.Prelude.{Outcome, ok, err, panic, Exec, and_then, map_err, continue}
use locally_euclidean.Storage.{Storage, FileCreateError, file_exists}
use locally_euclidean.Api.{
  open_error, create_error, ApiError, internal_error, file_exists_with_conflicting_content,
  from_bucket_open_error, WriteFilenameArgs, Body,
}
use locally_euclidean.Api.Range.{RangeMatch, matches, check_range_matches}
use locally_euclidean.Api.Upload.{upload}

-- `match check_range_matches(..).await? { Matches => Ok(()), _ => Err(..) }`, after the `?`
pub put_answer : {F : Type 0} → RangeMatch → Outcome (ApiError F) Unit
put_answer matches = ok tt
put_answer _ = err file_exists_with_conflicting_content

module _ (S : Storage) where
  -- The file exists: open it, and compare it with the whole body. The handle is dropped.
  compare_existing : S.World → S.Bucket → String → Body → Outcome (ApiError S.Fault) Unit
  compare_existing w bucket filename stream =
      and_then (map_err (λ e. internal_error (open_error e)) (S.file w bucket filename)) (λ file.
        and_then (map_err internal_error (check_range_matches S stream 0 file).0) put_answer)

  -- The arms of `match bucket.create_file(&filename).await`.
  write_to :
      S.Bucket
      → String
      → Body
      → Outcome (FileCreateError S.Fault) S.FileHandle
      → Exec S.World (ApiError S.Fault) Unit
  write_to bucket filename stream (ok file) w = upload S stream file w
  write_to bucket filename stream (err file_exists) w =
      (compare_existing w bucket filename stream, w)
  write_to bucket filename stream (err e) w = (err (internal_error (create_error e)), w)
  write_to bucket filename stream panic w = (panic, w)

  unfoldable pub put_write_filename :
      String → WriteFilenameArgs → Body → Exec S.World (ApiError S.Fault) Unit
  unfolding write_to compare_existing put_answer upload check_range_matches from_bucket_open_error
  put_write_filename filename query stream w =
      continue (map_err (from_bucket_open_error query.bucket_name) (S.bucket w query.bucket_name))
        (λ bucket v.
          write_to bucket filename stream (S.create_file bucket filename v).0
            (S.create_file bucket filename v).1)
        w
