-- ===== src/Api/Append.antt =====
-- `post_append_filename` of server/src/api.rs:
-- POST /v0/append/:filename?bucketName=:bucketName&writeOffset=:writeOffset.
pub mod Effect
pub mod Meanwhile
pub mod Session
pub mod Conflict
pub mod Broken
pub mod Acknowledged
pub mod Total
use Prim.Native.String.{String}
use locally_euclidean.Prelude.{
  ℕ, Outcome, ok, err, Exec, and_then, map_err, continue, leb, if◌then◌else◌, pos,
}
use locally_euclidean.Storage.{Storage, end}
use locally_euclidean.Api.{
  io, ApiError, internal_error, file_exists_with_conflicting_content, from_bucket_open_error,
  from_bucket_file_open_error, AppendFilenameArgs, Body,
}
use locally_euclidean.Api.Range.{
  RangeMatch, matches, length_mismatch, data_mismatch, check_range_matches,
}
use locally_euclidean.Api.Upload.{upload}

-- `match check_range_matches(..).await? { .. }`, after the `?`
pub append_answer : {F : Type 0} → RangeMatch → Outcome (ApiError F) Unit
append_answer matches = ok tt
append_answer length_mismatch = err file_exists_with_conflicting_content
append_answer data_mismatch = err file_exists_with_conflicting_content

module _ (S : Storage) where
  -- What follows the `seek` to the end of the file, which found `size`.
  append_at : ℕ → Body → S.FileHandle → ℕ → Exec S.World (ApiError S.Fault) Unit
  append_at write_offset stream file size w =
      if leb write_offset size
      then (
        and_then (map_err internal_error (check_range_matches S stream write_offset file).0)
            append_answer,
        w,
      )
      else upload S stream file w

  append_to : AppendFilenameArgs → Body → S.FileHandle → Exec S.World (ApiError S.Fault) Unit
  append_to query stream file w =
      continue (map_err (λ e. internal_error (io e)) (S.seek (end (pos 0)) file).0)
        (append_at query.write_offset stream (S.seek (end (pos 0)) file).1) w

  unfoldable pub post_append_filename :
      String → AppendFilenameArgs → Body → Exec S.World (ApiError S.Fault) Unit
  unfolding append_to append_at append_answer upload check_range_matches from_bucket_open_error
      from_bucket_file_open_error
  post_append_filename filename query stream w =
      continue (map_err (from_bucket_open_error query.bucket_name) (S.bucket w query.bucket_name))
        (λ bucket v.
          continue (map_err (from_bucket_file_open_error filename) (S.file v bucket filename))
            (append_to query stream) v)
        w
