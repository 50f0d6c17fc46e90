-- ===== src/Explore.antt =====
-- server/src/explore.rs: `get_explore`, which streams a file, and `get_buck2_log` of
-- server/src/api.rs, which does so for a build log.
pub mod Effect
pub mod Log
pub mod Session
use Prim.Native.String.{String, ◌++◌ as ◌<>◌}
use locally_euclidean.Prelude.{ℕ, ℤ, ◌*◌, Outcome, ok, and_then, map_err, List, map, Bytes, pos}
use locally_euclidean.Storage.{Storage, start, end, FileMetadata}
use locally_euclidean.Api.{
  io, boxed, ApiError, internal_error, from_bucket_open_error, from_bucket_file_open_error,
}

unfoldable pub buffer_size : ℕ
buffer_size = 64 * 1024

-- The response before its headers are printed: the length and the time that the handler prints into
-- them, and the body as the items that the client is sent. The printing, with its panics, is `printed` of
-- App, through which every response passes.
pub record Response (F : Type 0) : Type 0 where
  pub content_length : ℕ
  pub content_type : String
  pub last_modified : ℤ
  pub items : ℕ → List (Outcome (ApiError F) Bytes)

module _ (S : Storage) where
  -- After the two seeks and the query for the metadata.
  respond : ℕ → S.FileHandle → FileMetadata → Response S.Fault
  unfolding buffer_size
  respond size file metadata = record {
    content_length = size;
    content_type = "application/octet-stream";
    last_modified = metadata.last_modified_at;
    items = λ n. map (map_err (λ e. internal_error (io e))) (S.reader_stream n buffer_size file);
  }

  -- `file.metadata().await`
  with_metadata : ℕ → S.FileHandle → Outcome (ApiError S.Fault) (Response S.Fault)
  with_metadata size file =
      and_then (map_err (λ e. internal_error (boxed e)) (S.metadata file).0)
        (λ metadata. ok (respond size (S.metadata file).1 metadata))

  -- `file.seek(SeekFrom::Start(0)).await`
  rewind : ℕ → S.FileHandle → Outcome (ApiError S.Fault) (Response S.Fault)
  rewind size file =
      and_then (map_err (λ e. internal_error (io e)) (S.seek (start 0) file).0)
        (λ _. with_metadata size (S.seek (start 0) file).1)

  -- `file.seek(SeekFrom::End(0)).await`
  measure : S.FileHandle → Outcome (ApiError S.Fault) (Response S.Fault)
  measure file =
      and_then (map_err (λ e. internal_error (io e)) (S.seek (end (pos 0)) file).0)
        (λ size. rewind size (S.seek (end (pos 0)) file).1)

  unfoldable pub get_explore :
      String → String → S.World → Outcome (ApiError S.Fault) (Response S.Fault)
  unfolding measure rewind with_metadata respond from_bucket_open_error from_bucket_file_open_error
  get_explore bucket_name filename w =
      and_then (map_err (from_bucket_open_error bucket_name) (S.bucket w bucket_name)) (λ bucket.
        and_then (map_err (from_bucket_file_open_error filename) (S.file w bucket filename))
          measure)

  unfoldable pub get_buck2_log : String → S.World → Outcome (ApiError S.Fault) (Response S.Fault)
  unfolding get_explore
  get_buck2_log filename w = get_explore "buck2_logs" ("flat/" <> filename <> ".pb.zst") w
