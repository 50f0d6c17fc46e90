-- ===== src/Api.antt =====
-- server/src/api.rs: the errors of the Manifold API with their status codes, and the arguments and
-- bodies of its requests. The handlers are in the modules below: `check_range_matches` in
-- Api/Range, `put_write_filename` in Api/Write, `post_append_filename` in Api/Append.
pub mod Range
pub mod Upload
pub mod Write
pub mod Append
pub mod Among
pub mod Growth
pub mod Spec
use Prim.Native.String.{String}
use locally_euclidean.Prelude.{ℕ, List, Bytes}
use locally_euclidean.Storage.{IoError, BoxError, FileOpenError, FileCreateError, does_not_exist}

-- What is boxed as `axum::BoxError` inside an internal error. `body` is `axum::Error`, a request
-- body that broke off.
pub data Cause (F : Type 0) : Type 0 where
  io : IoError F → Cause F
  boxed : BoxError F → Cause F
  open_error : FileOpenError F → Cause F
  create_error : FileCreateError F → Cause F
  body : Cause F

pub data ApiError (F : Type 0) : Type 0 where
  bucket_does_not_exist : String → ApiError F
  invalid_bucket_name : String → ApiError F
  file_does_not_exist : String → ApiError F
  invalid_file_name : String → ApiError F
  file_exists_with_conflicting_content : ApiError F
  internal_error : Cause F → ApiError F

pub data StatusCode : Type 0 where
  ok_200 bad_request not_found conflict internal_server_error : StatusCode

module _ {F : Type 0} where
  unfoldable pub status_code : ApiError F → StatusCode
  status_code (bucket_does_not_exist _) = not_found
  status_code (invalid_bucket_name _) = bad_request
  status_code (file_does_not_exist _) = not_found
  status_code (invalid_file_name _) = bad_request
  status_code file_exists_with_conflicting_content = conflict
  status_code (internal_error _) = internal_server_error

  unfoldable pub from_bucket_open_error : String → FileOpenError F → ApiError F
  from_bucket_open_error name does_not_exist = bucket_does_not_exist name
  from_bucket_open_error name FileOpenError.invalid_name = invalid_bucket_name name
  from_bucket_open_error name (FileOpenError.other_error e) =
      internal_error (open_error (FileOpenError.other_error e))

  unfoldable pub from_bucket_file_open_error : String → FileOpenError F → ApiError F
  from_bucket_file_open_error name does_not_exist = file_does_not_exist name
  from_bucket_file_open_error name FileOpenError.invalid_name = invalid_file_name name
  from_bucket_file_open_error name (FileOpenError.other_error e) =
      internal_error (open_error (FileOpenError.other_error e))

pub record WriteFilenameArgs : Type 0 where
  pub bucket_name : String

pub record AppendFilenameArgs : Type 0 where
  pub bucket_name : String
  pub write_offset : ℕ

-- An item of `request.into_data_stream()`: a chunk, or the error that ends a broken body.
pub data Frame : Type 0 where
  chunk : Bytes → Frame
  broken : Frame

abbrev pub Body : Type 0
Body = List Frame
