-- ===== src/Api/Upload.antt =====
-- The loop that both `put_write_filename` and `post_append_filename` of server/src/api.rs end in:
-- append every chunk of the request body to the file, then commit.
pub mod Effect
pub mod Errors
pub mod Broken
pub mod Acknowledged
use locally_euclidean.Prelude.{Exec, mapping_err, continue, ◌>>◌, pure, raise, [], ◌∷◌}
use locally_euclidean.Storage.{Storage}
use locally_euclidean.Api.{boxed, body, ApiError, internal_error, chunk, broken, Body}

module _ (S : Storage) where
  -- `while let Some(data) = data_stream.try_next().await? { file.append(&data).await?; }`
  unfoldable pub append_chunks : Body → Exec S.FileHandle (ApiError S.Fault) Unit
  append_chunks [] = pure tt
  append_chunks (broken ∷ stream) = raise (internal_error body)
  append_chunks (chunk d ∷ stream) =
      mapping_err (λ e. internal_error (boxed e)) (S.append d) >> append_chunks stream

  -- A handle that is dropped before the commit takes its writes with it: the world is then the one
  -- that the upload began in.
  unfoldable pub upload : Body → S.FileHandle → Exec S.World (ApiError S.Fault) Unit
  unfolding append_chunks
  upload stream file =
      continue (append_chunks stream file).0
        (λ _. mapping_err (λ e. internal_error (boxed e)) (S.commit (append_chunks stream file).1))
