-- ===== src/Api/Append/Conflict.antt =====
-- What a refusal that `post_append_filename` of server/src/api.rs answers tells the client, over any
-- storage at all.
use Prim.Native.String.{String}
use locally_euclidean.Prelude.{
  ℕ, ◌≡◌, ◌≢◌, sym, ap, Bool-cases, inl, inr, leb, err, continue, continue_keeps, map_err, pos,
}
use locally_euclidean.Storage.{Storage, end}
use locally_euclidean.Api.{
  ApiError, io, internal_error, from_bucket_open_error, from_bucket_file_open_error, status_code,
  internal_server_error, file_exists_with_conflicting_content, AppendFilenameArgs, Body,
}
use locally_euclidean.Api.Upload.Errors.{upload-IsInternal}
use locally_euclidean.Api.Append.{append_at, append_to, post_append_filename}

module _ (S : Storage) (w w' : S.World) (e : ApiError S.Fault)
    (refused : status_code e ≢ internal_server_error) where
  append_at_refused :
      (o size : ℕ) (stream : Body) (file : S.FileHandle)
      → append_at S o stream file size w ≡ (err e, w')
      → w' ≡ w
  unfolding append_at
  append_at_refused o size stream file h = elim (Bool-cases (leb o size)) [
    | inl within ↦ sym (ap (λ p. p.1) (rw within at h))
    | inr beyond ↦
        absurd (refused (upload-IsInternal S stream file w e (ap (λ p. p.0) (rw beyond at h))))
  ]

  append_to_refused :
      (query : AppendFilenameArgs) (stream : Body) (file : S.FileHandle)
      → append_to S query stream file w ≡ (err e, w')
      → w' ≡ w
  unfolding append_to
  append_to_refused query stream file =
      continue_keeps (map_err (λ x. internal_error (io x)) (S.seek (end (pos 0)) file).0)
        (append_at S query.write_offset stream (S.seek (end (pos 0)) file).1) w w' e
        (λ size. append_at_refused query.write_offset size stream (S.seek (end (pos 0)) file).1)

  -- Any error but an internal one leaves everything as it was.
  pub append_refused :
      (n : String) (query : AppendFilenameArgs) (stream : Body)
      → post_append_filename S n query stream w ≡ (err e, w')
      → w' ≡ w
  unfolding post_append_filename
  append_refused n query stream =
      continue_keeps
        (map_err (from_bucket_open_error query.bucket_name) (S.bucket w query.bucket_name))
        (λ bucket v.
          continue (map_err (from_bucket_file_open_error n) (S.file v bucket n))
            (append_to S query stream) v)
        w w' e
        (λ bucket.
          continue_keeps (map_err (from_bucket_file_open_error n) (S.file w bucket n))
            (append_to S query stream) w w' e (append_to_refused query stream))

module _ (S : Storage) (w w' : S.World) where
  -- Over any storage, however it behaves, a request that is answered with a conflict has changed
  -- nothing, whatever its offset and its body are.
  pub append_conflict :
      (n : String) (query : AppendFilenameArgs) (stream : Body)
      → post_append_filename S n query stream w ≡ (err file_exists_with_conflicting_content, w')
      → w' ≡ w
  unfolding status_code
  append_conflict = append_refused S w w' file_exists_with_conflicting_content (λ e. cc)
