-- ===== src/Api/Upload/Broken.antt =====
-- The upload loop of server/src/api.rs on a body that breaks off, over any storage at all.
use locally_euclidean.Prelude.{
  ◌≡◌, ◌≢◌, Bool, true, false, ok, map_err, mapping_err, continue-value, [], ◌∷◌,
}
use locally_euclidean.Storage.{Storage}
use locally_euclidean.Api.{Body, chunk, broken, boxed, internal_error}
use locally_euclidean.Api.Upload.{append_chunks, upload}

-- Whether the body breaks off.
abbrev pub breaks : Body → Bool
breaks [] = false
breaks (broken ∷ stream) = true
breaks (chunk d ∷ stream) = breaks stream

module _ (S : Storage) where
  append_chunks_unfinished :
      (stream : Body) (h : S.FileHandle)
      → breaks stream ≡ true
      → (append_chunks S stream h).0 ≢ ok tt
  unfolding append_chunks
  append_chunks_unfinished [] h off e = cc
  append_chunks_unfinished (broken ∷ stream) h off e = cc
  append_chunks_unfinished (chunk d ∷ stream) h off e =
      let (_, _, e') =
        continue-value (map_err (λ x. internal_error (boxed x)) (S.append d h).0)
          (λ _. append_chunks S stream) (S.append d h).1 tt e in
      append_chunks_unfinished stream (S.append d h).1 off e'

  -- The upload of a body that breaks off never succeeds.
  pub upload_unfinished :
      (stream : Body) (h : S.FileHandle) (w : S.World)
      → breaks stream ≡ true
      → (upload S stream h w).0 ≢ ok tt
  unfolding upload
  upload_unfinished stream h w off e =
      let (_, done, _) =
        continue-value (append_chunks S stream h).0
          (λ _. mapping_err (λ x. internal_error (boxed x)) (S.commit (append_chunks S stream h).1))
          w tt e in
      append_chunks_unfinished stream h off done
