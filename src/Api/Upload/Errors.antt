-- ===== src/Api/Upload/Errors.antt =====
-- How the upload loop of server/src/api.rs fails, over any storage: always with an internal error.
use locally_euclidean.Prelude.{
  ◌≡◌, refl, Outcome, err, map_err, mapping_err, continue-err, map_err-err, [], ◌∷◌, err-injective,
  subst,
}
use locally_euclidean.Storage.{Storage}
use locally_euclidean.Api.{
  ApiError, Body, Cause, boxed, internal_error, internal_server_error, status_code, chunk, broken,
  body,
}
use locally_euclidean.Api.Upload.{append_chunks, upload}

module _ {F : Type 0} where
  abbrev pub IsInternal : ApiError F → Type 0
  IsInternal e = status_code e ≡ internal_server_error

  pub status_code-internal_error : (c : Cause F) → IsInternal (internal_error c)
  unfolding status_code
  status_code-internal_error c = refl

  pub map_err-IsInternal :
      {E A : Type 0} (cause : E → Cause F) (r : Outcome E A) (e : ApiError F)
      → map_err (λ x. internal_error (cause x)) r ≡ err e
      → IsInternal e
  map_err-IsInternal cause r =
      map_err-err IsInternal (λ x. internal_error (cause x)) r
        (λ x _. status_code-internal_error (cause x))

module _ (S : Storage) where
  append_chunks-IsInternal :
      (stream : Body) (h : S.FileHandle) (e : ApiError S.Fault)
      → (append_chunks S stream h).0 ≡ err e
      → IsInternal e
  unfolding append_chunks
  append_chunks-IsInternal [] h e q = cc
  append_chunks-IsInternal (broken ∷ stream) h e q =
      subst IsInternal (err-injective q) (status_code-internal_error body)
  append_chunks-IsInternal (chunk d ∷ stream) h e q =
      continue-err IsInternal (map_err (λ x. internal_error (boxed x)) (S.append d h).0)
        (λ _. append_chunks S stream) (S.append d h).1 (map_err-IsInternal boxed (S.append d h).0)
        (λ _ x q'. append_chunks-IsInternal stream (S.append d h).1 x q') e q

  pub upload-IsInternal :
      (stream : Body) (h : S.FileHandle) (w : S.World) (e : ApiError S.Fault)
      → (upload S stream h w).0 ≡ err e
      → IsInternal e
  unfolding upload
  upload-IsInternal stream h w =
      continue-err IsInternal (append_chunks S stream h).0
        (λ _. mapping_err (λ x. internal_error (boxed x)) (S.commit (append_chunks S stream h).1)) w
        (append_chunks-IsInternal stream h)
        (λ _. map_err-IsInternal boxed (S.commit (append_chunks S stream h).1 w).0)
