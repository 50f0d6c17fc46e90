-- ===== src/Api/Upload/Acknowledged.antt =====
-- What the success of the upload loop of server/src/api.rs tells, over any storage at all.
use locally_euclidean.Prelude.{
  ◌≡◌, refl, ap, ok, map_err, map_err-ok, mapping_err, continue-value, continue-both, List, [], ◌∷◌,
  map, Bytes,
}
use locally_euclidean.Storage.{Storage}
use locally_euclidean.Api.{Body, chunk, broken, boxed, internal_error}
use locally_euclidean.Api.Upload.{append_chunks, upload}

module _ (S : Storage) where
  -- The chunks were appended one after the other, each with success.
  abbrev pub Appended : List Bytes → S.FileHandle → S.FileHandle → Type 0
  Appended [] h h' = h ≡ h'
  Appended (d ∷ ds) h h' = ((S.append d h).0 ≡ ok tt) × Appended ds (S.append d h).1 h'

  -- The body arrived whole, all of its chunks were appended to the file, and then it was committed.
  pub record Stored (stream : Body) (file : S.FileHandle) (w w' : S.World) : Type 0 where
    pub chunks : List Bytes
    pub handle : S.FileHandle
    pub whole : stream ≡ map chunk chunks
    pub appended : Appended chunks file handle
    pub committed : S.commit handle w ≡ (ok tt, w')

  append_chunks-Appended :
      (stream : Body) (h : S.FileHandle)
      → (append_chunks S stream h).0 ≡ ok tt
      → (ds : List Bytes) × (stream ≡ map chunk ds) × Appended ds h (append_chunks S stream h).1
  unfolding append_chunks
  append_chunks-Appended [] h e = ([], refl, refl)
  append_chunks-Appended (broken ∷ stream) h e = cc
  append_chunks-Appended (chunk d ∷ stream) h e =
      let (_, first, e') =
        continue-value (map_err (λ x. internal_error (boxed x)) (S.append d h).0)
          (λ _. append_chunks S stream) (S.append d h).1 tt e in
      let one : (S.append d h).0 ≡ ok tt = map_err-ok (λ x. internal_error (boxed x)) _ _ first in
      let (ds, whole, appended) = append_chunks-Appended stream (S.append d h).1 e' in
      (d ∷ ds, ap (λ t. chunk d ∷ t) whole, (one, rw one appended))

  pub upload-Stored :
      (stream : Body) (file : S.FileHandle) (w w' : S.World)
      → upload S stream file w ≡ (ok tt, w')
      → Stored stream file w w'
  unfolding upload
  upload-Stored stream file w w' e =
      let (_, sent, e') =
        continue-both (append_chunks S stream file).0
          (λ _.
            mapping_err (λ x. internal_error (boxed x)) (S.commit (append_chunks S stream file).1))
          w w' tt e in
      let (ds, whole, appended) = append_chunks-Appended stream file sent in
      record {
        chunks = ds;
        handle = (append_chunks S stream file).1;
        whole = whole;
        appended = appended;
        committed = λ i. (
          map_err-ok (λ x. internal_error (boxed x)) (S.commit (append_chunks S stream file).1 w).0
              tt (ap (λ p. p.0) e') i,
          ap (λ p. p.1) e' i,
        );
      }
