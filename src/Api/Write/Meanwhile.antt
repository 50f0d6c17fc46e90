-- ===== src/Api/Write/Meanwhile.antt =====
-- What becomes of `put_write_filename` of server/src/api.rs while other requests are served.
use Prim.Native.String.{String}
use locally_euclidean.Prelude.{
  ◌≤◌, ◌≡◌, refl, ◌∙◌, ok-injective, sym, subst, ap, true, none, ok, List, [], map, flatten, Bytes,
  length, arith,
}
use locally_euclidean.Storage.{Storage}
use locally_euclidean.Storage.Contract.{Contract, Writes}
use locally_euclidean.Api.{chunk}
use locally_euclidean.Api.Upload.{upload}
use locally_euclidean.Api.Upload.Effect.{ChunksFit, upload_whole}
use locally_euclidean.Api.Write.{write_to, put_write_filename}
use locally_euclidean.Api.Among.{Others, Others_keep}

module _ (S : Storage) (K : Contract S) (w : S.World) (up : K.Up w) (b n : String) where
  -- What `create_file` gives, for a name that is free.
  created_file :
      (bk : S.Bucket) (h : S.FileHandle) (v : S.World)
      → K.has_bucket w b ≡ true
      → K.content w (b, n) ≡ none
      → S.bucket w b ≡ ok bk
      → S.create_file bk n w ≡ (ok h, v)
      → K.Holds h v (b, n) [] 0 × K.Up v × Writes K.content K.has_bucket w v (b, n) []
  created_file bk h v there absent e e' =
      let (bk', found, names) = K.bucket_found w b up there in
      let same_bucket : bk' ≡ bk = ok-injective (sym found ∙ e) in
      let (h', v', made, holds, up', created, _) =
        K.create_fresh w bk b n up (subst (λ x. K.Names w x b) same_bucket names) absent in
      let same_world : v' ≡ v = ap (λ r. r.1) (sym made ∙ e') in
      let same_handle : h' ≡ h = ok-injective (ap (λ r. r.0) (sym made ∙ e')) in
      rw (← same_world, ← same_handle) (holds, up', created)

  -- A request on a new file commits the new file, which leaves the world `v`, and then uploads its
  -- body. Whatever other requests create and commit on other files in between, the upload succeeds,
  -- if the body is whole and within the limits of the backend: the file then holds the body, and every
  -- other file is as those requests have left it.
  pub put_among :
      (ds : List Bytes) (bk : S.Bucket) (h : S.FileHandle) (v now : S.World)
      → K.has_bucket w b ≡ true
      → K.content w (b, n) ≡ none
      → length (flatten ds) ≤ K.max_file
      → ChunksFit S K ds
      → S.bucket w b ≡ ok bk
      → S.create_file bk n w ≡ (ok h, v)
      → Others S K (b, n) v now
      → (put_write_filename S n (record { bucket_name = b }) (map chunk ds) w
          ≡ upload S (map chunk ds) h v)
        × (w' : S.World) × (upload S (map chunk ds) h now ≡ (ok tt, w'))
        × K.Up w'
        × Writes K.content K.has_bucket now w' (b, n) (flatten ds)
  unfolding put_write_filename write_to
  put_among ds bk h v now there absent fits each e e' others =
      let (holds, up', _) = created_file bk h v there absent e e' in
      let (up'', same) = Others_keep S K (b, n) up' others in
      let (w', done, up3, writes, _) =
        upload_whole S K v (b, n) now ds h [] 0 up'' holds same (omega arith) each in
      (rw (e, e') refl, w', done, up3, writes)
