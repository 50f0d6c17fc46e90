-- ===== src/Api/Write/Refusal.antt =====
-- What a refusal that `put_write_filename` of server/src/api.rs answers tells the client.
use Prim.Native.String.{String}
use locally_euclidean.Prelude.{◌≡◌, ◌≢◌, sym, ap, Bool-cases, Option-cases, inl, inr, err}
use locally_euclidean.Storage.{Storage}
use locally_euclidean.Storage.Contract.{Contract}
use locally_euclidean.Api.{ApiError, status_code, internal_server_error, Body}
use locally_euclidean.Api.Upload.Errors.{upload-IsInternal}
use locally_euclidean.Api.Write.{write_to, put_write_filename}

module _ (S : Storage) (K : Contract S) (w w' : S.World) (up : K.Up w) (e : ApiError S.Fault)
    (refused : status_code e ≢ internal_server_error) where
  -- Any error but an internal one leaves everything as it was.
  pub put_refused :
      (b n : String) (stream : Body)
      → put_write_filename S n (record { bucket_name = b }) stream w ≡ (err e, w')
      → w' ≡ w
  unfolding put_write_filename write_to
  put_refused b n stream h = elim (Bool-cases (K.has_bucket w b)) [
    | inr missing ↦ sym (ap (λ p. p.1) (rw (K.bucket_missing w b up missing) at h))
    | inl there ↦
        let (bk, found, names) = K.bucket_found w b up there in
        elim (Option-cases (K.content w (b, n))) [
          | inr (c, content) ↦
              sym (ap (λ p. p.1) (rw (found, K.create_exists w bk b n c up names content) at h))
          | inl absent ↦
              let (file, v, created, _, _, _, _) = K.create_fresh w bk b n up names absent in
              absurd (
                refused
                  (upload-IsInternal S stream file v e (ap (λ p. p.0) (rw (found, created) at h))))
        ]
  ]
