-- ===== src/Api/Spec/Refinement.antt =====
-- The handlers of server/src/api.rs against the specification of Api/Spec.
use Prim.Native.String.{String}
use locally_euclidean.Prelude.{
  ℕ, ◌≤◌, refl, Option, none, some, List, Bytes, map, flatten, length, bytes_eq, Bool-cases,
  Option-cases, inl, inr,
}
use locally_euclidean.Storage.{Storage}
use locally_euclidean.Storage.Contract.{Contract}
use locally_euclidean.Api.{chunk}
use locally_euclidean.Api.Upload.Effect.{ChunksFit}
use locally_euclidean.Api.Write.{put_write_filename}
use locally_euclidean.Api.Write.Effect.{put_without_bucket, put_new, put_existing}
use locally_euclidean.Api.Spec.{spec_write, Implements}

abbrev pub held : Option Bytes → ℕ
held none = 0
held (some c) = length c

module _ (S : Storage) (K : Contract S) (w : S.World) (up : K.Up w) (b n : String)
    (ds : List Bytes) where
  -- Over a backend that meets the contract, in a well-formed state: a PUT with a whole body that fits
  -- the backend's limits is answered as the specification says, the state stays well formed, and the
  -- file is written to, or nothing changes, as the specification says.
  pub put_write_filename-Implements :
      length (flatten ds) ≤ K.max_file
      → ChunksFit S K ds
      → Implements S K
          (b, n)
          (spec_write (flatten ds) (K.has_bucket w b) (K.content w (b, n)))
          w
          (put_write_filename S n (record { bucket_name = b }) (map chunk ds) w)
  put_write_filename-Implements fits each = elim (Bool-cases (K.has_bucket w b)) [
    | inr missing ↦
        rw (missing, put_without_bucket S K w up b n (map chunk ds) missing) (refl, up, refl)
    | inl there ↦ elim (Option-cases (K.content w (b, n))) [
      | inl absent ↦
          let (w', e, up', writes) = put_new S K w up b n ds there absent fits each in
          rw (there, absent, e) (refl, up', writes)
      | inr (c, content) ↦ elim (Bool-cases (bytes_eq (flatten ds) c)) [
        | inl same ↦
            rw (there, content, put_existing S K w up b n ds c there content, same) (refl, up, refl)
        | inr differ ↦
            rw (there, content, put_existing S K w up b n ds c there content, differ)
              (refl, up, refl)
      ]
    ]
  ]
