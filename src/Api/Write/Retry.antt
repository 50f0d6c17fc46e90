-- ===== src/Api/Write/Retry.antt =====
-- Requests of `put_write_filename` of server/src/api.rs that follow one another on the same file.
use Prim.Native.String.{String}
use locally_euclidean.Prelude.{
  ◌≤◌, ◌≡◌, ◌≢◌, ◌∙◌, bytes_eq_of_ne, if◌then◌else◌, bytes_eq, true, none, ok, err, List, [], ◌∷◌,
  ◌++◌, map, flatten, Bytes, length,
}
use locally_euclidean.Storage.{Storage}
use locally_euclidean.Storage.Contract.{Contract}
use locally_euclidean.Api.{
  Body, body, internal_error, chunk, broken, file_exists_with_conflicting_content,
}
use locally_euclidean.Api.Upload.Effect.{ChunksFit}
use locally_euclidean.Api.Write.{put_write_filename}
use locally_euclidean.Api.Write.Effect.{put_new, put_existing, put_broken}

module _ (S : Storage) (K : Contract S) (w : S.World) (up : K.Up w) (b n : String) where
  -- After a request that writes a new file, with a body that fits the limits of the backend, a second
  -- request on the file changes nothing: it succeeds if it carries the same bytes, whatever its
  -- chunks, and is a conflict if not.
  pub put_again :
      (first second : List Bytes)
      → K.has_bucket w b ≡ true
      → K.content w (b, n) ≡ none
      → length (flatten first) ≤ K.max_file
      → ChunksFit S K first
      → (w' : S.World) × (put_write_filename S n (record { bucket_name = b }) (map chunk first) w
          ≡ (ok tt, w'))
        × (put_write_filename S n (record { bucket_name = b }) (map chunk second) w' ≡ (
          (if bytes_eq (flatten second) (flatten first)
              then ok tt
              else err file_exists_with_conflicting_content),
          w',
        ))
  put_again first second there absent fits each =
      let (w', e, up', writes) = put_new S K w up b n first there absent fits each in
      (
        w',
        e,
        put_existing S K w' up' b n second (flatten first) (writes.same_buckets b ∙ there)
            writes.written,
      )

  -- After a request on a new file whose body, within the limits of the backend, has broken off, a
  -- further request with a body that is not empty is a conflict, also one that carries the bytes of
  -- the first.
  pub put_after_broken :
      (first second : List Bytes) (rest : Body)
      → K.has_bucket w b ≡ true
      → K.content w (b, n) ≡ none
      → length (flatten first) ≤ K.max_file
      → ChunksFit S K first
      → flatten second ≢ []
      → (w' : S.World) × (put_write_filename S n
            (record { bucket_name = b })
            (map chunk first ++ broken ∷ rest)
            w
          ≡ (err (internal_error body), w'))
        × (put_write_filename S n (record { bucket_name = b }) (map chunk second) w'
            ≡ (err file_exists_with_conflicting_content, w'))
  put_after_broken first second rest there absent fits each ne =
      let (w', e, up', writes) = put_broken S K w up b n first rest there absent fits each in
      (
        w',
        e,
        put_existing S K w' up' b n second [] (writes.same_buckets b ∙ there) writes.written
            ∙ rw (bytes_eq_of_ne (flatten second) [] ne),
      )
