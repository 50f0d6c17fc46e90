-- ===== src/Api/Write/Effect.antt =====
-- What `put_write_filename` of server/src/api.rs does on each of its branches, over a storage
-- backend that meets the contract.
use Prim.Native.String.{String}
use locally_euclidean.Prelude.{
  ◌≤◌, ◌≡◌, ◌↔◌, if◌then◌else◌, bytes_eq, bytes_eq_of_eq, bytes_eq_of_ne, refl, true, false, some,
  none, ok, err, List, [], ◌∷◌, ◌++◌, map, flatten, Bytes, length, arith,
}
use locally_euclidean.Storage.{Storage}
use locally_euclidean.Storage.Contract.{Contract, Writes, Writes-trans, Apart}
use locally_euclidean.Api.{
  Body, body, internal_error, chunk, broken, bucket_does_not_exist,
  file_exists_with_conflicting_content, from_bucket_open_error,
}
use locally_euclidean.Api.Range.{RangeMatch, matches, length_mismatch, data_mismatch}
use locally_euclidean.Api.Range.Verdict.{check_range_matches-decides}
use locally_euclidean.Api.Upload.Effect.{ChunksFit, upload_whole, upload_broken}
use locally_euclidean.Api.Upload.{upload}
use locally_euclidean.Api.Write.{put_answer, compare_existing, write_to, put_write_filename}

-- Once the file is created, what is left is the upload.
pub put_created :
    (S : Storage) (w v : S.World) (b n : String) (bk : S.Bucket) (h : S.FileHandle) (stream : Body)
    → S.bucket w b ≡ ok bk
    → S.create_file bk n w ≡ (ok h, v)
    → put_write_filename S n (record { bucket_name = b }) stream w ≡ upload S stream h v
unfolding put_write_filename write_to
put_created S w v b n bk h stream e e' = rw (e, e')

module _ (S : Storage) (K : Contract S) (w : S.World) (up : K.Up w) (b n : String) where
  -- A request on a bucket that is not there fails with an error that names the bucket, and nothing
  -- changes.
  pub put_without_bucket :
      (stream : Body)
      → K.has_bucket w b ≡ false
      → put_write_filename S n (record { bucket_name = b }) stream w
        ≡ (err (bucket_does_not_exist b), w)
  unfolding put_write_filename from_bucket_open_error
  put_without_bucket stream missing = rw (K.bucket_missing w b up missing)

  -- What a request on a new file does, with what it means for the handles that are open on others.
  pub put_new_step :
      (ds : List Bytes)
      → K.has_bucket w b ≡ true
      → K.content w (b, n) ≡ none
      → length (flatten ds) ≤ K.max_file
      → ChunksFit S K ds
      → (w' : S.World) × (put_write_filename S n (record { bucket_name = b }) (map chunk ds) w
          ≡ (ok tt, w'))
        × K.Up w'
        × Writes K.content K.has_bucket w w' (b, n) (flatten ds)
        × Apart S K w w' (b, n)
  unfolding put_write_filename write_to
  put_new_step ds there absent fits each =
      let (bk, e, names) = K.bucket_found w b up there in
      let (h, v, e', holds, up', created, apart) = K.create_fresh w bk b n up names absent in
      let (w', e'', up'', writes, apart') =
        upload_whole S K v (b, n) v ds h [] 0 up' holds (K.same_refl v (b, n) up') (omega arith)
          each in
      (
        w',
        rw (e, e', e''),
        up'',
        Writes-trans K.content K.has_bucket created writes,
        λ u j ne same. apart' u j ne (apart u j ne same),
      )

  -- In a bucket that is there, a request on a new file, with a body that arrives whole and fits the
  -- limits of the backend, succeeds: the file then holds the whole body, and every other file and the
  -- set of buckets stay as they are.
  pub put_new :
      (ds : List Bytes)
      → K.has_bucket w b ≡ true
      → K.content w (b, n) ≡ none
      → length (flatten ds) ≤ K.max_file
      → ChunksFit S K ds
      → (w' : S.World) × (put_write_filename S n (record { bucket_name = b }) (map chunk ds) w
          ≡ (ok tt, w'))
        × K.Up w'
        × Writes K.content K.has_bucket w w' (b, n) (flatten ds)
  put_new ds there absent fits each =
      let (w', e, up', writes, _) = put_new_step ds there absent fits each in (w', e, up', writes)

  -- A body that breaks off leaves the new file behind, empty.
  pub put_broken :
      (ds : List Bytes) (rest : Body)
      → K.has_bucket w b ≡ true
      → K.content w (b, n) ≡ none
      → length (flatten ds) ≤ K.max_file
      → ChunksFit S K ds
      → (w' : S.World) × (put_write_filename S n
            (record { bucket_name = b })
            (map chunk ds ++ broken ∷ rest)
            w
          ≡ (err (internal_error body), w'))
        × K.Up w'
        × Writes K.content K.has_bucket w w' (b, n) []
  unfolding put_write_filename write_to
  put_broken ds rest there absent fits each =
      let (bk, e, names) = K.bucket_found w b up there in
      let (h, v, e', holds, up', created, _) = K.create_fresh w bk b n up names absent in
      (
        v,
        rw (e, e', upload_broken S K v (b, n) ds rest h [] 0 holds (omega arith) each),
        up',
        created,
      )

  put_answer-lem :
      (r : RangeMatch) (ds : List Bytes) (c : Bytes)
      → ((r ≡ matches) ↔ (flatten ds ≡ c))
      → put_answer {F = S.Fault} r
        ≡ (if bytes_eq (flatten ds) c then ok tt else err file_exists_with_conflicting_content)
  unfolding put_answer
  put_answer-lem matches ds c decided = rw (bytes_eq_of_eq (decided.0 refl))
  put_answer-lem length_mismatch ds c decided =
      rw (bytes_eq_of_ne (flatten ds) c (λ e. cc (decided.1 e)))
  put_answer-lem data_mismatch ds c decided =
      rw (bytes_eq_of_ne (flatten ds) c (λ e. cc (decided.1 e)))

  -- A request on an existing file with a body that arrives whole changes nothing: it succeeds exactly
  -- when the body is the file's content, in whatever chunks it arrives, and is a conflict otherwise.
  pub put_existing :
      (ds : List Bytes) (c : Bytes)
      → K.has_bucket w b ≡ true
      → K.content w (b, n) ≡ some c
      → put_write_filename S n (record { bucket_name = b }) (map chunk ds) w
        ≡ ((if bytes_eq (flatten ds) c then ok tt else err file_exists_with_conflicting_content), w)
  unfolding put_write_filename write_to compare_existing
  put_existing ds c there content =
      let (bk, e, names) = K.bucket_found w b up there in
      let e' = K.create_exists w bk b n c up names content in
      let (h, e'', holds) = K.file_found w bk b n c up names content in
      let (r, er, decided) =
        check_range_matches-decides S K w (b, n) c ds 0 0 h holds (omega arith) in
      rw (e, e', e'', er, put_answer-lem r ds c decided)

  -- A request on an existing file changes nothing, whatever its body is, broken off or whole.
  pub put_keeps_existing :
      (stream : Body) (c : Bytes)
      → K.has_bucket w b ≡ true
      → K.content w (b, n) ≡ some c
      → (put_write_filename S n (record { bucket_name = b }) stream w).1 ≡ w
  unfolding put_write_filename write_to
  put_keeps_existing stream c there content =
      let (bk, e, names) = K.bucket_found w b up there in
      rw (e, K.create_exists w bk b n c up names content)
