-- ===== src/Api/Append/Effect.antt =====
-- What `post_append_filename` of server/src/api.rs does on each of its branches, over a storage
-- backend that meets the contract.
use Prim.Native.String.{String}
use locally_euclidean.Prelude.{
  ℕ, ◌+◌, ◌≤◌, ◌<◌, ◌≡◌, ◌↔◌, refl, if◌then◌else◌, bytes_eq, bytes_eq_of_eq, bytes_eq_of_ne, le→leb,
  lt→leb_false, true, false, some, none, ok, err, List, ◌∷◌, ◌++◌, map, flatten, Bytes, length,
  drop,
}
use locally_euclidean.Storage.{Storage}
use locally_euclidean.Storage.Contract.{Contract, Writes, Apart}
use locally_euclidean.Api.{
  Body, body, internal_error, chunk, broken, bucket_does_not_exist, file_does_not_exist,
  file_exists_with_conflicting_content, from_bucket_open_error, from_bucket_file_open_error,
}
use locally_euclidean.Api.Range.{RangeMatch, matches, length_mismatch, data_mismatch}
use locally_euclidean.Api.Range.Verdict.{check_range_matches-decides}
use locally_euclidean.Api.Upload.Effect.{ChunksFit, upload_whole, upload_broken}
use locally_euclidean.Api.Append.{append_answer, append_at, append_to, post_append_filename}

append_answer-lem :
    {F : Type 0} (r : RangeMatch) (ds : List Bytes) (c : Bytes)
    → ((r ≡ matches) ↔ (flatten ds ≡ c))
    → append_answer {F = F} r
      ≡ (if bytes_eq (flatten ds) c then ok tt else err file_exists_with_conflicting_content)
unfolding append_answer
append_answer-lem matches ds c decided = rw (bytes_eq_of_eq (decided.0 refl))
append_answer-lem length_mismatch ds c decided =
    rw (bytes_eq_of_ne (flatten ds) c (λ e. cc (decided.1 e)))
append_answer-lem data_mismatch ds c decided =
    rw (bytes_eq_of_ne (flatten ds) c (λ e. cc (decided.1 e)))

module _ (S : Storage) (K : Contract S) (w : S.World) (up : K.Up w) (b n : String) where
  -- Without the bucket the request names the bucket as missing, and changes nothing.
  pub append_without_bucket :
      (stream : Body) (o : ℕ)
      → K.has_bucket w b ≡ false
      → post_append_filename S n (record { bucket_name = b; write_offset = o }) stream w
        ≡ (err (bucket_does_not_exist b), w)
  unfolding post_append_filename from_bucket_open_error
  append_without_bucket stream o missing = rw (K.bucket_missing w b up missing)

  -- In a bucket that is there, a request on a file that is not fails with an error that names the
  -- file, and nothing changes.
  pub append_without_file :
      (stream : Body) (o : ℕ)
      → K.has_bucket w b ≡ true
      → K.content w (b, n) ≡ none
      → post_append_filename S n (record { bucket_name = b; write_offset = o }) stream w
        ≡ (err (file_does_not_exist n), w)
  unfolding post_append_filename from_bucket_file_open_error
  append_without_file stream o there absent =
      let (bk, e, names) = K.bucket_found w b up there in
      rw (e, K.file_missing w bk b n up names absent)

  -- At an offset up to the end of the file, the end included, a request with a body that arrives
  -- whole writes nothing: it succeeds exactly when the body is the rest of the file from that offset,
  -- and is a conflict otherwise.
  pub append_within :
      (ds : List Bytes) (o : ℕ) (c : Bytes)
      → K.has_bucket w b ≡ true
      → K.content w (b, n) ≡ some c
      → o ≤ length c
      → post_append_filename S n (record { bucket_name = b; write_offset = o }) (map chunk ds) w ≡ (
        (if bytes_eq (flatten ds) (drop o c)
            then ok tt
            else err file_exists_with_conflicting_content),
        w,
      )
  unfolding post_append_filename append_to append_at
  append_within ds o c there content le =
      let (bk, e, names) = K.bucket_found w b up there in
      let (h, e', holds) = K.file_found w bk b n c up names content in
      let (h', e'', holds') = K.seek_end h w (b, n) c 0 holds in
      let (r, er, decided) =
        check_range_matches-decides S K w (b, n) c ds (length c) o h' holds' le in
      rw (e, e', e'', le→leb o (length c) le, er, append_answer-lem r ds (drop o c) decided)

  -- At such an offset a request changes nothing, whatever its body is, broken off or whole.
  pub append_within_keeps :
      (stream : Body) (o : ℕ) (c : Bytes)
      → K.has_bucket w b ≡ true
      → K.content w (b, n) ≡ some c
      → o ≤ length c
      → (post_append_filename S n (record { bucket_name = b; write_offset = o }) stream w).1 ≡ w
  unfolding post_append_filename append_to append_at
  append_within_keeps stream o c there content le =
      let (bk, e, names) = K.bucket_found w b up there in
      let (h, e', holds) = K.file_found w bk b n c up names content in
      let (h', e'', _) = K.seek_end h w (b, n) c 0 holds in rw (e, e', e'', le→leb o (length c) le)

  -- What a request past the end of the file does, with what it means for the handles that are open on
  -- other files.
  pub append_beyond_step :
      (ds : List Bytes) (o : ℕ) (c : Bytes)
      → K.has_bucket w b ≡ true
      → K.content w (b, n) ≡ some c
      → length c < o
      → length c + length (flatten ds) ≤ K.max_file
      → ChunksFit S K ds
      → (w' : S.World) × (post_append_filename S n
            (record { bucket_name = b; write_offset = o })
            (map chunk ds)
            w
          ≡ (ok tt, w'))
        × K.Up w'
        × Writes K.content K.has_bucket w w' (b, n) (c ++ flatten ds)
        × Apart S K w w' (b, n)
  unfolding post_append_filename append_to append_at
  append_beyond_step ds o c there content lt fits each =
      let (bk, e, names) = K.bucket_found w b up there in
      let (h, e', holds) = K.file_found w bk b n c up names content in
      let (h', e'', holds') = K.seek_end h w (b, n) c 0 holds in
      let (w', eu, up', writes, apart) =
        upload_whole S K w (b, n) w ds h' c (length c) up holds' (K.same_refl w (b, n) up) fits
          each in
      (w', rw (e, e', e'', lt→leb_false o (length c) lt, eu), up', writes, apart)

  -- At any offset past the end of the file, a request with a body that arrives whole and fits the
  -- limits of the backend succeeds: the body goes to the end of the file, with no gap, and nothing
  -- else changes.
  pub append_beyond :
      (ds : List Bytes) (o : ℕ) (c : Bytes)
      → K.has_bucket w b ≡ true
      → K.content w (b, n) ≡ some c
      → length c < o
      → length c + length (flatten ds) ≤ K.max_file
      → ChunksFit S K ds
      → (w' : S.World) × (post_append_filename S n
            (record { bucket_name = b; write_offset = o })
            (map chunk ds)
            w
          ≡ (ok tt, w'))
        × K.Up w'
        × Writes K.content K.has_bucket w w' (b, n) (c ++ flatten ds)
  append_beyond ds o c there content lt fits each =
      let (w', e, up', writes, _) = append_beyond_step ds o c there content lt fits each in
      (w', e, up', writes)

  -- At an offset past the end of the file, a request whose body breaks off, within the limits of the
  -- backend, fails and leaves everything as it was.
  pub append_broken :
      (ds : List Bytes) (rest : Body) (o : ℕ) (c : Bytes)
      → K.has_bucket w b ≡ true
      → K.content w (b, n) ≡ some c
      → length c < o
      → length c + length (flatten ds) ≤ K.max_file
      → ChunksFit S K ds
      → post_append_filename S n
          (record { bucket_name = b; write_offset = o })
          (map chunk ds ++ broken ∷ rest)
          w
        ≡ (err (internal_error body), w)
  unfolding post_append_filename append_to append_at
  append_broken ds rest o c there content lt fits each =
      let (bk, e, names) = K.bucket_found w b up there in
      let (h, e', holds) = K.file_found w bk b n c up names content in
      let (h', e'', holds') = K.seek_end h w (b, n) c 0 holds in
      rw (
        e,
        e',
        e'',
        lt→leb_false o (length c) lt,
        upload_broken S K w (b, n) ds rest h' c (length c) holds' fits each,
      )
