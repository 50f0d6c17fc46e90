-- ===== src/Api/Write/Acknowledged.antt =====
-- What the success of `put_write_filename` of server/src/api.rs tells, over any storage at all.
use Prim.Native.String.{String}
use locally_euclidean.Prelude.{
  ◌≡◌, sym, ap, ◌∙◌, Outcome, ok, err, panic, map_err, map_err-ok, and_then, and_then-ok,
  continue-both,
}
use locally_euclidean.Storage.{Storage, FileCreateError, file_exists}
use locally_euclidean.Api.{
  open_error, internal_error, from_bucket_open_error, WriteFilenameArgs, Body,
}
use locally_euclidean.Api.Range.{matches, check_range_matches}
use locally_euclidean.Api.Upload.Acknowledged.{Stored, upload-Stored}
use locally_euclidean.Api.Write.{put_answer, compare_existing, write_to, put_write_filename}
use locally_euclidean.Api.Write.Broken.{put_answer-ok}

module _ (S : Storage) where
  -- The file was there, and the body was found to match it from its start to its end.
  pub record Matched (bucket : S.Bucket) (n : String) (stream : Body) (w : S.World) : Type 0 where
    pub file : S.FileHandle
    pub opened : S.file w bucket n ≡ ok file
    pub verdict : (check_range_matches S stream 0 file).0 ≡ ok matches

  compare_existing-Matched :
      (w : S.World) (bucket : S.Bucket) (n : String) (stream : Body)
      → compare_existing S w bucket n stream ≡ ok tt
      → Matched bucket n stream w
  unfolding compare_existing
  compare_existing-Matched w bucket n stream e =
      let (file, opened, e1) =
        and_then-ok (map_err (λ x. internal_error (open_error x)) (S.file w bucket n))
          (λ file.
            and_then (map_err internal_error (check_range_matches S stream 0 file).0) put_answer)
          tt e in
      let (r, verdict, e2) =
        and_then-ok (map_err internal_error (check_range_matches S stream 0 file).0) put_answer tt
          e1 in
      record {
        file = file;
        opened = map_err-ok (λ x. internal_error (open_error x)) _ file opened;
        verdict = map_err-ok internal_error _ r verdict ∙ ap (λ m. ok m) (put_answer-ok r e2);
      }

  -- What the creation of the file came to, and what then happened.
  pub data Acknowledged (bucket : S.Bucket) (n : String) (stream : Body) (w' : S.World)
      : Outcome (FileCreateError S.Fault) S.FileHandle → S.World → Type 0 where
    stored :
        (file : S.FileHandle) (v : S.World)
        → Stored S stream file v w'
        → Acknowledged bucket n stream w' (ok file) v
    matched :
        (v : S.World)
        → w' ≡ v
        → Matched bucket n stream v
        → Acknowledged bucket n stream w' (err file_exists) v

  write_to-Acknowledged :
      (bucket : S.Bucket) (n : String) (stream : Body)
      (made : Outcome (FileCreateError S.Fault) S.FileHandle) (v w' : S.World)
      → write_to S bucket n stream made v ≡ (ok tt, w')
      → Acknowledged bucket n stream w' made v
  unfolding write_to
  write_to-Acknowledged bucket n stream (ok file) v w' e =
      stored file v (upload-Stored S stream file v w' e)
  write_to-Acknowledged bucket n stream (err file_exists) v w' e =
      matched v (sym (ap (λ p. p.1) e))
        (compare_existing-Matched v bucket n stream (ap (λ p. p.0) e))
  write_to-Acknowledged bucket n stream (err FileCreateError.invalid_name) v w' e = cc
  write_to-Acknowledged bucket n stream (err (FileCreateError.other_error x)) v w' e = cc
  write_to-Acknowledged bucket n stream panic v w' e = cc

  -- Over any storage, however it behaves: a PUT that succeeds found its bucket, and then either
  -- created the file, and the body arrived whole, every chunk was appended with success and after the
  -- last one the commit succeeded; or it found the file there, and the comparison of the whole body
  -- with it came out as a match, and nothing was changed by it.
  pub put_write_filename-Acknowledged :
      (n : String) (query : WriteFilenameArgs) (stream : Body) (w w' : S.World)
      → put_write_filename S n query stream w ≡ (ok tt, w')
      → (bucket : S.Bucket) × (S.bucket w query.bucket_name ≡ ok bucket)
        × Acknowledged bucket n stream w' (S.create_file bucket n w).0 (S.create_file bucket n w).1
  unfolding put_write_filename
  put_write_filename-Acknowledged n query stream w w' e =
      let (bucket, found, e') =
        continue-both
          (map_err (from_bucket_open_error query.bucket_name) (S.bucket w query.bucket_name))
          (λ bucket v.
            write_to S bucket n stream (S.create_file bucket n v).0 (S.create_file bucket n v).1)
          w w' tt e in
      (
        bucket,
        map_err-ok (from_bucket_open_error query.bucket_name) _ bucket found,
        write_to-Acknowledged bucket n stream (S.create_file bucket n w).0
            (S.create_file bucket n w).1 w' e',
      )
