-- ===== src/Api/Write/Broken.antt =====
-- `put_write_filename` of server/src/api.rs on a body that breaks off, over any storage at all.
use Prim.Native.String.{String}
use locally_euclidean.Prelude.{
  ◌≡◌, ◌≢◌, refl, true, Outcome, ok, err, panic, map_err, map_err-ok, and_then, and_then-ok,
  continue-value, ap, ◌∙◌,
}
use locally_euclidean.Storage.{Storage, FileCreateError, file_exists}
use locally_euclidean.Api.{
  open_error, internal_error, from_bucket_open_error, WriteFilenameArgs, Body,
}
use locally_euclidean.Api.Range.{
  RangeMatch, matches, length_mismatch, data_mismatch, check_range_matches,
}
use locally_euclidean.Api.Range.Broken.{check_range_matches_unmatched}
use locally_euclidean.Api.Upload.Broken.{breaks, upload_unfinished}
use locally_euclidean.Api.Write.{put_answer, compare_existing, write_to, put_write_filename}

pub put_answer-ok : {F : Type 0} (r : RangeMatch) → put_answer {F = F} r ≡ ok tt → r ≡ matches
unfolding put_answer
put_answer-ok matches e = refl
put_answer-ok length_mismatch e = cc
put_answer-ok data_mismatch e = cc

module _ (S : Storage) where
  compare_existing_unfinished :
      (w : S.World) (bucket : S.Bucket) (n : String) (stream : Body)
      → breaks stream ≡ true
      → compare_existing S w bucket n stream ≢ ok tt
  unfolding compare_existing
  compare_existing_unfinished w bucket n stream off e =
      let (file, _, e1) =
        and_then-ok (map_err (λ x. internal_error (open_error x)) (S.file w bucket n))
          (λ file.
            and_then (map_err internal_error (check_range_matches S stream 0 file).0) put_answer)
          tt e in
      let (r, verdict, e2) =
        and_then-ok (map_err internal_error (check_range_matches S stream 0 file).0) put_answer tt
          e1 in
      check_range_matches_unmatched S stream 0 file off
        (map_err-ok internal_error _ r verdict ∙ ap (λ m. ok m) (put_answer-ok r e2))

  write_to_unfinished :
      (bucket : S.Bucket) (n : String) (stream : Body)
      (made : Outcome (FileCreateError S.Fault) S.FileHandle) (w : S.World)
      → breaks stream ≡ true
      → (write_to S bucket n stream made w).0 ≢ ok tt
  unfolding write_to
  write_to_unfinished bucket n stream (ok file) w off e = upload_unfinished S stream file w off e
  write_to_unfinished bucket n stream (err file_exists) w off e =
      compare_existing_unfinished w bucket n stream off e
  write_to_unfinished bucket n stream (err FileCreateError.invalid_name) w off e = cc
  write_to_unfinished bucket n stream (err (FileCreateError.other_error x)) w off e = cc
  write_to_unfinished bucket n stream panic w off e = cc

  -- A request whose body breaks off never succeeds.
  pub put_unfinished :
      (n : String) (query : WriteFilenameArgs) (stream : Body) (w : S.World)
      → breaks stream ≡ true
      → (put_write_filename S n query stream w).0 ≢ ok tt
  unfolding put_write_filename
  put_unfinished n query stream w off e =
      let (bucket, _, e') =
        continue-value
          (map_err (from_bucket_open_error query.bucket_name) (S.bucket w query.bucket_name))
          (λ bucket v.
            write_to S bucket n stream (S.create_file bucket n v).0 (S.create_file bucket n v).1)
          w tt e in
      write_to_unfinished bucket n stream (S.create_file bucket n w).0 (S.create_file bucket n w).1
        off e'
