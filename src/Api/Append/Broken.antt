-- ===== src/Api/Append/Broken.antt =====
-- `post_append_filename` of server/src/api.rs on a body that breaks off, over any storage at all.
use Prim.Native.String.{String}
use locally_euclidean.Prelude.{
  ℕ, ◌≡◌, ◌≢◌, true, refl, Bool-cases, inl, inr, leb, ok, map_err, map_err-ok, and_then-ok,
  continue, continue-value, ap, ◌∙◌, pos,
}
use locally_euclidean.Storage.{Storage, end}
use locally_euclidean.Api.{
  io, internal_error, from_bucket_open_error, from_bucket_file_open_error, AppendFilenameArgs, Body,
}
use locally_euclidean.Api.Range.{
  RangeMatch, matches, length_mismatch, data_mismatch, check_range_matches,
}
use locally_euclidean.Api.Range.Broken.{check_range_matches_unmatched}
use locally_euclidean.Api.Upload.Broken.{breaks, upload_unfinished}
use locally_euclidean.Api.Append.{append_answer, append_at, append_to, post_append_filename}

pub append_answer-ok : {F : Type 0} (r : RangeMatch) → append_answer {F = F} r ≡ ok tt → r ≡ matches
unfolding append_answer
append_answer-ok matches e = refl
append_answer-ok length_mismatch e = cc
append_answer-ok data_mismatch e = cc

module _ (S : Storage) (w : S.World) (stream : Body) (off : breaks stream ≡ true) where
  append_at_unfinished :
      (o size : ℕ) (file : S.FileHandle) → (append_at S o stream file size w).0 ≢ ok tt
  unfolding append_at
  append_at_unfinished o size file e = elim (Bool-cases (leb o size)) [
    | inl within ↦
        let (r, verdict, answer) =
          and_then-ok (map_err internal_error (check_range_matches S stream o file).0) append_answer
            tt (rw within at e) in
        check_range_matches_unmatched S stream o file off
          (map_err-ok internal_error _ r verdict ∙ ap (λ m. ok m) (append_answer-ok r answer))
    | inr beyond ↦ upload_unfinished S stream file w off (rw beyond at e)
  ]

  append_to_unfinished :
      (query : AppendFilenameArgs) (file : S.FileHandle)
      → (append_to S query stream file w).0 ≢ ok tt
  unfolding append_to
  append_to_unfinished query file e =
      let (size, _, e') =
        continue-value (map_err (λ x. internal_error (io x)) (S.seek (end (pos 0)) file).0)
          (append_at S query.write_offset stream (S.seek (end (pos 0)) file).1) w tt e in
      append_at_unfinished query.write_offset size (S.seek (end (pos 0)) file).1 e'

  -- A request whose body breaks off never succeeds.
  pub append_unfinished :
      (n : String) (query : AppendFilenameArgs)
      → (post_append_filename S n query stream w).0 ≢ ok tt
  unfolding post_append_filename
  append_unfinished n query e =
      let (bucket, _, e1) =
        continue-value
          (map_err (from_bucket_open_error query.bucket_name) (S.bucket w query.bucket_name))
          (λ bucket v.
            continue (map_err (from_bucket_file_open_error n) (S.file v bucket n))
              (append_to S query stream) v)
          w tt e in
      let (file, _, e2) =
        continue-value (map_err (from_bucket_file_open_error n) (S.file w bucket n))
          (append_to S query stream) w tt e1 in
      append_to_unfinished query file e2
