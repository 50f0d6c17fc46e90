-- ===== src/Api/Append/Acknowledged.antt =====
-- What the success of `post_append_filename` of server/src/api.rs tells, over any storage at all.
use Prim.Native.String.{String}
use locally_euclidean.Prelude.{
  ℕ, ◌≡◌, true, false, sym, ap, ◌∙◌, leb, Bool-cases, inl, inr, ok, map_err, map_err-ok,
  and_then-ok, continue, continue-both, pos,
}
use locally_euclidean.Storage.{Storage, end}
use locally_euclidean.Api.{
  io, internal_error, from_bucket_open_error, from_bucket_file_open_error, AppendFilenameArgs, Body,
}
use locally_euclidean.Api.Range.{matches, check_range_matches}
use locally_euclidean.Api.Upload.Acknowledged.{Stored, upload-Stored}
use locally_euclidean.Api.Append.{append_answer, append_at, append_to, post_append_filename}
use locally_euclidean.Api.Append.Broken.{append_answer-ok}

module _ (S : Storage) where
  -- What followed once the end of the file was found to be at `size`.
  pub data Accepted (o : ℕ) (stream : Body) (file : S.FileHandle) (size : ℕ) (w w' : S.World)
      : Type 0 where
    matched :
        leb o size ≡ true
        → w' ≡ w
        → (check_range_matches S stream o file).0 ≡ ok matches
        → Accepted o stream file size w w'
    stored : leb o size ≡ false → Stored S stream file w w' → Accepted o stream file size w w'

  append_at-Accepted :
      (o size : ℕ) (stream : Body) (file : S.FileHandle) (w w' : S.World)
      → append_at S o stream file size w ≡ (ok tt, w')
      → Accepted o stream file size w w'
  unfolding append_at
  append_at-Accepted o size stream file w w' e = elim (Bool-cases (leb o size)) [
    | inl within ↦
        let compared = rw within at e in
        let (r, verdict, answer) =
          and_then-ok (map_err internal_error (check_range_matches S stream o file).0) append_answer
            tt (ap (λ p. p.0) compared) in
        matched within (sym (ap (λ p. p.1) compared))
          (map_err-ok internal_error _ r verdict ∙ ap (λ m. ok m) (append_answer-ok r answer))
    | inr beyond ↦ stored beyond (upload-Stored S stream file w w' (rw beyond at e))
  ]

  -- Over any storage, however it behaves: an append that succeeds found its bucket and its file and the
  -- file's end, and then either its offset was up to that end, the comparison of the whole body with the
  -- file from the offset on came out as a match, and nothing was changed; or its offset was past the
  -- end, the body arrived whole, every chunk was appended with success and after the last one the
  -- commit succeeded.
  pub post_append_filename-Accepted :
      (n : String) (query : AppendFilenameArgs) (stream : Body) (w w' : S.World)
      → post_append_filename S n query stream w ≡ (ok tt, w')
      → (bucket : S.Bucket) × (file : S.FileHandle) × (size : ℕ) × (S.bucket w query.bucket_name
          ≡ ok bucket)
        × (S.file w bucket n ≡ ok file)
        × ((S.seek (end (pos 0)) file).0 ≡ ok size)
        × Accepted query.write_offset stream (S.seek (end (pos 0)) file).1 size w w'
  unfolding post_append_filename append_to
  post_append_filename-Accepted n query stream w w' e =
      let (bucket, found, e1) =
        continue-both
          (map_err (from_bucket_open_error query.bucket_name) (S.bucket w query.bucket_name))
          (λ bucket v.
            continue (map_err (from_bucket_file_open_error n) (S.file v bucket n))
              (append_to S query stream) v)
          w w' tt e in
      let (file, opened, e2) =
        continue-both (map_err (from_bucket_file_open_error n) (S.file w bucket n))
          (append_to S query stream) w w' tt e1 in
      let (size, sought, e3) =
        continue-both (map_err (λ x. internal_error (io x)) (S.seek (end (pos 0)) file).0)
          (append_at S query.write_offset stream (S.seek (end (pos 0)) file).1) w w' tt e2 in
      (
        bucket,
        file,
        size,
        map_err-ok (from_bucket_open_error query.bucket_name) _ bucket found,
        map_err-ok (from_bucket_file_open_error n) _ file opened,
        map_err-ok (λ x. internal_error (io x)) _ size sought,
        append_at-Accepted query.write_offset size stream (S.seek (end (pos 0)) file).1 w w' e3,
      )
