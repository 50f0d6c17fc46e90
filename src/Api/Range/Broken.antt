-- ===== src/Api/Range/Broken.antt =====
-- `check_range_matches` of server/src/api.rs on a body that breaks off, over any storage at all.
use locally_euclidean.Prelude.{
  ℕ, ◌≡◌, ◌≢◌, true, Bool-cases, inl, inr, Outcome, ok, err, panic, Exec, continue-value,
  mapping_err, [], ◌∷◌, Bytes, length, bytes_eq,
}
use locally_euclidean.Storage.{Storage, IoError, unexpected_eof, write_zero, other, start}
use locally_euclidean.Api.{Cause, io, Body, chunk, broken}
use locally_euclidean.Api.Upload.Broken.{breaks}
use locally_euclidean.Api.Range.{
  RangeMatch, matches, compare_chunk, compare_chunks, check_range_matches,
}

module _ (S : Storage) where
  compare_chunk_unmatched :
      (d : Bytes) (rest : Exec S.FileHandle (Cause S.Fault) RangeMatch)
      (r : Outcome (IoError S.Fault) Bytes) (h : S.FileHandle)
      → (rest h).0 ≢ ok matches
      → (compare_chunk S d rest r h).0 ≢ ok matches
  unfolding compare_chunk
  compare_chunk_unmatched d rest (ok buf) h never e = elim (Bool-cases (bytes_eq buf d)) [
    | inl same ↦ never (rw same at e)
    | inr differ ↦ cc (rw differ at e)
  ]
  compare_chunk_unmatched d rest (err unexpected_eof) h never e = cc
  compare_chunk_unmatched d rest (err write_zero) h never e = cc
  compare_chunk_unmatched d rest (err (other x)) h never e = cc
  compare_chunk_unmatched d rest panic h never e = cc

  compare_chunks_unmatched :
      (stream : Body) (h : S.FileHandle)
      → breaks stream ≡ true
      → (compare_chunks S stream h).0 ≢ ok matches
  unfolding compare_chunks
  compare_chunks_unmatched [] h off e = cc
  compare_chunks_unmatched (broken ∷ stream) h off e = cc
  compare_chunks_unmatched (chunk d ∷ stream) h off e =
      compare_chunk_unmatched d (compare_chunks S stream) (S.read_exact (length d) h).0
        (S.read_exact (length d) h).1
        (compare_chunks_unmatched stream (S.read_exact (length d) h).1 off) e

  -- A body that breaks off is never found to match.
  pub check_range_matches_unmatched :
      (stream : Body) (p : ℕ) (h : S.FileHandle)
      → breaks stream ≡ true
      → (check_range_matches S stream p h).0 ≢ ok matches
  unfolding check_range_matches
  check_range_matches_unmatched stream p h off e =
      let (_, _, e') =
        continue-value (mapping_err io (S.seek (start p)) h).0 (λ _. compare_chunks S stream) _ _
          e in
      compare_chunks_unmatched stream _ off e'
