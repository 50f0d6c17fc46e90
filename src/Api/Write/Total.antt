-- ===== src/Api/Write/Total.antt =====
-- Whether `put_write_filename` of server/src/api.rs panics, on any body and any branch.
use Prim.Native.String.{String}
use locally_euclidean.Prelude.{
  ◌≡◌, ◌≢◌, true, ap, Bool-cases, Option-cases, inl, inr, arith, panic, none, some, map_err,
  map_err_total, and_then_total, Bytes,
}
use locally_euclidean.Storage.{Storage}
use locally_euclidean.Storage.Contract.{Contract}
use locally_euclidean.Api.{Body, internal_error}
use locally_euclidean.Api.Range.{
  RangeMatch, matches, length_mismatch, data_mismatch, check_range_matches,
}
use locally_euclidean.Api.Range.Total.{check_range_matches_total}
use locally_euclidean.Api.Growth.{arrived, Body-cases, Fits}
use locally_euclidean.Api.Write.{put_answer, compare_existing, write_to, put_write_filename}
use locally_euclidean.Api.Write.Effect.{put_without_bucket, put_new, put_broken}

put_answer_total : {F : Type 0} (r : RangeMatch) → put_answer {F = F} r ≢ panic
unfolding put_answer
put_answer_total matches e = cc
put_answer_total length_mismatch e = cc
put_answer_total data_mismatch e = cc

module _ (S : Storage) (K : Contract S) (w : S.World) (up : K.Up w) (b n : String)
    (stream : Body) where
  put_existing_total :
      (c : Bytes)
      → K.has_bucket w b ≡ true
      → K.content w (b, n) ≡ some c
      → (put_write_filename S n (record { bucket_name = b }) stream w).0 ≢ panic
  unfolding put_write_filename write_to compare_existing
  put_existing_total c there content e =
      let (bk, found, names) = K.bucket_found w b up there in
      let (h, opened, holds) = K.file_found w bk b n c up names content in
      and_then_total (map_err internal_error (check_range_matches S stream 0 h).0) put_answer
        (map_err_total internal_error (check_range_matches S stream 0 h).0
          (check_range_matches_total S K w (b, n) c stream 0 0 h holds (omega arith)))
        put_answer_total (rw (found, K.create_exists w bk b n c up names content, opened) at e)

  put_new_total :
      K.has_bucket w b ≡ true
      → K.content w (b, n) ≡ none
      → Fits S K stream none
      → (put_write_filename S n (record { bucket_name = b }) stream w).0 ≢ panic
  put_new_total there absent fits e = elim (Body-cases stream) [
    | inl whole ↦
        let (w', done, _, _) =
          put_new S K w up b n (arrived stream) there absent (omega (arith, fits.0)) fits.1 in
        cc (ap (λ p. p.0) (rw whole at done))
    | inr (rest, broken_off) ↦
        let (w', done, _, _) =
          put_broken S K w up b n (arrived stream) rest there absent (omega (arith, fits.0))
            fits.1 in
        cc (ap (λ p. p.0) (rw broken_off at done))
  ]

  -- A request that fits the limits of the backend does not panic.
  pub put_total :
      Fits S K stream (K.content w (b, n))
      → (put_write_filename S n (record { bucket_name = b }) stream w).0 ≢ panic
  put_total fits e = elim (Bool-cases (K.has_bucket w b)) [
    | inr missing ↦ cc (ap (λ p. p.0) (put_without_bucket S K w up b n stream missing))
    | inl there ↦ elim (Option-cases (K.content w (b, n))) [
      | inr (c, content) ↦ put_existing_total c there content e
      | inl absent ↦ put_new_total there absent (rw absent at fits) e
    ]
  ]
