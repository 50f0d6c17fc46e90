-- ===== src/Api/Append/Total.antt =====
-- Whether `post_append_filename` of server/src/api.rs panics, on any body and any branch.
use Prim.Native.String.{String}
use locally_euclidean.Prelude.{
  ℕ, ◌≡◌, ◌≢◌, ◌<◌, true, ap, Bool-cases, Option-cases, inl, inr, dec_le, arith, panic, some,
  map_err, map_err_total, and_then_total, leb, leb→le, le→leb, Bytes, length,
}
use locally_euclidean.Storage.{Storage}
use locally_euclidean.Storage.Contract.{Contract}
use locally_euclidean.Api.{Body, internal_error}
use locally_euclidean.Api.Range.{
  RangeMatch, matches, length_mismatch, data_mismatch, check_range_matches,
}
use locally_euclidean.Api.Range.Total.{check_range_matches_total}
use locally_euclidean.Api.Growth.{arrived, Body-cases, Fits}
use locally_euclidean.Api.Append.{append_answer, append_at, append_to, post_append_filename}
use locally_euclidean.Api.Append.Effect.{
  append_without_bucket, append_without_file, append_beyond, append_broken,
}

append_answer_total : {F : Type 0} (r : RangeMatch) → append_answer {F = F} r ≢ panic
unfolding append_answer
append_answer_total matches e = cc
append_answer_total length_mismatch e = cc
append_answer_total data_mismatch e = cc

module _ (S : Storage) (K : Contract S) (w : S.World) (up : K.Up w) (b n : String) (o : ℕ)
    (stream : Body) where
  append_within_total :
      (c : Bytes)
      → K.has_bucket w b ≡ true
      → K.content w (b, n) ≡ some c
      → leb o (length c) ≡ true
      → (post_append_filename S n (record { bucket_name = b; write_offset = o }) stream w).0 ≢ panic
  unfolding post_append_filename append_to append_at
  append_within_total c there content within e =
      let (bk, found, names) = K.bucket_found w b up there in
      let (h, opened, holds) = K.file_found w bk b n c up names content in
      let (h', sought, holds') = K.seek_end h w (b, n) c 0 holds in
      and_then_total (map_err internal_error (check_range_matches S stream o h').0) append_answer
        (map_err_total internal_error (check_range_matches S stream o h').0 (
          check_range_matches_total S K w (b, n) c stream (length c) o h' holds'
            (omega (arith, leb→le o (length c) within))))
        append_answer_total (rw (found, opened, sought, within) at e)

  append_beyond_total :
      (c : Bytes)
      → K.has_bucket w b ≡ true
      → K.content w (b, n) ≡ some c
      → length c < o
      → Fits S K stream (some c)
      → (post_append_filename S n (record { bucket_name = b; write_offset = o }) stream w).0 ≢ panic
  append_beyond_total c there content lt fits e = elim (Body-cases stream) [
    | inl whole ↦
        let (w', done, _, _) =
          append_beyond S K w up b n (arrived stream) o c there content lt fits.0 fits.1 in
        cc (ap (λ p. p.0) (rw whole at done))
    | inr (rest, broken_off) ↦ cc (
        ap (λ p. p.0)
          (rw broken_off at
            (append_broken S K w up b n (arrived stream) rest o c there content lt fits.0 fits.1)))
  ]

  -- A request that fits the limits of the backend does not panic.
  pub append_total :
      Fits S K stream (K.content w (b, n))
      → (post_append_filename S n (record { bucket_name = b; write_offset = o }) stream w).0 ≢ panic
  append_total fits e = elim (Bool-cases (K.has_bucket w b)) [
    | inr missing ↦ cc (ap (λ p. p.0) (append_without_bucket S K w up b n stream o missing))
    | inl there ↦ elim (Option-cases (K.content w (b, n))) [
      | inl absent ↦ cc (ap (λ p. p.0) (append_without_file S K w up b n stream o there absent))
      | inr (c, content) ↦ elim (dec_le o (length c)) [
        | yes le ↦ append_within_total c there content (le→leb o (length c) le) e
        | no gt ↦ append_beyond_total c there content (omega arith) (rw content at fits) e
      ]
    ]
  ]
