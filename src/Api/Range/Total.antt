-- ===== src/Api/Range/Total.antt =====
-- `check_range_matches` of server/src/api.rs on any body, and whether it panics.
use locally_euclidean.Prelude.{
  ℕ, ◌+◌, ◌≤◌, ◌≡◌, ◌≢◌, subst, inl, inr, Bool-cases, panic, [], ◌∷◌, Bytes, length, take, drop,
  bytes_eq, dec_le, dec_lt, arith,
}
use locally_euclidean.Storage.{Storage}
use locally_euclidean.Storage.Contract.{Contract, Key}
use locally_euclidean.Api.{Body, chunk, broken}
use locally_euclidean.Api.Range.{end_of_range, compare_chunk, compare_chunks, check_range_matches}

module _ (S : Storage) (K : Contract S) (w : S.World) (k : Key) (c : Bytes) where
  compare_chunks_total :
      (stream : Body) (p : ℕ) (h : S.FileHandle)
      → K.Holds h w k c p
      → p ≤ length c
      → (compare_chunks S stream h).0 ≢ panic
  unfolding compare_chunks compare_chunk end_of_range
  compare_chunks_total [] p h holds le e = elim (dec_lt p (length c)) [
    | yes more ↦ let (x, e') = K.read_u8_byte h w k c p holds more in cc (rw e' at e)
    | no done ↦
        let at_end : p ≡ length c = omega arith in
        cc (rw (K.read_u8_end h w k c (subst (K.Holds h w k c) at_end holds)) at e)
  ]
  compare_chunks_total (broken ∷ stream) p h holds le e = cc
  compare_chunks_total (chunk d ∷ stream) p h holds le e = elim (dec_le (p + length d) (length c)) [
    | yes fits ↦
        let (h', e', holds') = K.read_exact_full h w k c p (length d) holds fits in
        elim (Bool-cases (bytes_eq (take (length d) (drop p c)) d)) [
          | inl same ↦
              compare_chunks_total stream (p + length d) h' holds' fits (rw (e', same) at e)
          | inr differ ↦ cc (rw (e', differ) at e)
        ]
    | no short ↦ cc (rw (K.read_exact_short h w k c p (length d) holds le (omega arith)) at e)
  ]

  -- At a start position within the file the check does not panic, whatever the body is.
  pub check_range_matches_total :
      (stream : Body) (p q : ℕ) (h : S.FileHandle)
      → K.Holds h w k c p
      → q ≤ length c
      → (check_range_matches S stream q h).0 ≢ panic
  unfolding check_range_matches
  check_range_matches_total stream p q h holds le e =
      let (h', e', holds') = K.seek_start h w k c p q holds le in
      compare_chunks_total stream q h' holds' le (rw e' at e)
