-- ===== src/Api/Range/Verdict.antt =====
-- What `check_range_matches` of server/src/api.rs decides about a body and a range of a file.
use locally_euclidean.Prelude.{
  ℕ, ◌+◌, ◌≤◌, ◌≡◌, ◌≢◌, ◌↔◌, refl, sym, ap, subst, ◌∙◌, true, false, inl, inr, Bool-cases, ok,
  List, [], ◌∷◌, ◌++◌, map, flatten, Bytes, length, take, drop, bytes_eq, bytes_eq→eq,
  bytes_eq_refl, length-append, length-drop, drop_all, drop-add, take-append-drop, take_append,
  append_cancel, dec_le, dec_lt, arith,
}
use locally_euclidean.Storage.{Storage}
use locally_euclidean.Storage.Contract.{Contract, Key}
use locally_euclidean.Api.{chunk}
use locally_euclidean.Api.Range.{
  RangeMatch, matches, length_mismatch, data_mismatch, end_of_range, compare_chunk, compare_chunks,
  check_range_matches,
}

-- A prefix of the right length splits off both sides of an equation.
split_range :
    (d rest c : Bytes) (p : ℕ)
    → take (length d) (drop p c) ≡ d
    → (rest ≡ drop (p + length d) c) ↔ (d ++ rest ≡ drop p c)
split_range d rest c p e = (
  λ h.
      ap (◌++◌ d) (h ∙ drop-add p (length d) c)
      ∙ ap (λ t. t ++ drop (length d) (drop p c)) (sym e)
      ∙ take-append-drop (length d) (drop p c),
  λ h.
      append_cancel d (
        h
        ∙ sym (take-append-drop (length d) (drop p c))
        ∙ ap (λ t. t ++ drop (length d) (drop p c)) e)
      ∙ sym (drop-add p (length d) c),
)

mismatch_refutes : (d rest r : Bytes) → bytes_eq (take (length d) r) d ≡ false → d ++ rest ≢ r
mismatch_refutes d rest r differ q =
    let prefix : take (length d) r ≡ d = ap (take (length d)) (sym q) ∙ take_append d rest in
    let same : bytes_eq (take (length d) r) d ≡ true = rw prefix (bytes_eq_refl d) in cc

module _ (S : Storage) (K : Contract S) (w : S.World) (k : Key) (c : Bytes) where
  abbrev Decides : List Bytes → ℕ → S.FileHandle → Type 0
  Decides ds p h =
      (r : RangeMatch) × ((compare_chunks S (map chunk ds) h).0 ≡ ok r)
      × ((r ≡ matches) ↔ (flatten ds ≡ drop p c))

  Decides-nil : (p : ℕ) (h : S.FileHandle) → K.Holds h w k c p → p ≤ length c → Decides [] p h
  unfolding compare_chunks end_of_range flatten
  Decides-nil p h holds le = elim (dec_lt p (length c)) [
    | yes more ↦
        let (x, e) = K.read_u8_byte h w k c p holds more in
        (
          length_mismatch,
          rw e,
          (λ q. cc, λ q. absurd (omega (arith, ap (λ (l : Bytes). length l) q, length-drop p c))),
        )
    | no done ↦
        let at_end : p ≡ length c = omega arith in
        let e = K.read_u8_end h w k c (subst (K.Holds h w k c) at_end holds) in
        (matches, rw e, (λ q. sym (drop_all p c (omega arith)), λ q. refl))
  ]

  Decides-cons :
      (d : Bytes) (ds : List Bytes)
      → ((p : ℕ) (h : S.FileHandle) → K.Holds h w k c p → p ≤ length c → Decides ds p h)
      → (p : ℕ) (h : S.FileHandle) → K.Holds h w k c p
      → p ≤ length c
      → Decides (d ∷ ds) p h
  unfolding compare_chunks compare_chunk flatten
  Decides-cons d ds ih p h holds le = elim (dec_le (p + length d) (length c)) [
    | yes fits ↦
        let (h', e, holds') = K.read_exact_full h w k c p (length d) holds fits in
        elim (Bool-cases (bytes_eq (take (length d) (drop p c)) d)) [
          | inl same ↦
              let (r, er, decided) = ih (p + length d) h' holds' fits in
              let split = split_range d (flatten ds) c p (bytes_eq→eq _ d same) in
              (r, rw (e, same) er, (λ m. split.0 (decided.0 m), λ q. decided.1 (split.1 q)))
          | inr differ ↦ (
            data_mismatch,
            rw (e, differ),
            (λ q. cc, λ q. absurd (mismatch_refutes d (flatten ds) _ differ q)),
          )
        ]
    | no short ↦
        let e = K.read_exact_short h w k c p (length d) holds le (omega arith) in
        (
          length_mismatch,
          rw e,
          (
            λ q. cc,
            λ q. absurd (
                omega (
                  arith,
                  ap (λ (l : Bytes). length l) q,
                  length-drop p c,
                  length-append d (flatten ds),
                )),
          ),
        )
  ]

  Decides-all :
      (ds : List Bytes) (p : ℕ) (h : S.FileHandle)
      → K.Holds h w k c p
      → p ≤ length c
      → Decides ds p h
  Decides-all [] = Decides-nil
  Decides-all (d ∷ ds) = Decides-cons d ds (Decides-all ds)

  -- On a body that arrives whole, in any chunks, and a start position within the file, the check
  -- reaches a verdict, and the verdict is `matches` exactly when the body is what the file holds from
  -- the start position to its end.
  pub check_range_matches-decides :
      (ds : List Bytes) (p q : ℕ) (h : S.FileHandle)
      → K.Holds h w k c p
      → q ≤ length c
      → (r : RangeMatch) × ((check_range_matches S (map chunk ds) q h).0 ≡ ok r)
        × ((r ≡ matches) ↔ (flatten ds ≡ drop q c))
  unfolding check_range_matches
  check_range_matches-decides ds p q h holds le =
      let (h', e, holds') = K.seek_start h w k c p q holds le in
      rw e (Decides-all ds q h' holds' le)
