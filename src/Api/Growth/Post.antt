-- ===== src/Api/Growth/Post.antt =====
-- `post_append_filename` of server/src/api.rs on any body: every branch at once.
use Prim.Native.String.{String}
use locally_euclidean.Prelude.{
  ℕ, ◌≡◌, ◌<◌, true, ap, sym, ◌∙◌, subst, Bool-cases, Option-cases, inl, inr, some, flatten, Bytes,
  length, dec_le, arith, ◌++◌,
}
use mathlib.Core.Option.{some-injective}
use locally_euclidean.Storage.{Storage}
use locally_euclidean.Storage.Contract.{Contract}
use locally_euclidean.Api.{Body}
use locally_euclidean.Api.Append.{post_append_filename}
use locally_euclidean.Api.Append.Effect.{
  append_without_bucket, append_without_file, append_within_keeps, append_beyond, append_broken,
}
use locally_euclidean.Api.Growth.{arrived, Body-cases, Fits, Grows, keeps-Grows, Writes-Grows}

module _ (S : Storage) (K : Contract S) (w : S.World) (up : K.Up w) (b n : String) (o : ℕ)
    (stream : Body) where
  abbrev after : S.World
  after = (post_append_filename S n (record { bucket_name = b; write_offset = o }) stream w).1

  kept : after ≡ w → K.Up after × Grows S K w after
  kept e = (subst K.Up (sym e) up, keeps-Grows S K w after e)

  beyond :
      (c : Bytes)
      → K.has_bucket w b ≡ true
      → K.content w (b, n) ≡ some c
      → length c < o
      → Fits S K stream (some c)
      → K.Up after × Grows S K w after
  beyond c there content lt fits = elim (Body-cases stream) [
    | inl whole ↦
        let (w', e, up', writes) =
          append_beyond S K w up b n (arrived stream) o c there content lt fits.0 fits.1 in
        subst (λ v. K.Up v × Grows S K w v) (sym (ap (λ p. p.1) (rw whole at e)))
          (
            up',
            Writes-Grows S K w w' (b, n) _ writes
                (λ c' e'. (
                  flatten (arrived stream),
                  ap (λ t. t ++ flatten (arrived stream)) (some-injective _ _ (sym content ∙ e')),
                )),
          )
    | inr (rest, broken_off) ↦ kept (
        ap (λ p. p.1)
          (rw broken_off at
            (append_broken S K w up b n (arrived stream) rest o c there content lt fits.0 fits.1)))
  ]

  pub append-Grows : Fits S K stream (K.content w (b, n)) → K.Up after × Grows S K w after
  append-Grows fits = elim (Bool-cases (K.has_bucket w b)) [
    | inr missing ↦ kept (ap (λ p. p.1) (append_without_bucket S K w up b n stream o missing))
    | inl there ↦ elim (Option-cases (K.content w (b, n))) [
      | inl absent ↦ kept (ap (λ p. p.1) (append_without_file S K w up b n stream o there absent))
      | inr (c, content) ↦ elim (dec_le o (length c)) [
        | yes le ↦ kept (append_within_keeps S K w up b n stream o c there content le)
        | no gt ↦ beyond c there content (omega arith) (rw content at fits)
      ]
    ]
  ]
