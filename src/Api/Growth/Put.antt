-- ===== src/Api/Growth/Put.antt =====
-- `put_write_filename` of server/src/api.rs on any body: every branch at once.
use Prim.Native.String.{String}
use locally_euclidean.Prelude.{
  ◌≡◌, ap, sym, true, subst, Bool-cases, Option-cases, inl, inr, arith, none,
}
use locally_euclidean.Storage.{Storage}
use locally_euclidean.Storage.Contract.{Contract}
use locally_euclidean.Api.{Body}
use locally_euclidean.Api.Write.{put_write_filename}
use locally_euclidean.Api.Write.Effect.{put_without_bucket, put_new, put_broken, put_keeps_existing}
use locally_euclidean.Api.Growth.{arrived, Body-cases, Fits, Grows, keeps-Grows, Writes-Grows}

module _ (S : Storage) (K : Contract S) (w : S.World) (up : K.Up w) (b n : String)
    (stream : Body) where
  abbrev after : S.World
  after = (put_write_filename S n (record { bucket_name = b }) stream w).1

  kept : after ≡ w → K.Up after × Grows S K w after
  kept e = (subst K.Up (sym e) up, keeps-Grows S K w after e)

  created :
      K.has_bucket w b ≡ true
      → K.content w (b, n) ≡ none
      → Fits S K stream none
      → K.Up after × Grows S K w after
  created there absent fits = elim (Body-cases stream) [
    | inl whole ↦
        let (w', e, up', writes) =
          put_new S K w up b n (arrived stream) there absent (omega (arith, fits.0)) fits.1 in
        subst (λ v. K.Up v × Grows S K w v) (sym (ap (λ p. p.1) (rw whole at e)))
          (up', Writes-Grows S K w w' (b, n) _ writes (λ c e. cc))
    | inr (rest, broken_off) ↦
        let (w', e, up', writes) =
          put_broken S K w up b n (arrived stream) rest there absent (omega (arith, fits.0))
            fits.1 in
        subst (λ v. K.Up v × Grows S K w v) (sym (ap (λ p. p.1) (rw broken_off at e)))
          (up', Writes-Grows S K w w' (b, n) _ writes (λ c e. cc))
  ]

  pub put-Grows : Fits S K stream (K.content w (b, n)) → K.Up after × Grows S K w after
  put-Grows fits = elim (Bool-cases (K.has_bucket w b)) [
    | inr missing ↦ kept (ap (λ p. p.1) (put_without_bucket S K w up b n stream missing))
    | inl there ↦ elim (Option-cases (K.content w (b, n))) [
      | inr (c, content) ↦ kept (put_keeps_existing S K w up b n stream c there content)
      | inl absent ↦ created there absent (rw absent at fits)
    ]
  ]
