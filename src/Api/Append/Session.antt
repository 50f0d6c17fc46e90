-- ===== src/Api/Append/Session.antt =====
-- An upload in parts: requests of `post_append_filename` of server/src/api.rs that follow one another
-- on one file.
use Prim.Native.String.{String}
use locally_euclidean.Prelude.{
  ℕ, ◌+◌, ◌≤◌, ◌<◌, ◌≡◌, refl, sym, subst, ◌∙◌, ap, length-append, append_assoc, append-nil, true,
  some, ok, Exec, continue, List, [], ◌∷◌, ◌++◌, map, flatten, Bytes, length, arith,
}
use locally_euclidean.Storage.{Storage}
use locally_euclidean.Storage.Contract.{Contract, Writes, Writes-trans}
use locally_euclidean.Api.{ApiError, chunk}
use locally_euclidean.Api.Upload.Effect.{ChunksFit}
use locally_euclidean.Api.Append.{post_append_filename}
use locally_euclidean.Api.Append.Effect.{append_beyond}

-- The offset that a part is sent with, and its chunks.
abbrev pub Part : Type 0
Part = ℕ × List Bytes

-- What the parts carry, put together.
unfoldable pub carried : List Part → Bytes
carried [] = []
carried (part ∷ parts) = flatten part.1 ++ carried parts

-- Every part is sent with an offset past the end of what is there before it.
abbrev pub PastEnd : ℕ → List Part → Type 0
PastEnd size [] = Unit
PastEnd size (part ∷ parts) = (size < part.0) × PastEnd (size + length (flatten part.1)) parts

module _ (S : Storage) where
  -- One request for each part, up to the first that fails.
  unfoldable pub post_all : String → String → List Part → Exec S.World (ApiError S.Fault) Unit
  post_all b n [] w = (ok tt, w)
  post_all b n (part ∷ parts) w =
      let answer =
        post_append_filename S n (record { bucket_name = b; write_offset = part.0 })
          (map chunk part.1) w in
      continue answer.0 (λ _. post_all b n parts) answer.1

  abbrev pub PartsFit : Contract S → List Part → Type 0
  PartsFit K [] = Unit
  PartsFit K (part ∷ parts) = ChunksFit S K part.1 × PartsFit K parts

module _ (S : Storage) (K : Contract S) (b n : String) where
  -- Parts that are each sent with an offset past the end of the file as it then is, and that fit the
  -- limits of the backend together, are all accepted: the file then holds what it held and, behind
  -- that, the parts in order, and nothing else has changed.
  post_all-Writes :
      (parts : List Part) (w : S.World) (c : Bytes)
      → K.Up w
      → K.has_bucket w b ≡ true
      → K.content w (b, n) ≡ some c
      → PastEnd (length c) parts
      → length c + length (carried parts) ≤ K.max_file
      → PartsFit S K parts
      → (w' : S.World) × (post_all S b n parts w ≡ (ok tt, w'))
        × K.Up w'
        × Writes K.content K.has_bucket w w' (b, n) (c ++ carried parts)
  unfolding post_all carried
  post_all-Writes [] w c up there content past fits each = (
    w,
    refl,
    up,
    record {
      written = content ∙ ap (λ x. some x) (sym (append-nil c));
      untouched = λ j ne. refl;
      same_buckets = λ a. refl;
    },
  )
  post_all-Writes (part ∷ parts) w c up there content past fits each =
      let d = flatten part.1 in
      let longer = length-append c d in
      let room : length c + (length d + length (carried parts)) ≤ K.max_file =
        omega (arith, fits, length-append d (carried parts)) in
      let (w1, e, up1, writes) =
        append_beyond S K w up b n part.1 part.0 c there content past.0 (omega (arith, room))
          each.0 in
      let (w2, e', up2, writes') =
        post_all-Writes parts w1 (c ++ d) up1 (writes.same_buckets b ∙ there) writes.written
          (subst (λ s. PastEnd s parts) (sym longer) past.1) (omega (arith, longer, room)) each.1 in
      (
        w2,
        rw (e, e'),
        up2,
        subst (Writes K.content K.has_bucket w w2 (b, n)) (append_assoc c d (carried parts))
            (Writes-trans K.content K.has_bucket writes writes'),
      )
