-- ===== src/Api/Upload/Effect.antt =====
-- What the upload loop of server/src/api.rs does to the file, on a whole body and on a broken one.
use locally_euclidean.Prelude.{
  ℕ, ◌+◌, ◌≤◌, ◌≡◌, refl, sym, subst, ok, err, List, [], ◌∷◌, ◌++◌, map, flatten, append_assoc,
  append-nil, Bytes, length, length-append, arith,
}
use locally_euclidean.Storage.{Storage}
use locally_euclidean.Storage.Contract.{Contract, Key, Writes, Apart}
use locally_euclidean.Api.{Body, body, internal_error, chunk, broken}
use locally_euclidean.Api.Upload.{append_chunks, upload}

module _ (S : Storage) (K : Contract S) where
  -- Every chunk is short enough for a single append.
  abbrev pub ChunksFit : List Bytes → Type 0
  ChunksFit [] = Unit
  ChunksFit (d ∷ ds) = (length d ≤ K.max_write) × ChunksFit ds

module _ (S : Storage) (K : Contract S) (w : S.World) (k : Key) where
  pub append_chunks-lem :
      (ds : List Bytes) (tail : Body) (h : S.FileHandle) (c : Bytes) (p : ℕ)
      → K.Holds h w k c p
      → length c + length (flatten ds) ≤ K.max_file
      → ChunksFit S K ds
      → (h' : S.FileHandle) × (p' : ℕ) × (append_chunks S (map chunk ds ++ tail) h
          ≡ append_chunks S tail h')
        × K.Holds h' w k (c ++ flatten ds) p'
  unfolding append_chunks flatten
  append_chunks-lem [] tail h c p holds fits each =
      (h, p, refl, subst (λ t. K.Holds h w k t p) (sym (append-nil c)) holds)
  append_chunks-lem (d ∷ ds) tail h c p holds fits each =
      let (h', e, holds') =
        K.append_lem h w k c p d holds (omega (arith, length-append d (flatten ds))) each.0 in
      let (h'', p'', e', holds'') =
        append_chunks-lem ds tail h' (c ++ d) (length c + length d) holds'
          (omega (arith, length-append d (flatten ds), length-append c d)) each.1 in
      (
        h'',
        p'',
        rw e e',
        subst (λ t. K.Holds h'' w k t p'') (append_assoc c d (flatten ds)) holds'',
      )

  -- A whole body is appended to what the handle sees, and the commit makes that the file, whatever
  -- has become of the other files since the handle was opened.
  pub upload_whole :
      (now : S.World) (ds : List Bytes) (h : S.FileHandle) (c : Bytes) (p : ℕ)
      → K.Up now
      → K.Holds h w k c p
      → K.Same w now k
      → length c + length (flatten ds) ≤ K.max_file
      → ChunksFit S K ds
      → (w' : S.World) × (upload S (map chunk ds) h now ≡ (ok tt, w'))
        × K.Up w'
        × Writes K.content K.has_bucket now w' k (c ++ flatten ds)
        × Apart S K now w' k
  unfolding upload append_chunks
  upload_whole now ds h c p up holds same fits each =
      let (h', p', e, holds') = append_chunks-lem ds [] h c p holds fits each in
      let (w', e', up', writes, apart) =
        K.commit_lem h' w now k (c ++ flatten ds) p' up holds' same in
      (w', rw (← append-nil (map chunk ds)) (rw (e, e')), up', writes, apart)

  -- A body that breaks off commits nothing, whatever has arrived of it.
  pub upload_broken :
      (ds : List Bytes) (rest : Body) (h : S.FileHandle) (c : Bytes) (p : ℕ)
      → K.Holds h w k c p
      → length c + length (flatten ds) ≤ K.max_file
      → ChunksFit S K ds
      → upload S (map chunk ds ++ broken ∷ rest) h w ≡ (err (internal_error body), w)
  unfolding upload append_chunks
  upload_broken ds rest h c p holds fits each =
      let (h', p', e, holds') = append_chunks-lem ds (broken ∷ rest) h c p holds fits each in rw e
