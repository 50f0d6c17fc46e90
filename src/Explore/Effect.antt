-- ===== src/Explore/Effect.antt =====
-- What `get_explore` of server/src/explore.rs answers, over a storage backend that meets the
-- contract.
use Prim.Native.String.{String}
use locally_euclidean.Prelude.{
  ℕ, ◌<◌, ◌≡◌, refl, ap, true, false, some, none, ok, err, Outcome, map_err, List, [], ◌∷◌, map,
  flatten, Bytes, length, arith,
}
use locally_euclidean.Storage.{Storage, IsDate}
use locally_euclidean.Storage.Contract.{Contract}
use locally_euclidean.Api.{
  bucket_does_not_exist, file_does_not_exist, from_bucket_open_error, from_bucket_file_open_error,
}
use locally_euclidean.Explore.{
  Response, buffer_size, respond, with_metadata, rewind, measure, get_explore,
}

map_err-map_ok :
    {F G : Type 0} (f : F → G) (ds : List Bytes)
    → map (map_err f) (map (λ d. Outcome.ok d) ds) ≡ map (λ d. Outcome.ok d) ds
map_err-map_ok f [] = refl
map_err-map_ok f (d ∷ ds) = ap (◌∷◌ (ok d)) (map_err-map_ok f ds)

module _ (S : Storage) (K : Contract S) (w : S.World) (up : K.Up w) (b n : String) where
  -- What is answered to a request for a file that is there, with its date.
  pub explore_dated :
      (c : Bytes) (rounds : ℕ)
      → K.has_bucket w b ≡ true
      → K.content w (b, n) ≡ some c
      → length c < rounds
      → (r : Response S.Fault) × (chunks : List Bytes) × (get_explore S b n w ≡ ok r)
        × (r.content_length ≡ length c)
        × (r.items rounds ≡ map ok chunks)
        × (flatten chunks ≡ c)
        × IsDate r.last_modified
  unfolding get_explore measure rewind with_metadata respond buffer_size
  explore_dated c rounds there content lt =
      let (bk, e, names) = K.bucket_found w b up there in
      let (h, e', holds) = K.file_found w bk b n c up names content in
      let (h1, e1, holds1) = K.seek_end h w (b, n) c 0 holds in
      let (h2, e2, holds2) = K.seek_start h1 w (b, n) c (length c) 0 holds1 (omega arith) in
      let (h3, m, e3, holds3, date) = K.metadata_lem h2 w (b, n) c 0 holds2 in
      let (chunks, e4, whole) =
        K.reader_stream_lem h3 w (b, n) c 0 rounds buffer_size holds3 (omega arith) (omega arith)
          (omega arith) in
      (
        respond S (length c) h3 m,
        chunks,
        rw (e, e', e1, e2, e3),
        refl,
        rw e4 (map_err-map_ok _ chunks),
        whole,
        date,
      )

  -- A file that is there is answered with its length, and with a body that, read for more rounds than
  -- the file has bytes, is all chunks and no error, which put together are the file's content.
  pub explore_file :
      (c : Bytes) (rounds : ℕ)
      → K.has_bucket w b ≡ true
      → K.content w (b, n) ≡ some c
      → length c < rounds
      → (r : Response S.Fault) × (chunks : List Bytes) × (get_explore S b n w ≡ ok r)
        × (r.content_length ≡ length c)
        × (r.items rounds ≡ map ok chunks)
        × (flatten chunks ≡ c)
  explore_file c rounds there content lt =
      let (r, chunks, e, size, all, whole, _) = explore_dated c rounds there content lt in
      (r, chunks, e, size, all, whole)

  -- Without the bucket the answer names the bucket.
  pub explore_without_bucket :
      K.has_bucket w b ≡ false → get_explore S b n w ≡ err (bucket_does_not_exist b)
  unfolding get_explore from_bucket_open_error
  explore_without_bucket missing = rw (K.bucket_missing w b up missing)

  -- Without the file the answer names the file.
  pub explore_without_file :
      K.has_bucket w b ≡ true
      → K.content w (b, n) ≡ none
      → get_explore S b n w ≡ err (file_does_not_exist n)
  unfolding get_explore from_bucket_file_open_error
  explore_without_file there absent =
      let (bk, e, names) = K.bucket_found w b up there in
      rw (e, K.file_missing w bk b n up names absent)
