-- ===== src/Backend/Adapters.antt =====
-- Reading and seeking in an open file of storage/src/postgres/mod.rs through tokio's adapters, over
-- a server and a runtime that keep their laws.
use locally_euclidean.Prelude.{
  ℕ, zero, suc, ◌+◌, ◌-◌, ◌≤◌, ◌<◌, min, ◌≡◌, sym, ◌∙◌, ap, subst, pos, ok, err, List, [], ◌∷◌,
  ◌++◌, map, flatten, Bytes, length, take, drop, drop_all, dec_lt, arith,
}
use locally_euclidean.Storage.{start, end, unexpected_eof}
use locally_euclidean.Faults.{Fault}
use locally_euclidean.Postgres.{Postgres}
use locally_euclidean.Postgres.Laws.{IsPostgres}
use locally_euclidean.Runtime.{Runtime, IsTokio}
use locally_euclidean.Blob.Inner.{BlobHandleInner}
use locally_euclidean.Blob.Handle.{start_seek}
use locally_euclidean.Blob.Contents.{Stands, seek_start-Stands, seek_end-Stands}
use locally_euclidean.Blob.Adapters.{window, blob_read-lem, blob_complete-lem, blob_complete-idle}
use locally_euclidean.Backend.File.{file_read, file_seek}
use locally_euclidean.Backend.Holds.{file_at}
use locally_euclidean.Backend.Window.{
  fill_some, prepend_err, first_byte_some, item_some, length-window, window_end, window_split,
  window_resume,
}

module _ (P : Postgres) (R : Runtime) (L : IsPostgres P) (T : IsTokio R) (db : P.Db) (o : P.Oid)
    (id : P.Uuid) (x : ℕ) (c : Bytes) where
  pub file_read-lem :
      (i : BlobHandleInner P) (p n : ℕ)
      → Stands L db o i p c
      → (i' : BlobHandleInner P) × (file_read P R n (file_at P i x id)
          ≡ (ok (window n p c), file_at P i' x id))
        × Stands L db o i' (p + length (window n p c)) c
  unfolding file_read
  file_read-lem i p n s = let (i', e, s') = blob_read-lem P R L db o i x p n c s in (i', rw e, s')

  pub file_seek_start :
      (i : BlobHandleInner P) (p q : ℕ)
      → Stands L db o i p c
      → q ≤ length c
      → (i' : BlobHandleInner P) × (file_seek P R (start q) (file_at P i x id)
          ≡ (ok q, file_at P i' q id))
        × Stands L db o i' q c
  unfolding file_seek
  file_seek_start i p q s le =
      let (i', e, s') = seek_start-Stands P L db o i p c s q le in
      (
        i',
        T.seek_lem _ _ _ _ (start q) (file_at P i x id)
            ∙ rw (
              blob_complete-idle P R L db o i x,
              start_seek,
              blob_complete-lem P R L db o i i' x q (start q) e,
            ),
        s',
      )

  pub file_seek_end :
      (i : BlobHandleInner P) (p : ℕ)
      → Stands L db o i p c
      → (i' : BlobHandleInner P) × (file_seek P R (end (pos 0)) (file_at P i x id)
          ≡ (ok (length c), file_at P i' (length c) id))
        × Stands L db o i' (length c) c
  unfolding file_seek
  file_seek_end i p s =
      let (i', e, s') = seek_end-Stands P L db o i p c s in
      (
        i',
        T.seek_lem _ _ _ _ (end (pos 0)) (file_at P i x id)
            ∙ rw (
              blob_complete-idle P R L db o i x,
              start_seek,
              blob_complete-lem P R L db o i i' x (length c) (end (pos 0)) e,
            ),
        s',
      )

  -- On a handle that stands at `p` of a file with `n` bytes left, `read_exact` of `n` bytes gives
  -- just these, though one read gives at most 16 MiB, and the handle then stands at `p + n`.
  pub read_exact_full :
      (f n : ℕ) (i : BlobHandleInner P) (p : ℕ)
      → Stands L db o i p c
      → n ≤ f
      → p + n ≤ length c
      → (i' : BlobHandleInner P) × (R.read_exact _ _ (file_read P R) n (file_at P i x id)
          ≡ (ok (take n (drop p c)), file_at P i' x id))
        × Stands L db o i' (p + n) c
  read_exact_full f zero i p s lf le =
      (i, T.read_exact_zero _ _ _ _, let same : p + 0 ≡ p = omega arith in rw same s)
  read_exact_full zero (suc n) i p s lf le = absurd (omega arith)
  read_exact_full (suc f) (suc n) i p s lf le =
      let (i1, e, s1) = file_read-lem i p (suc n) s in
      let k = length (window (suc n) p c) in
      let size : k ≡ min (suc n) 0x1000000 = omega (arith, length-window (suc n) p c) in
      let (i2, e2, s2) = read_exact_full f (suc n - k) i1 (p + k) s1 (omega arith) (omega arith) in
      (
        i2,
        T.read_exact_suc _ _ _ n _
            ∙ rw e (
                fill_some (R.read_exact _ _ (file_read P R)) (suc n) (window (suc n) p c)
                  (file_at P i1 x id) (omega arith)
                ∙ rw (e2, window_resume (suc n) p c le)),
        let there : p + k + (suc n - k) ≡ p + suc n = omega arith in
            subst (λ t. Stands L db o i2 t c) there s2,
      )

  pub read_exact_short :
      (f n : ℕ) (i : BlobHandleInner P) (p : ℕ)
      → Stands L db o i p c
      → n ≤ f
      → p ≤ length c
      → length c < p + n
      → (R.read_exact _ _ (file_read P R) n (file_at P i x id)).0 ≡ err unexpected_eof
  read_exact_short f zero i p s lf le lt = absurd (omega arith)
  read_exact_short zero (suc n) i p s lf le lt = absurd (omega arith)
  read_exact_short (suc f) (suc n) i p s lf le lt =
      let (i1, e, s1) = file_read-lem i p (suc n) s in
      let buf = window (suc n) p c in
      elim (dec_lt p (length c)) [
        | yes more ↦
            let size : 0 < length buf = omega (arith, length-window (suc n) p c) in
            let rest =
              read_exact_short f (suc n - length buf) i1 (p + length buf) s1 (omega arith)
                (omega (arith, length-window (suc n) p c))
                (omega (arith, length-window (suc n) p c)) in
            ap (λ r. r.0) (T.read_exact_suc _ _ _ n _)
            ∙ rw e (
                ap (λ r. r.0)
                  (fill_some (R.read_exact _ _ (file_read P R)) (suc n) buf (file_at P i1 x id)
                    size)
                ∙ prepend_err buf _ unexpected_eof rest)
        | no done ↦
            let at_end : p ≡ length c = omega arith in
            let empty : buf ≡ [] = rw at_end (window_end (suc n) c) in
            ap (λ r. r.0) (T.read_exact_suc _ _ _ n _) ∙ rw (e, empty)
      ]

  pub read_u8_byte :
      (i : BlobHandleInner P) (p : ℕ)
      → Stands L db o i p c
      → p < length c
      → (b : ℕ) × ((R.read_u8 _ _ (file_read P R) (file_at P i x id)).0 ≡ ok b)
  read_u8_byte i p s lt =
      let (i1, e, s1) = file_read-lem i p 1 s in
      let (b, first) =
        first_byte_some {F = Fault P.SqlError} (window 1 p c) (file_at P i1 x id)
          (omega (arith, length-window 1 p c)) in
      (b, ap (λ r. r.0) (T.read_u8_lem _ _ _ _) ∙ rw e first)

  pub read_u8_end :
      (i : BlobHandleInner P)
      → Stands L db o i (length c) c
      → (R.read_u8 _ _ (file_read P R) (file_at P i x id)).0 ≡ err unexpected_eof
  read_u8_end i s =
      let (i1, e, s1) = file_read-lem i (length c) 1 s in
      ap (λ r. r.0) (T.read_u8_lem _ _ _ _) ∙ rw (e, window_end 1 c)

  -- On a handle that stands at `p`, within the file, the stream of chunks of at most `room` bytes, not
  -- zero, read for more rounds than there are bytes left, has no error, and its chunks put together
  -- are the rest of the file.
  pub reader_stream_all :
      (m room : ℕ) (i : BlobHandleInner P) (p : ℕ)
      → Stands L db o i p c
      → p ≤ length c
      → 0 < room
      → length c < p + m
      → (chunks : List Bytes) × (R.reader_stream _ _ (file_read P R) m room (file_at P i x id)
          ≡ map ok chunks)
        × (flatten chunks ≡ drop p c)
  unfolding flatten
  reader_stream_all zero room i p s le some_room lt = absurd (omega arith)
  reader_stream_all (suc m) room i p s le some_room lt =
      let (i1, e, s1) = file_read-lem i p room s in
      let buf = window room p c in
      elim (dec_lt p (length c)) [
        | yes more ↦
            let size : 0 < length buf = omega (arith, length-window room p c) in
            let (chunks, rest, whole) =
              reader_stream_all m room i1 (p + length buf) s1
                (omega (arith, length-window room p c)) some_room (omega arith) in
            (
              buf ∷ chunks,
              T.reader_stream_suc _ _ _ m room _
                  ∙ rw e (
                      item_some (R.reader_stream _ _ (file_read P R) m room) buf (file_at P i1 x id)
                        size
                      ∙ ap (◌∷◌ (ok buf)) rest),
              ap (◌++◌ buf) whole ∙ window_split room p c,
            )
        | no done ↦
            let at_end : p ≡ length c = omega arith in
            let empty : buf ≡ [] = rw at_end (window_end room c) in
            (
              [],
              T.reader_stream_suc _ _ _ m room _ ∙ rw (e, empty),
              sym (drop_all p c (omega arith)),
            )
      ]
