-- ===== src/Explore/Log.antt =====
-- Uploads and downloads together: `put_write_filename` and `get_buck2_log` of server/src/api.rs, and
-- `get_explore` of server/src/explore.rs.
use Prim.Native.String.{String, ◌++◌ as ◌<>◌}
use locally_euclidean.Prelude.{
  ◌≤◌, ◌≡◌, ◌∙◌, suc, true, none, ok, List, map, flatten, Bytes, length, arith,
}
use locally_euclidean.Storage.{Storage}
use locally_euclidean.Storage.Contract.{Contract}
use locally_euclidean.Api.{chunk}
use locally_euclidean.Api.Upload.Effect.{ChunksFit}
use locally_euclidean.Api.Write.{put_write_filename}
use locally_euclidean.Api.Write.Effect.{put_new}
use locally_euclidean.Explore.{Response, get_buck2_log}
use locally_euclidean.Explore.Effect.{explore_file}

module _ (S : Storage) (K : Contract S) (w : S.World) (up : K.Up w) where
  -- A log within the limits of the backend that is uploaded as the new file `flat/NAME.pb.zst` to the
  -- bucket `buck2_logs`, which is there, is what the download of the log NAME then answers, with its
  -- length, for a client that reads for as many rounds as the log has bytes and one more.
  pub log_after_put :
      (name : String) (ds : List Bytes)
      → K.has_bucket w "buck2_logs" ≡ true
      → K.content w ("buck2_logs", "flat/" <> name <> ".pb.zst") ≡ none
      → length (flatten ds) ≤ K.max_file
      → ChunksFit S K ds
      → (w' : S.World) × (r : Response S.Fault) × (chunks : List Bytes) × (put_write_filename S
            ("flat/" <> name <> ".pb.zst")
            (record { bucket_name = "buck2_logs" })
            (map chunk ds)
            w
          ≡ (ok tt, w'))
        × (get_buck2_log S name w' ≡ ok r)
        × (r.content_length ≡ length (flatten ds))
        × (r.items (suc (length (flatten ds))) ≡ map ok chunks)
        × (flatten chunks ≡ flatten ds)
  unfolding get_buck2_log
  log_after_put name ds there absent fits each =
      let file = "flat/" <> name <> ".pb.zst" in
      let (w', e, up', writes) = put_new S K w up "buck2_logs" file ds there absent fits each in
      let (r, chunks, e', size, all, whole) =
        explore_file S K w' up' "buck2_logs" file (flatten ds) (suc (length (flatten ds)))
          (writes.same_buckets "buck2_logs" ∙ there) writes.written (omega arith) in
      (w', r, chunks, e, e', size, all, whole)
