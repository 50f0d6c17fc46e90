-- ===== src/Api/Spec/Machine.antt =====
-- The specification of Api/Spec as a machine that takes one upload after the other, and the handlers of
-- server/src/api.rs beside it.
use Prim.Native.String.{String}
use locally_euclidean.Prelude.{
  ℕ, ◌+◌, ◌≤◌, ◌≡◌, ◌≢◌, ◌⊎◌, inl, inr, refl, Bool, Option, none, some, Outcome, List, [], ◌∷◌, map,
  flatten, Bytes, length,
}
use locally_euclidean.Storage.{Storage}
use locally_euclidean.Storage.Contract.{Contract, Key}
use locally_euclidean.Api.{ApiError, chunk}
use locally_euclidean.Api.Upload.Effect.{ChunksFit}
use locally_euclidean.Api.Growth.{Key-cases}
use locally_euclidean.Api.Write.{put_write_filename}
use locally_euclidean.Api.Append.{post_append_filename}
use locally_euclidean.Api.Spec.{Reply, Effect, spec_write, spec_append, IsOffEnd}
use locally_euclidean.Api.Spec.Refinement.{held}

-- A request with a whole body, of the given chunks.
pub data Upload : Type 0 where
  put : Key → List Bytes → Upload
  post : Key → ℕ → List Bytes → Upload

abbrev pub key : Upload → Key
key (put k ds) = k
key (post k o ds) = k

abbrev pub chunks : Upload → List Bytes
chunks (put k ds) = ds
chunks (post k o ds) = ds

abbrev pub effect : Upload → Bool → Option Bytes → Effect
effect (put k ds) = spec_write (flatten ds)
effect (post k o ds) = spec_append o (flatten ds)

abbrev pub OffEnd : Upload → Option Bytes → Type 0
OffEnd (put k ds) held = Unit
OffEnd (post k o ds) held = IsOffEnd o held

abbrev pub Files : Type 0
Files = Key → Option Bytes

abbrev replaced : {j k : Key} → (j ≡ k) ⊎ (j ≢ k) → Bytes → Option Bytes → Option Bytes
replaced (inl same) c old = some c
replaced (inr other) c old = old

abbrev pub updated : Key → Option Bytes → Files → Files
updated k none files = files
updated k (some c) files = λ j. replaced (Key-cases j k) c (files j)

replaced_same :
    (k : Key) (d : (k ≡ k) ⊎ (k ≢ k)) (c : Bytes) (old : Option Bytes) → replaced d c old ≡ some c
replaced_same k (inl same) c old = refl
replaced_same k (inr other) c old = absurd (other refl)

pub updated_same : (k : Key) (c : Bytes) (files : Files) → updated k (some c) files k ≡ some c
updated_same k c files = replaced_same k (Key-cases k k) c (files k)

-- The machine: the replies, with the files that they are about, and the contents at the end.
unfoldable pub spec_run : (String → Bool) → List Upload → Files → List (Key × Reply) × Files
spec_run has [] files = ([], files)
spec_run has (u ∷ us) files =
    let e = effect u (has (key u).0) (files (key u)) in
    let rest = spec_run has us (updated (key u) e.1 files) in ((key u, e.0) ∷ rest.0, rest.1)

module _ (S : Storage) where
  abbrev pub handle : Upload → S.World → Outcome (ApiError S.Fault) Unit × S.World
  handle (put k ds) = put_write_filename S k.1 (record { bucket_name = k.0 }) (map chunk ds)
  handle (post k o ds) =
      post_append_filename S k.1 (record { bucket_name = k.0; write_offset = o }) (map chunk ds)

  -- The handlers, one after the other: the outcomes, and the world at the end.
  unfoldable pub handle_all :
      List Upload → S.World → List (Outcome (ApiError S.Fault) Unit) × S.World
  handle_all [] w = ([], w)
  handle_all (u ∷ us) w =
      let r = handle u w in let rest = handle_all us r.1 in (r.0 ∷ rest.0, rest.1)

  -- Each upload fits the limits of the backend when its turn comes in the machine, and no append has
  -- just the end of the file as its offset.
  abbrev pub UploadsFit : Contract S → (String → Bool) → List Upload → Files → Type 0
  UploadsFit K has [] files = Unit
  UploadsFit K has (u ∷ us) files =
      (held (files (key u)) + length (flatten (chunks u)) ≤ K.max_file)
      × ChunksFit S K (chunks u)
      × OffEnd u (files (key u))
      × UploadsFit K has us (updated (key u) (effect u (has (key u).0) (files (key u))).1 files)

module _ (S : Storage) (K : Contract S) where
  -- The world has these buckets and these contents.
  pub record Shows (has : String → Bool) (files : Files) (w : S.World) : Type 0 where
    pub buckets : (b : String) → K.has_bucket w b ≡ has b
    pub contents : (k : Key) → K.content w k ≡ files k
