-- ===== src/Storage/Contract.antt =====
-- What the handlers of the server rely on in a storage backend that answers.
--
-- The abstract state of a world is the set of its buckets and, for each bucket name and file name,
-- the bytes of the file or nothing. `Holds h w k c p` says that the handle `h` was opened in the
-- world `w` on the file `k`, that it sees the bytes `c` there, its own writes included, that it
-- stands at the position `p`, and that no operation on it is in progress.
use Prim.Native.Nat.{ℕ, ◌+◌, ◌≤◌, ◌<◌}
use Prim.Native.String.{String}
use locally_euclidean.Prelude.{
  ◌≡◌, ◌≢◌, ◌∙◌, Bool, true, false, Option, none, some, ok, err, Bytes, List, map, flatten, length,
  take, drop, [], ◌++◌, pos,
}
use locally_euclidean.Storage.{
  Storage, start, end, unexpected_eof, FileOpenError, file_exists, FileMetadata, IsDate,
}

-- A bucket's name and a file's.
abbrev pub Key : Type 0
Key = String × String

-- The second world differs from the first in the file `k` alone, which holds `c`.
pub record Writes {W : Type 0} (content : W → Key → Option Bytes) (has_bucket : W → String → Bool)
    (w w' : W) (k : Key) (c : Bytes) : Type 0 where
  pub written : content w' k ≡ some c
  pub untouched : (j : Key) → j ≢ k → content w' j ≡ content w j
  pub same_buckets : (b : String) → has_bucket w' b ≡ has_bucket w b

pub Writes-trans :
    {W : Type 0} (content : W → Key → Option Bytes) (has_bucket : W → String → Bool) {u v w : W}
    {k : Key} {c d : Bytes}
    → Writes content has_bucket u v k c
    → Writes content has_bucket v w k d
    → Writes content has_bucket u w k d
Writes-trans content has_bucket f g = record {
  written = g.written;
  untouched = λ j ne. g.untouched j ne ∙ f.untouched j ne;
  same_buckets = λ b. g.same_buckets b ∙ f.same_buckets b;
}

pub record Contract (S : Storage) : Type 1 where
  pub has_bucket : S.World → String → Bool
  pub content : S.World → Key → Option Bytes
  -- The backend answers, and its state is well formed.
  pub Up : S.World → Type 0
  -- The bucket was opened under this name.
  pub Names : S.World → S.Bucket → String → Type 0
  pub Holds : S.FileHandle → S.World → Key → Bytes → ℕ → Type 0
  -- The file is the same in both worlds, and so is what it holds.
  pub Same : S.World → S.World → Key → Type 0
  -- The longest file, and the longest single append.
  pub max_file : ℕ
  pub max_write : ℕ
  pub bucket_missing :
      (w : S.World) (b : String)
      → Up w
      → has_bucket w b ≡ false
      → S.bucket w b ≡ err FileOpenError.does_not_exist
  pub bucket_found :
      (w : S.World) (b : String)
      → Up w
      → has_bucket w b ≡ true
      → (bk : S.Bucket) × (S.bucket w b ≡ ok bk) × Names w bk b
  pub file_missing :
      (w : S.World) (bk : S.Bucket) (b n : String)
      → Up w
      → Names w bk b
      → content w (b, n) ≡ none
      → S.file w bk n ≡ err FileOpenError.does_not_exist
  pub file_found :
      (w : S.World) (bk : S.Bucket) (b n : String) (c : Bytes)
      → Up w
      → Names w bk b
      → content w (b, n) ≡ some c
      → (h : S.FileHandle) × (S.file w bk n ≡ ok h) × Holds h w (b, n) c 0
  pub create_exists :
      (w : S.World) (bk : S.Bucket) (b n : String) (c : Bytes)
      → Up w
      → Names w bk b
      → content w (b, n) ≡ some c
      → S.create_file bk n w ≡ (err file_exists, w)
  pub create_fresh :
      (w : S.World) (bk : S.Bucket) (b n : String)
      → Up w
      → Names w bk b
      → content w (b, n) ≡ none
      → (h : S.FileHandle) × (w' : S.World) × (S.create_file bk n w ≡ (ok h, w'))
        × Holds h w' (b, n) [] 0
        × Up w'
        × Writes content has_bucket w w' (b, n) []
        × ((u : S.World) (j : Key) → j ≢ (b, n) → Same u w j → Same u w' j)
  pub seek_start :
      (h : S.FileHandle) (w : S.World) (k : Key) (c : Bytes) (p q : ℕ)
      → Holds h w k c p
      → q ≤ length c
      → (h' : S.FileHandle) × (S.seek (start q) h ≡ (ok q, h')) × Holds h' w k c q
  pub seek_end :
      (h : S.FileHandle) (w : S.World) (k : Key) (c : Bytes) (p : ℕ)
      → Holds h w k c p
      → (h' : S.FileHandle) × (S.seek (end (pos 0)) h ≡ (ok (length c), h'))
        × Holds h' w k c (length c)
  pub read_exact_full :
      (h : S.FileHandle) (w : S.World) (k : Key) (c : Bytes) (p n : ℕ)
      → Holds h w k c p
      → p + n ≤ length c
      → (h' : S.FileHandle) × (S.read_exact n h ≡ (ok (take n (drop p c)), h'))
        × Holds h' w k c (p + n)
  pub read_exact_short :
      (h : S.FileHandle) (w : S.World) (k : Key) (c : Bytes) (p n : ℕ)
      → Holds h w k c p
      → p ≤ length c
      → length c < p + n
      → (S.read_exact n h).0 ≡ err unexpected_eof
  pub read_u8_byte :
      (h : S.FileHandle) (w : S.World) (k : Key) (c : Bytes) (p : ℕ)
      → Holds h w k c p
      → p < length c
      → (x : ℕ) × ((S.read_u8 h).0 ≡ ok x)
  pub read_u8_end :
      (h : S.FileHandle) (w : S.World) (k : Key) (c : Bytes)
      → Holds h w k c (length c)
      → (S.read_u8 h).0 ≡ err unexpected_eof
  pub reader_stream_lem :
      (h : S.FileHandle) (w : S.World) (k : Key) (c : Bytes) (p m cap : ℕ)
      → Holds h w k c p
      → p ≤ length c
      → 0 < cap
      → length c < p + m
      → (chunks : List Bytes) × (S.reader_stream m cap h ≡ map ok chunks)
        × (flatten chunks ≡ drop p c)
  pub append_lem :
      (h : S.FileHandle) (w : S.World) (k : Key) (c : Bytes) (p : ℕ) (d : Bytes)
      → Holds h w k c p
      → length c + length d ≤ max_file
      → length d ≤ max_write
      → (h' : S.FileHandle) × (S.append d h ≡ (ok tt, h'))
        × Holds h' w k (c ++ d) (length c + length d)
  pub metadata_lem :
      (h : S.FileHandle) (w : S.World) (k : Key) (c : Bytes) (p : ℕ)
      → Holds h w k c p
      → (h' : S.FileHandle) × (m : FileMetadata) × (S.metadata h ≡ (ok m, h'))
        × Holds h' w k c p
        × IsDate m.last_modified_at
  pub same_refl : (w : S.World) (k : Key) → Up w → Same w w k
  -- The handle was opened in the world `v`, and is committed in the world `w`.
  pub commit_lem :
      (h : S.FileHandle) (v w : S.World) (k : Key) (c : Bytes) (p : ℕ)
      → Up w
      → Holds h v k c p
      → Same v w k
      → (w' : S.World) × (S.commit h w ≡ (ok tt, w'))
        × Up w'
        × Writes content has_bucket w w' k c
        × ((u : S.World) (j : Key) → j ≢ k → Same u w j → Same u w' j)

-- What has happened between two worlds leaves every file but `k` the same.
abbrev pub Apart : (S : Storage) (K : Contract S) → S.World → S.World → Key → Type 0
Apart S K w w' k = (u : S.World) (j : Key) → j ≢ k → K.Same u w j → K.Same u w' j
