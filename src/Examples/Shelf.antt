-- ===== src/Examples/Shelf.antt =====
-- A database with one bucket and one file, on which the program is run.
use Prim.Native.String.{◌++◌ as ◌<>◌}
use text.Mathlib.Text.{◌==◌ as str_eq}
use text.Mathlib.TextEquality.{eq_iff}
use locally_euclidean.Prelude.{
  ℕ, pos, ◌≤◌, ◌≢◌, ok, flatten, ◌==◌, ◌&&◌, ◌≡◌, refl, true, false, List, none, some, [], ◌∷◌,
  Bytes, if◌then◌else◌, arith,
}
use locally_euclidean.Storage.{Storage}
use locally_euclidean.Storage.Contract.{Contract}
use locally_euclidean.Postgres.Memory.{Db, memory}
use locally_euclidean.Postgres.Memory.Objects.{UpDb}
use locally_euclidean.Postgres.Memory.Lawful.{memory-IsPostgres}
use locally_euclidean.Runtime.Direct.{direct, direct-IsTokio}
use locally_euclidean.Backend.Bucket.{PostgresBucket}
use locally_euclidean.Backend.Traits.{postgres_storage}
use locally_euclidean.Api.Upload.Effect.{ChunksFit}
use locally_euclidean.Backend.View.{IsSound, Ready, Names, has_bucket, content}
use locally_euclidean.Backend.Holds.{Holds}
use locally_euclidean.Postgres.Laws.{IsPostgres}
use locally_euclidean.Backend.Fulfils.{fulfils}

-- "meow!"
abbrev pub meow : Bytes
meow = b'm' ∷ b'e' ∷ b'o' ∷ b'w' ∷ b'!' ∷ []

abbrev pub shelf : Db
shelf = record {
  buckets = λ b.
      if str_eq b "my_bucket"
      then some (record { id = 0; default_ttl = none })
      else (if str_eq b "buck2_logs" then some (record { id = 1; default_ttl = none }) else none);
  files = λ u n. if u == 0 && str_eq n "old" then some (record { id = 2; blob = 2 }) else none;
  objects = λ o. if o == 2 then some meow else none;
  names = "my_bucket" ∷ "buck2_logs" ∷ [];
  due = λ u n. if u == 0 && str_eq n "old" then some (pos 0) else none;
  expired = (0, "old") ∷ [];
  now = pos 1;
  next = 3;
}

shelf-UpDb : UpDb shelf
shelf-UpDb = record {
  free = λ o le. ground arith;
  unique = λ a b r s e e' same. ground (
    arith,
    eq_iff a "my_bucket",
    eq_iff b "my_bucket",
    eq_iff a "buck2_logs",
    eq_iff b "buck2_logs",
  );
  bucket_ids = λ a r e. ground arith;
  file_ids = λ u n f e. ground arith;
  listed = λ u n. ground (arith, eq_iff n "old");
  sorted = ((λ t some_past. absurd (omega (arith, some_past))), tt);
  undated = λ u n e. ground (arith, eq_iff n "old");
  plain = λ a r i e e'. ground arith;
  fits = λ o c e. ground arith;
}

shelf-IsSound : IsSound memory memory-IsPostgres shelf
unfolding memory-IsPostgres
shelf-IsSound = record {
  linked = λ u n f e. (meow, ground arith);
  unshared = λ u v n m f g e e' same. ground (arith, eq_iff n "old", eq_iff m "old");
}

abbrev pub S : Storage
S = postgres_storage memory direct

abbrev pub K : Contract S
K = fulfils memory direct memory-IsPostgres direct-IsTokio

pub shelf_up : K.Up shelf
unfolding fulfils memory-IsPostgres
shelf_up = (shelf-UpDb, shelf-IsSound)

pub shelf_bucket : K.has_bucket shelf "my_bucket" ≡ true
unfolding fulfils memory-IsPostgres has_bucket
shelf_bucket = refl

pub shelf_logs : K.has_bucket shelf "buck2_logs" ≡ true
unfolding fulfils memory-IsPostgres has_bucket
shelf_logs = refl

pub shelf_no_bucket : K.has_bucket shelf "other" ≡ false
unfolding fulfils memory-IsPostgres has_bucket
shelf_no_bucket = refl

pub shelf_old : K.content shelf ("my_bucket", "old") ≡ some meow
unfolding fulfils memory-IsPostgres content
shelf_old = refl

pub shelf_new : K.content shelf ("my_bucket", "new") ≡ none
unfolding fulfils memory-IsPostgres content
shelf_new = refl

pub shelf_no_log : K.content shelf ("buck2_logs", "flat/" <> "abcde" <> ".pb.zst") ≡ none
unfolding fulfils memory-IsPostgres content
shelf_no_log = refl

pub fits_file : (n : ℕ) → n ≤ 100 → n ≤ K.max_file
unfolding fulfils memory-IsPostgres
fits_file n le = omega arith

pub fits_write : (n : ℕ) → n ≤ 100 → n ≤ K.max_write
unfolding fulfils memory-IsPostgres
fits_write n le = omega arith

-- "meow!" in two chunks.
abbrev pub two_chunks : List Bytes
two_chunks = (b'm' ∷ b'e' ∷ []) ∷ (b'o' ∷ b'w' ∷ b'!' ∷ []) ∷ []

pub two_chunks_fit : ChunksFit S K two_chunks
two_chunks_fit = (fits_write 2 (omega arith), (fits_write 3 (omega arith), tt))

pub two_chunks_some : flatten two_chunks ≢ []
unfolding flatten
two_chunks_some e = cc

-- A handle on the file that is there.
abbrev pub bucket_handle : PostgresBucket memory
bucket_handle = record { id = 0; default_ttl = none }

pub bucket_named_so : K.Names shelf bucket_handle "my_bucket"
unfolding fulfils memory-IsPostgres
bucket_named_so = (record { id = 0; default_ttl = none }, refl, refl, refl)

old_opened :
    (h : S.FileHandle) × (S.file shelf bucket_handle "old" ≡ ok h)
    × K.Holds h shelf ("my_bucket", "old") meow 0
old_opened =
    K.file_found shelf bucket_handle "my_bucket" "old" meow shelf_up bucket_named_so shelf_old

pub old_handle : S.FileHandle
old_handle = old_opened.0

pub old_handle-Holds : K.Holds old_handle shelf ("my_bucket", "old") meow 0
unfolding old_handle
old_handle-Holds = old_opened.2

-- The same facts of the backend itself.
abbrev pub L : IsPostgres memory
L = memory-IsPostgres

pub shelf-Ready : Ready memory L shelf
unfolding fulfils
shelf-Ready = shelf_up

pub bucket_named : Names memory L shelf bucket_handle "my_bucket"
unfolding fulfils
bucket_named = bucket_named_so

pub old_open : Holds L old_handle shelf ("my_bucket", "old") meow 0
unfolding fulfils
old_open = old_handle-Holds

pub backend_new : content memory L shelf ("my_bucket", "new") ≡ none
unfolding fulfils
backend_new = shelf_new

pub backend_old : content memory L shelf ("my_bucket", "old") ≡ some meow
unfolding fulfils
backend_old = shelf_old

pub fits_object : (n : ℕ) → n ≤ 100 → (n ≤ L.max_object) × (n ≤ L.max_bytea)
unfolding memory-IsPostgres
fits_object n le = omega arith
