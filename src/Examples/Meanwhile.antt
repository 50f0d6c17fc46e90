-- ===== src/Examples/Meanwhile.antt =====
-- The theorems on uploads while other requests are served, at the database of Examples/Shelf.
use text.Mathlib.TextEquality.{eq_iff}
use locally_euclidean.Prelude.{◌≡◌, ◌≢◌, refl, sym, ap, ◌∙◌, none, ok, map, flatten, arith, []}
use locally_euclidean.Storage.Contract.{Key, Writes}
use locally_euclidean.Postgres.Memory.{Db}
use locally_euclidean.Postgres.Memory.Lawful.{memory-IsPostgres}
use locally_euclidean.Backend.Fulfils.{fulfils}
use locally_euclidean.Backend.Bucket.{bucket_named, time_delta}
use locally_euclidean.Backend.View.{content}
use locally_euclidean.Api.{chunk}
use locally_euclidean.Api.Upload.{upload}
use locally_euclidean.Api.Among.{Others, at_once, created}
use locally_euclidean.Api.Write.{put_write_filename}
use locally_euclidean.Api.Write.Meanwhile.{put_among}
use locally_euclidean.Examples.Shelf.{
  S, K, shelf, shelf_up, shelf_bucket, shelf_new, bucket_named_so, bucket_handle, fits_file,
  two_chunks, two_chunks_fit,
}

-- The file "new" has been created, and then the file "newer".
abbrev first_created :
    (h : S.FileHandle) × (v : S.World) × (S.create_file bucket_handle "new" shelf ≡ (ok h, v))
    × K.Holds h v ("my_bucket", "new") [] 0
    × K.Up v
    × Writes K.content K.has_bucket shelf v ("my_bucket", "new") []
    × ((u : S.World) (j : Key) → j ≢ ("my_bucket", "new") → K.Same u shelf j → K.Same u v j)
first_created =
    K.create_fresh shelf bucket_handle "my_bucket" "new" shelf_up bucket_named_so shelf_new

newer : ◌≢◌ {A = Key} ("my_bucket", "newer") ("my_bucket", "new")
newer e = let same = (eq_iff "newer" "new").1 (ap (λ (k : Key). k.1) e) in cc

shelf_newer : K.content shelf ("my_bucket", "newer") ≡ none
unfolding fulfils memory-IsPostgres content
shelf_newer = refl

abbrev handle : S.FileHandle
handle = first_created.0

abbrev world : Db
world = first_created.1

named_then : (bk : S.Bucket) × (S.bucket world "my_bucket" ≡ ok bk) × K.Names world bk "my_bucket"
named_then =
    K.bucket_found world "my_bucket" first_created.4
      (first_created.5.same_buckets "my_bucket" ∙ shelf_bucket)

named_shelf : S.bucket shelf "my_bucket" ≡ ok bucket_handle
unfolding bucket_named time_delta memory-IsPostgres
named_shelf = refl

newer_created : Db
newer_created = (S.create_file named_then.0 "newer" world).1

others : Others S K ("my_bucket", "new") world newer_created
unfolding newer_created
others =
    created at_once named_then.0 "my_bucket" "newer" newer_created named_then.2
      (first_created.5.untouched ("my_bucket", "newer") newer ∙ shelf_newer) (λ e. newer (sym e))
      refl

put_among_example :
    (put_write_filename S "new" (record { bucket_name = "my_bucket" }) (map chunk two_chunks) shelf
      ≡ upload S (map chunk two_chunks) handle world)
    × (w' : Db) × (upload S (map chunk two_chunks) handle newer_created ≡ (ok tt, w'))
    × K.Up w'
    × Writes K.content K.has_bucket newer_created w' ("my_bucket", "new") (flatten two_chunks)
unfolding flatten
put_among_example =
    put_among S K shelf shelf_up "my_bucket" "new" two_chunks bucket_handle handle world
      newer_created shelf_bucket shelf_new (fits_file 5 (omega arith)) two_chunks_fit named_shelf
      first_created.2 others
