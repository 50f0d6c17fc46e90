-- ===== src/Postgres/Memory/Objects.antt =====
-- The server in memory keeps its large objects in order.
use Prim.Native.String.{String}
use locally_euclidean.Prelude.{
  ℕ, ℤ, true, List, [], ◌∷◌, ◌+◌, ◌≤◌, ◌<◌, ◌≡◌, Option, none, some, Bytes, length, length-append,
  length-take, length-drop, arith,
}
use locally_euclidean.Postgres.{Interval, BucketRow, FileRow}
use locally_euclidean.Postgres.Laws.{overwrite, is_past, IsPlain}
use locally_euclidean.Postgres.Memory.{Db, Tx, update, in_batch, count_due}

abbrev pub largest : ℕ
largest = 0x40000000000

abbrev pub largest_bytea : ℕ
largest_bytea = 0x40000000

-- The files that are due first are in front.
abbrev pub Sorted : (ℕ → String → Option ℤ) → List (ℕ × String) → Type 0
Sorted due [] = Unit
Sorted due (k ∷ ks) =
    ((t : ℤ) → 0 < count_due due t ks → is_past t (due k.0 k.1) ≡ true) × Sorted due ks

-- Numbers from `next` on are free, of rows and of objects, buckets have different identifiers, and no object is too long.
pub record UpDb (db : Db) : Type 0 where
  pub free : (o : ℕ) → db.next ≤ o → db.objects o ≡ none
  pub unique :
      (a b : String) (r s : BucketRow ℕ)
      → db.buckets a ≡ some r
      → db.buckets b ≡ some s
      → r.id ≡ s.id
      → a ≡ b
  pub bucket_ids : (a : String) (r : BucketRow ℕ) → db.buckets a ≡ some r → r.id < db.next
  pub file_ids : (u : ℕ) (n : String) (f : FileRow ℕ ℕ) → db.files u n ≡ some f → u < db.next
  -- The list of expired files is that of the files that are due; what is not there is not due.
  pub listed : (u : ℕ) (n : String) → in_batch u n db.expired ≡ is_past db.now (db.due u n)
  pub sorted : Sorted db.due db.expired
  pub undated : (u : ℕ) (n : String) → db.files u n ≡ none → db.due u n ≡ none
  pub plain :
      (a : String) (r : BucketRow ℕ) (i : Interval)
      → db.buckets a ≡ some r
      → r.default_ttl ≡ some i
      → IsPlain i
  pub fits : (o : ℕ) (c : Bytes) → db.objects o ≡ some c → length c ≤ largest

pub record LiveTx (tx : Tx) : Type 0 where
  pub free : (o : ℕ) → tx.begun.next ≤ o → tx.view o ≡ none
  pub fits : (o : ℕ) (c : Bytes) → tx.view o ≡ some c → length c ≤ largest

length-overwrite :
    (p : ℕ) (d c : Bytes)
    → p ≤ length c
    → length c ≤ largest
    → p + length d ≤ largest
    → length (overwrite p d c) ≤ largest
length-overwrite p d c le fits fits' =
    omega (arith, length-append {0}, length-take {0}, length-drop {0})

module _ (tx : Tx) (live : LiveTx tx) where
  pub moved-LiveTx : (at : Option (ℕ × ℕ)) → LiveTx (record tx { descriptor = at })
  moved-LiveTx at = record { free = live.free; fits = live.fits }

  pub written-LiveTx :
      (o p : ℕ) (c d : Bytes) (at : Option (ℕ × ℕ))
      → tx.view o ≡ some c
      → p ≤ length c
      → p + length d ≤ largest
      → LiveTx (record tx { view = update tx.view o (overwrite p d c); descriptor = at })
  written-LiveTx o p c d at seen le fits = record {
    free = λ j new. ground (arith, live.free j new, seen);
    fits =
        λ j e h. ground (arith, live.fits j e, length-overwrite p d c le (live.fits o c seen) fits);
  }
