-- ===== src/Postgres/Memory.antt =====
-- A server in memory, to run the program on concrete inputs. Postgres/Memory/Objects and
-- Postgres/Memory/Lawful show that it keeps the laws of Postgres/Laws.
pub mod Objects
pub mod Merge
pub mod Reads
pub mod Order
pub mod Sweep
pub mod Buckets
pub mod Lawful
use Prim.Native.String.{String}
use text.Mathlib.Text.{◌==◌ as str_eq}
use locally_euclidean.Prelude.{
  ℕ, zero, suc, ◌+◌, ◌-◌, ◌/◌, ◌==◌, ℤ, pos, negsuc, Bool, true, false, ◌&&◌, ◌||◌, Option, none,
  some, Outcome, ok, err, ltb_ℤ, Exec, List, [], ◌∷◌, Bytes, bytes_eq, length, take, drop,
  if◌then◌else◌,
}
use mathlib.Core.Option
use locally_euclidean.Postgres.{Postgres, TimeDelta, of_microseconds, BucketRow, FileRow}
use locally_euclidean.Postgres.Laws.{overwrite, is_past}

pub data SqlError : Type 0 where
  unique_violation refused : SqlError

-- The tables, the large objects, the files that have expired, those that are due first in front, and a number that no row and no object
-- has yet. The clock stands still.
pub record Db : Type 0 where
  pub buckets : String → Option (BucketRow ℕ)
  pub files : ℕ → String → Option (FileRow ℕ ℕ)
  pub objects : ℕ → Option Bytes
  pub names : List String
  pub due : ℕ → String → Option ℤ
  pub expired : List (ℕ × String)
  pub now : ℤ
  pub next : ℕ

-- A transaction has at most one descriptor: its object and its position.
pub record Tx : Type 0 where
  pub begun : Db
  pub view : ℕ → Option Bytes
  pub descriptor : Option (ℕ × ℕ)

abbrev violates : SqlError → Bool
violates unique_violation = true
violates refused = false

abbrev pub update : (ℕ → Option Bytes) → ℕ → Bytes → ℕ → Option Bytes
update view o c j = if j == o then some c else view j

abbrev opened : ℕ → Option Bytes → Exec Tx SqlError (Option ℤ)
opened o none tx = (err refused, tx)
opened o (some c) tx = (ok (some (pos 0)), record tx { descriptor = some (o, 0) })

abbrev moved : ℕ → ℕ → Exec Tx SqlError (Option ℤ)
moved o p tx = (ok (some (pos p)), record tx { descriptor = some (o, p) })

-- `SEEK_SET` and `SEEK_END`, forwards.
abbrev sought : ℤ → ℤ → ℕ → Option Bytes → Exec Tx SqlError (Option ℤ)
sought (pos q) (pos zero) o (some c) tx = moved o q tx
sought (pos q) (pos (suc (suc zero))) o (some c) tx = moved o (q + length c) tx
sought _ _ o view tx = (err refused, tx)

abbrev taken : ℤ → ℕ → ℕ → Option Bytes → Exec Tx SqlError (Option Bytes)
taken (pos n) o p (some c) tx =
    let bytes = take n (drop p c) in
    (ok (some bytes), record tx { descriptor = some (o, p + length bytes) })
taken _ o p view tx = (err refused, tx)

abbrev written : Bytes → ℕ → ℕ → Option Bytes → Exec Tx SqlError (Option ℤ)
written d o p (some c) tx = (
  ok (some (pos (length d))),
  record tx { view = update tx.view o (overwrite p d c); descriptor = some (o, p + length d) },
)
written d o p none tx = (err refused, tx)

abbrev with_descriptor :
    {A : Type 0} → (ℕ → ℕ → Option Bytes → Exec Tx SqlError A) → Option (ℕ × ℕ) → Exec Tx SqlError A
with_descriptor operation none tx = (err refused, tx)
with_descriptor operation (some (o, p)) tx = operation o p (tx.view o) tx

abbrev pub count_due : (ℕ → String → Option ℤ) → ℤ → List (ℕ × String) → ℕ
count_due due t [] = 0
count_due due t (k ∷ ks) =
    let rest = count_due due t ks in if is_past t (due k.0 k.1) then suc rest else rest

-- The file is due at the time, and is put in front of those that are not due before.
abbrev pub in_order :
    (ℕ → String → Option ℤ) → ℤ → ℕ × String → List (ℕ × String) → List (ℕ × String)
in_order due t k [] = k ∷ []
in_order due t k (j ∷ js) =
    let rest = in_order due t k js in if is_past t (due j.0 j.1) then j ∷ rest else k ∷ j ∷ js

abbrev pub placed :
    (ℕ → String → Option ℤ) → ℤ → Option ℤ → ℕ × String → List (ℕ × String) → List (ℕ × String)
placed due now none k ks = ks
placed due now (some t) k ks = if ltb_ℤ t now then in_order due t k ks else ks

-- The times at which files are due, with that of a new one.
abbrev pub dated : (ℕ → String → Option ℤ) → ℕ → String → Option ℤ → ℕ → String → Option ℤ
dated due u n t v m = if v == u && str_eq m n then t else due v m

abbrev inserted : ℕ → String → Option ℤ → Option (FileRow ℕ ℕ) → Exec Db SqlError (FileRow ℕ ℕ)
inserted u n t (some f) db = (err unique_violation, db)
inserted u n t none db =
    let f : FileRow ℕ ℕ = record { id = db.next; blob = db.next } in
    (
      ok f,
      record db {
        files = λ v m. if v == u && str_eq m n then some f else db.files v m;
        objects = update db.objects db.next [];
        due = dated db.due u n t;
        expired = placed (dated db.due u n t) db.now t (u, n) db.expired;
        next = suc db.next;
      },
    )

-- A number of nanoseconds in microseconds.
abbrev pub micros : ℤ → ℤ
micros (pos n) = pos (n / 1000)
micros (negsuc n) = negsuc (suc n / 1000 - 1)

abbrev pub with_bucket : String → Option TimeDelta → Db → Db
with_bucket b t db = record db {
  names = b ∷ db.names;
  buckets = λ a.
      if str_eq a b
      then some
          (record { id = db.next; default_ttl = Option.map (λ d. of_microseconds (micros d)) t })
      else db.buckets a;
  next = suc db.next;
}

abbrev bucket_inserted : String → Option TimeDelta → Option (BucketRow ℕ) → Exec Db SqlError ℕ
bucket_inserted b t (some r) db = (err unique_violation, db)
bucket_inserted b t none db = (ok db.next, with_bucket b t db)

abbrev pub in_batch : ℕ → String → List (ℕ × String) → Bool
in_batch u n [] = false
in_batch u n (k ∷ ks) = (u == k.0 && str_eq n k.1) || in_batch u n ks

abbrev pub blob_is : ℕ → Option (FileRow ℕ ℕ) → Bool
blob_is o none = false
blob_is o (some f) = f.blob == o

-- Whether the object is that of a file of the batch.
abbrev pub unlinked : (ℕ → String → Option (FileRow ℕ ℕ)) → ℕ → List (ℕ × String) → Bool
unlinked files o [] = false
unlinked files o (k ∷ ks) = blob_is o (files k.0 k.1) || unlinked files o ks

abbrev pub left_over : List (ℕ × String) → List (ℕ × String) → List (ℕ × String)
left_over batch [] = []
left_over batch (k ∷ ks) =
    let rest = left_over batch ks in if in_batch k.0 k.1 batch then rest else k ∷ rest

abbrev pub swept : ℕ → Db → Db
swept limit db = record db {
  files = λ u n. if in_batch u n (take limit db.expired) then none else db.files u n;
  objects = λ o. if unlinked db.files o (take limit db.expired) then none else db.objects o;
  due = λ u n. if in_batch u n (take limit db.expired) then none else db.due u n;
  expired = left_over (take limit db.expired) (drop limit db.expired);
}

abbrev pub same_object : Option Bytes → Option Bytes → Bool
same_object none none = true
same_object none (some d) = false
same_object (some c) none = false
same_object (some c) (some d) = bytes_eq c d

-- The objects that the transaction has changed are put into what has been committed by now.
abbrev pub committed : Tx → Db → Db
committed tx db = record db {
  objects = λ j. if same_object (tx.view j) (tx.begun.objects j) then db.objects j else tx.view j;
}

abbrev pub memory : Postgres
memory = record {
  Db = Db;
  Tx = Tx;
  SqlError = SqlError;
  Uuid = ℕ;
  Oid = ℕ;
  is_unique_violation = violates;
  begin = λ db. ok (record { begun = db; view = db.objects; descriptor = none });
  commit = λ tx db. (ok tt, committed tx db);
  lo_open = λ o mode tx. opened o (tx.view o) tx;
  lo_lseek64 =
      λ fd offset whence tx. with_descriptor (λ o p. sought offset whence o) tx.descriptor tx;
  loread = λ fd n tx. with_descriptor (taken n) tx.descriptor tx;
  lowrite = λ fd d tx. with_descriptor (written d) tx.descriptor tx;
  lo_close = λ fd tx. (ok (some (pos 0)), record tx { descriptor = none });
  select_updated_at = λ id tx. (ok (pos 0), tx);
  select_bucket = λ db b. ok (db.buckets b);
  select_bucket_names = λ db. ok db.names;
  insert_bucket = λ b t db. bucket_inserted b t (db.buckets b) db;
  select_file = λ db u n. ok (db.files u n);
  insert_file = λ u n t db. inserted u n t (db.files u n) db;
  delete_expired = λ limit db. (ok (length (take limit db.expired)), swept limit db);
}
