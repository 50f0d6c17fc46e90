-- ===== src/Postgres/Laws.antt =====
-- What the storage layer relies on in a server that answers: the large object functions of
-- Postgres, transactions, and the tables with their keys (migrations/20250530003124_initial_schema.sql).
--
-- The views say what a state holds: the row of a bucket by name, the row of a file by bucket and
-- name, the bytes of a large object. `seen` is a large object as a transaction sees it, `cursor` the
-- object and the position of a descriptor of the transaction, `base` the state that it began in.
use Prim.Native.String.{String}
use locally_euclidean.Prelude.{
  ℕ, ◌+◌, ◌-◌, ◌^◌, scale, magnitude, ltb_ℤ, ◌≤◌, ◌<◌, ◌≡◌, ◌≢◌, ℤ, pos, Bool, true, false, Option,
  none, some, ok, err, [], ◌++◌, Bytes, length, take, drop,
}
use mathlib.Core.Option
use locally_euclidean.Storage.{IsDate}
use locally_euclidean.Postgres.{
  Postgres, Interval, TimeDelta, Sendable, of_microseconds, BucketRow, FileRow,
}

-- The bytes of an object after `d` has been written at the position `p`.
abbrev pub overwrite : ℕ → Bytes → Bytes → Bytes
overwrite p d c = take p c ++ (d ++ drop (p + length d) c)

-- `delete_after is not null and delete_after < now()`
abbrev pub is_past : ℤ → Option ℤ → Bool
is_past now none = false
is_past now (some t) = ltb_ℤ t now

-- An interval as the program writes them (`Sendable`).
abbrev pub IsPlain : Interval → Type 0
IsPlain i = (m : ℤ) × (i ≡ of_microseconds m) × (magnitude (scale m 1000) < 2 ^ 63)

pub record IsPostgres (P : Postgres) : Type 1 where
  pub bucket_row : P.Db → String → Option (BucketRow P.Uuid)
  pub file_row : P.Db → P.Uuid → String → Option (FileRow P.Uuid P.Oid)
  pub object : P.Db → P.Oid → Option Bytes
  -- The column `delete_after` of a file, and the clock.
  pub due : P.Db → P.Uuid → String → Option ℤ
  pub now : P.Db → ℤ
  -- The number of files that are due before a time.
  pub backlog : P.Db → ℤ → ℕ
  pub base : P.Tx → P.Db
  pub seen : P.Tx → P.Oid → Option Bytes
  pub cursor : P.Tx → ℤ → Option (P.Oid × ℕ)
  -- The server answers: to a new session, and to the session of the transaction.
  pub Up : P.Db → Type 0
  pub Live : P.Tx → Type 0
  -- The limits of a large object and of one `bytea` argument.
  pub max_object : ℕ
  pub max_bytea : ℕ
  pub max_object_i64 : max_object < 2 ^ 63
  pub max_bytea_i32 : max_bytea < 2 ^ 31
  -- Identifiers can be compared.
  pub uuid_discrete : Discrete P.Uuid
  pub oid_discrete : Discrete P.Oid
  -- The primary key of `buckets`.
  pub bucket_id_unique :
      (db : P.Db) (a b : String) (r s : BucketRow P.Uuid)
      → Up db
      → bucket_row db a ≡ some r
      → bucket_row db b ≡ some s
      → r.id ≡ s.id
      → a ≡ b
  -- Nobody but the program writes to `buckets`.
  pub default_ttl_IsPlain :
      (db : P.Db) (b : String) (r : BucketRow P.Uuid) (i : Interval)
      → Up db
      → bucket_row db b ≡ some r
      → r.default_ttl ≡ some i
      → IsPlain i
  pub seen_fits :
      (tx : P.Tx) (o : P.Oid) (c : Bytes) → Live tx → seen tx o ≡ some c → length c ≤ max_object
  pub begin_lem :
      (db : P.Db)
      → Up db
      → (tx : P.Tx) × (P.begin db ≡ ok tx)
        × Live tx
        × (base tx ≡ db)
        × ((o : P.Oid) → seen tx o ≡ object db o)
  -- `INV_READ | INV_WRITE`
  pub lo_open_lem :
      (tx : P.Tx) (o : P.Oid) (c : Bytes)
      → Live tx
      → seen tx o ≡ some c
      → (fd : ℤ) × (tx' : P.Tx) × (P.lo_open o (pos 0x60000) tx ≡ (ok (some fd), tx'))
        × Live tx'
        × (base tx' ≡ base tx)
        × ((j : P.Oid) → seen tx' j ≡ seen tx j)
        × (cursor tx' fd ≡ some (o, 0))
  -- `SEEK_SET`
  pub lo_lseek64_set :
      (tx : P.Tx) (fd : ℤ) (o : P.Oid) (p q : ℕ) (c : Bytes)
      → Live tx
      → cursor tx fd ≡ some (o, p)
      → seen tx o ≡ some c
      → q ≤ max_object
      → (tx' : P.Tx) × (P.lo_lseek64 fd (pos q) (pos 0) tx ≡ (ok (some (pos q)), tx'))
        × Live tx'
        × (base tx' ≡ base tx)
        × ((j : P.Oid) → seen tx' j ≡ seen tx j)
        × (cursor tx' fd ≡ some (o, q))
  -- `SEEK_END`
  pub lo_lseek64_end :
      (tx : P.Tx) (fd : ℤ) (o : P.Oid) (p : ℕ) (c : Bytes)
      → Live tx
      → cursor tx fd ≡ some (o, p)
      → seen tx o ≡ some c
      → (tx' : P.Tx) × (P.lo_lseek64 fd (pos 0) (pos 2) tx ≡ (ok (some (pos (length c))), tx'))
        × Live tx'
        × (base tx' ≡ base tx)
        × ((j : P.Oid) → seen tx' j ≡ seen tx j)
        × (cursor tx' fd ≡ some (o, length c))
  -- Fewer bytes than asked for are there only at the end of the object.
  pub loread_lem :
      (tx : P.Tx) (fd : ℤ) (o : P.Oid) (p n : ℕ) (c : Bytes)
      → Live tx
      → cursor tx fd ≡ some (o, p)
      → seen tx o ≡ some c
      → n < 2 ^ 31
      → (tx' : P.Tx) × (P.loread fd (pos n) tx ≡ (ok (some (take n (drop p c))), tx'))
        × Live tx'
        × (base tx' ≡ base tx)
        × ((j : P.Oid) → seen tx' j ≡ seen tx j)
        × (cursor tx' fd ≡ some (o, p + length (take n (drop p c))))
  pub lowrite_lem :
      (tx : P.Tx) (fd : ℤ) (o : P.Oid) (p : ℕ) (c d : Bytes)
      → Live tx
      → cursor tx fd ≡ some (o, p)
      → seen tx o ≡ some c
      → p ≤ length c
      → p + length d ≤ max_object
      → length d ≤ max_bytea
      → (tx' : P.Tx) × (P.lowrite fd d tx ≡ (ok (some (pos (length d))), tx'))
        × Live tx'
        × (base tx' ≡ base tx)
        × (seen tx' o ≡ some (overwrite p d c))
        × ((j : P.Oid) → j ≢ o → seen tx' j ≡ seen tx j)
        × (cursor tx' fd ≡ some (o, p + length d))
  pub lo_close_lem :
      (tx : P.Tx) (fd : ℤ) (o : P.Oid) (p : ℕ)
      → Live tx
      → cursor tx fd ≡ some (o, p)
      → (v : ℤ) × (tx' : P.Tx) × (P.lo_close fd tx ≡ (ok (some v), tx'))
        × Live tx'
        × (base tx' ≡ base tx)
        × ((j : P.Oid) → seen tx' j ≡ seen tx j)
  -- The transaction has written to no object but `o`, which no other has changed since it began;
  -- whatever else has been committed in the meantime stays.
  pub commit_lem :
      (tx : P.Tx) (db : P.Db) (o : P.Oid) (c before : Bytes)
      → Live tx
      → Up db
      → seen tx o ≡ some c
      → ((j : P.Oid) → j ≢ o → seen tx j ≡ object (base tx) j)
      → object (base tx) o ≡ some before
      → object db o ≡ some before
      → (db' : P.Db) × (P.commit tx db ≡ (ok tt, db'))
        × Up db'
        × (object db' o ≡ some c)
        × ((j : P.Oid) → j ≢ o → object db' j ≡ object db j)
        × ((b : String) → bucket_row db' b ≡ bucket_row db b)
        × ((i : P.Uuid) (n : String) → file_row db' i n ≡ file_row db i n)
  -- A transaction writes to no column of a table.
  pub commit_due :
      (tx : P.Tx) (db db' : P.Db)
      → P.commit tx db ≡ (ok tt, db')
      → (i : P.Uuid) (n : String) → due db' i n ≡ due db i n
  pub select_updated_at_lem :
      (tx : P.Tx) (i : P.Uuid) (n : String) (f : FileRow P.Uuid P.Oid)
      → Live tx
      → file_row (base tx) i n ≡ some f
      → (t : ℤ) × (tx' : P.Tx) × (P.select_updated_at f.id tx ≡ (ok t, tx'))
        × Live tx'
        × (base tx' ≡ base tx)
        × ((j : P.Oid) → seen tx' j ≡ seen tx j)
        × ((fd : ℤ) → cursor tx' fd ≡ cursor tx fd)
        × IsDate t
  pub select_bucket_lem :
      (db : P.Db) (b : String) → Up db → P.select_bucket db b ≡ ok (bucket_row db b)
  pub select_file_lem :
      (db : P.Db) (i : P.Uuid) (n : String) → Up db → P.select_file db i n ≡ ok (file_row db i n)
  -- The unique index on `(bucket_id, filename)`. A statement that fails changes nothing.
  pub insert_file_taken :
      (db : P.Db) (i : P.Uuid) (n : String) (t : Option ℤ) (f : FileRow P.Uuid P.Oid)
      → Up db
      → file_row db i n ≡ some f
      → (e : P.SqlError) × (P.insert_file i n t db ≡ (err e, db)) × (P.is_unique_violation e ≡ true)
  -- The bucket exists, as the foreign key asks; `lo_create(0)` makes a new and empty object.
  pub insert_file_new :
      (db : P.Db) (i : P.Uuid) (n b : String) (t : Option ℤ) (r : BucketRow P.Uuid)
      → Up db
      → bucket_row db b ≡ some r
      → r.id ≡ i
      → file_row db i n ≡ none
      → (f : FileRow P.Uuid P.Oid) × (db' : P.Db) × (P.insert_file i n t db ≡ (ok f, db'))
        × Up db'
        × (file_row db' i n ≡ some f)
        × ((j : P.Uuid) (m : String) → ¬ ((j ≡ i) × (m ≡ n)) → file_row db' j m ≡ file_row db j m)
        × ((a : String) → bucket_row db' a ≡ bucket_row db a)
        × (object db f.blob ≡ none)
        × (object db' f.blob ≡ some [])
        × ((o : P.Oid) → o ≢ f.blob → object db' o ≡ object db o)
  pub insert_file_due :
      (db db' : P.Db) (i : P.Uuid) (n : String) (t : Option ℤ) (f : FileRow P.Uuid P.Oid)
      → Up db
      → P.insert_file i n t db ≡ (ok f, db')
      → (due db' i n ≡ t)
        × ((j : P.Uuid) (m : String) → ¬ ((j ≡ i) × (m ≡ n)) → due db' j m ≡ due db j m)
  -- The unique index on `name`.
  pub insert_bucket_taken :
      (db : P.Db) (b : String) (t : Option TimeDelta) (m : Option ℤ) (r : BucketRow P.Uuid)
      → Up db
      → Sendable t m
      → bucket_row db b ≡ some r
      → (e : P.SqlError) × (P.insert_bucket b t db ≡ (err e, db)) × (P.is_unique_violation e ≡ true)
  -- No file refers to the new identifier, as the foreign key asks.
  pub insert_bucket_new :
      (db : P.Db) (b : String) (t : Option TimeDelta) (m : Option ℤ)
      → Up db
      → Sendable t m
      → bucket_row db b ≡ none
      → (u : P.Uuid) × (db' : P.Db) × (P.insert_bucket b t db ≡ (ok u, db'))
        × Up db'
        × (bucket_row db' b ≡ some (record { id = u; default_ttl = Option.map of_microseconds m }))
        × ((a : String) → a ≢ b → bucket_row db' a ≡ bucket_row db a)
        × ((v : P.Uuid) (n : String) → file_row db' v n ≡ file_row db v n)
        × ((n : String) → file_row db u n ≡ none)
        × ((o : P.Oid) → object db' o ≡ object db o)
  -- At most as many rows as the limit go, all of them expired; the trigger `lo_manage` unlinks their objects.
  pub delete_expired_lem :
      (limit : ℕ) (db : P.Db)
      → Up db
      → (k : ℕ) × (db' : P.Db) × (P.delete_expired limit db ≡ (ok k, db'))
        × Up db'
        × ((a : String) → bucket_row db' a ≡ bucket_row db a)
        × ((u : P.Uuid) (n : String) (f : FileRow P.Uuid P.Oid)
            → file_row db' u n ≡ some f
            → file_row db u n ≡ some f)
        × ((u : P.Uuid) (n : String)
            → is_past (now db) (due db u n) ≡ false
            → (file_row db' u n ≡ file_row db u n) × (due db' u n ≡ due db u n))
        × (k < limit
            → (u : P.Uuid) (n : String) → is_past (now db) (due db u n) ≡ true
            → file_row db' u n ≡ none)
        × ((o : P.Oid)
            → ((u : P.Uuid) (n : String) (f : FileRow P.Uuid P.Oid)
                → file_row db u n ≡ some f
                → f.blob ≡ o
                → file_row db' u n ≡ some f)
            → object db' o ≡ object db o)
        × ((u : P.Uuid) (n : String) (f : FileRow P.Uuid P.Oid)
            → file_row db u n ≡ some f
            → file_row db' u n ≡ none
            → object db' f.blob ≡ none)
  -- The batch is the first so many in the order of `delete_after`; the clock does not go back.
  pub delete_expired_backlog :
      (limit : ℕ) (db : P.Db) (t : ℤ)
      → Up db
      → ltb_ℤ (now db) t ≡ false
      → (backlog (P.delete_expired limit db).1 t ≤ backlog db t - limit)
        × (ltb_ℤ (now (P.delete_expired limit db).1) t ≡ false)
  pub backlog_zero :
      (db : P.Db) (t : ℤ) (u : P.Uuid) (n : String)
      → Up db
      → ltb_ℤ (now db) t ≡ false
      → backlog db t ≡ 0
      → is_past t (due db u n) ≡ true
      → file_row db u n ≡ none
