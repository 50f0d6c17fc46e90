-- ===== src/Postgres.antt =====
-- The database server as the program uses it, through sqlx: one operation for each SQL statement of
-- storage/src/postgres/mod.rs and storage/src/postgres/blob.rs, over an unknown state. `Db` is what
-- has been committed, `Tx` an open transaction, which is a value of its own: to drop it is to roll
-- it back. The server is not in this repository, so it is a parameter; Postgres/Laws says what is
-- relied on, and Postgres/Memory gives a server in memory that meets it.
pub mod Laws
pub mod Memory
use Prim.Native.String.{String}
use locally_euclidean.Prelude.{
  ℕ, ◌^◌, ◌<◌, ◌≡◌, ℤ, pos, scale, magnitude, Bool, Option, none, some, Outcome, Exec, List, Bytes,
}

-- `PgInterval`
pub record Interval : Type 0 where
  pub months : ℤ
  pub days : ℤ
  pub microseconds : ℤ

-- The interval of a number of microseconds.
abbrev pub of_microseconds : ℤ → Interval
of_microseconds t = record { months = pos 0; days = pos 0; microseconds = t }

-- chrono's `TimeDelta`, a number of nanoseconds.
abbrev pub TimeDelta : Type 0
TimeDelta = ℤ

-- What sqlx can send as an interval: no time to live, or one that is a whole number of microseconds
-- (the second argument) and fits an `i64` of nanoseconds.
abbrev pub Sendable : Option TimeDelta → Option ℤ → Type 0
Sendable none none = Unit
Sendable (some t) (some m) = (t ≡ scale m 1000) × (magnitude t < 2 ^ 63)
Sendable _ _ = ⊥

-- `select id, default_ttl from buckets where name = $1`
pub record BucketRow (Uuid : Type 0) : Type 0 where
  pub id : Uuid
  pub default_ttl : Option Interval

-- `select id, blob from files where bucket_id = $1 and filename = $2`
pub record FileRow (Uuid Oid : Type 0) : Type 0 where
  pub id : Uuid
  pub blob : Oid

pub record Postgres : Type 1 where
  pub Db : Type 0
  pub Tx : Type 0
  pub SqlError : Type 0
  pub Uuid : Type 0
  pub Oid : Type 0
  -- `err.kind() == SqlxErrorKind::UniqueViolation`, for an `SqlxError::Database(err)`
  pub is_unique_violation : SqlError → Bool
  pub begin : Db → Outcome SqlError Tx
  pub commit : Tx → Exec Db SqlError Unit
  -- `select lo_open($1, $2)` and so on: a query may answer with a null.
  pub lo_open : Oid → ℤ → Exec Tx SqlError (Option ℤ)
  pub lo_lseek64 : ℤ → ℤ → ℤ → Exec Tx SqlError (Option ℤ)
  pub loread : ℤ → ℤ → Exec Tx SqlError (Option Bytes)
  pub lowrite : ℤ → Bytes → Exec Tx SqlError (Option ℤ)
  pub lo_close : ℤ → Exec Tx SqlError (Option ℤ)
  pub select_updated_at : Uuid → Exec Tx SqlError ℤ
  pub select_bucket : Db → String → Outcome SqlError (Option (BucketRow Uuid))
  pub select_bucket_names : Db → Outcome SqlError (List String)
  pub insert_bucket : String → Option TimeDelta → Exec Db SqlError Uuid
  pub select_file : Db → Uuid → String → Outcome SqlError (Option (FileRow Uuid Oid))
  -- `delete_after` is a time in microseconds.
  pub insert_file : Uuid → String → Option ℤ → Exec Db SqlError (FileRow Uuid Oid)
  -- `with deletion_batch as (..) delete from files ..`, with the number of rows affected.
  -- The statement of `delete_old_files_batch`, with its limit.
  pub delete_expired : ℕ → Exec Db SqlError ℕ
