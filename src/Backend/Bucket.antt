-- ===== src/Backend/Bucket.antt =====
-- `PostgresBucket` and `PostgresBackend` of storage/src/postgres/mod.rs: the tables of buckets and
-- files.
use Prim.Native.String.{String}
use locally_euclidean.Prelude.{
  ℕ, ℤ, ◌+ℤ◌, scale, Option, none, some, Outcome, ok, panic, Exec, and_then, map_err, continue,
  ok_or, List, if◌then◌else◌,
}
use mathlib.Core.Option
use locally_euclidean.Storage.{BoxError, backend, FileOpenError, FileCreateError, file_exists}
use locally_euclidean.Faults.{FileHandleError, BucketError, Fault, file_handle, bucket}
use locally_euclidean.Postgres.{Postgres, Interval, TimeDelta, BucketRow}
use locally_euclidean.Runtime.{Runtime}
use locally_euclidean.Backend.File.{PostgresFileHandle, new_handle}

pub record PostgresBucket (P : Postgres) : Type 0 where
  pub id : P.Uuid
  pub default_ttl : Option TimeDelta

-- `TimeDelta::days(1)`
abbrev pub day : ℕ
day = 86_400_000_000_000

-- A month counts as 30 days.
unfoldable pub time_delta : Interval → TimeDelta
time_delta ttl =
    scale (scale ttl.months 30) day +ℤ scale ttl.days day +ℤ scale ttl.microseconds 1000

module _ (P : Postgres) where
  -- `From<FileHandleError>`, `From<BucketError>`
  abbrev open_from_handle : FileHandleError P.SqlError → FileOpenError (Fault P.SqlError)
  open_from_handle e = FileOpenError.other_error (backend (file_handle e))

  abbrev open_from_bucket : BucketError P.SqlError → FileOpenError (Fault P.SqlError)
  open_from_bucket e = FileOpenError.other_error (backend (bucket e))

  abbrev create_from_handle : FileHandleError P.SqlError → FileCreateError (Fault P.SqlError)
  create_from_handle e = FileCreateError.other_error (backend (file_handle e))

  -- A failed insert: a violation of a unique index is `FileExists`.
  insert_error : String → P.SqlError → FileCreateError (Fault P.SqlError)
  insert_error sql e =
      if P.is_unique_violation e
      then file_exists
      else FileCreateError.other_error (backend (bucket (BucketError.query_failed sql e)))

  -- `PostgresBucket::by_name`
  unfoldable pub by_name :
      String → P.Db → Outcome (BucketError P.SqlError) (Option (PostgresBucket P))
  unfolding time_delta
  by_name name db =
      and_then
        (map_err
          (BucketError.query_failed
            "select id as \"id: BucketId\", default_ttl from buckets where name = $1")
          (P.select_bucket db name))
        (λ row. ok (
          Option.map
            (λ (r : BucketRow P.Uuid). record {
              id = r.id;
              default_ttl = Option.map time_delta r.default_ttl;
            })
            row))

  -- `PostgresBucket::list`, and `StorageBackend::list_buckets`
  unfoldable pub list_buckets : P.Db → Outcome (BoxError (Fault P.SqlError)) (List String)
  list_buckets db =
      map_err (λ e. backend (bucket (BucketError.query_failed "select name from buckets" e)))
        (P.select_bucket_names db)

  -- `PostgresBucket::create`, and `PostgresBackend::create_bucket`
  unfoldable pub create_bucket :
      String → Option TimeDelta → Exec P.Db (FileCreateError (Fault P.SqlError)) (PostgresBucket P)
  unfolding insert_error
  create_bucket name default_ttl db =
      continue
        (map_err
          (insert_error
            "insert into buckets (name, default_ttl) values ($1, $2) returning id as \"id: BucketId\"")
          (P.insert_bucket name default_ttl db).0)
        (λ id later. (ok (record { id = id; default_ttl = default_ttl }), later))
        (P.insert_bucket name default_ttl db).1

  -- `StorageBackend::bucket`
  unfoldable pub bucket_named :
      P.Db → String → Outcome (FileOpenError (Fault P.SqlError)) (PostgresBucket P)
  unfolding by_name
  bucket_named db name =
      and_then (map_err open_from_bucket (by_name name db)) (ok_or FileOpenError.does_not_exist)

  -- `Bucket::file`
  unfoldable pub open_file :
      P.Db
      → PostgresBucket P
      → String
      → Outcome (FileOpenError (Fault P.SqlError)) (PostgresFileHandle P)
  unfolding new_handle
  open_file db self file_name =
      and_then
        (map_err
          (λ e. open_from_bucket (
            BucketError.query_failed
              "select id as \"id: FileId\", blob from files where bucket_id = $1 and filename = $2"
              e))
          (P.select_file db self.id file_name))
        (λ found.
          and_then (ok_or FileOpenError.does_not_exist found)
            (λ row. map_err open_from_handle (new_handle P db row.blob row.id)))

abbrev representable : {E : Type 0} → Option ℤ → Outcome E (Option ℤ)
representable none = panic
representable (some at) = ok (some at)

module _ (R : Runtime) where
  -- `self.default_ttl.map(|ttl| Utc::now() + ttl)`
  unfoldable pub delete_after : {E : Type 0} → Option TimeDelta → Outcome E (Option ℤ)
  delete_after none = ok none
  delete_after (some ttl) = representable (R.from_now ttl)

module _ (P : Postgres) (R : Runtime) where
  -- `Bucket::create_file`: the insert commits on its own, before the handle is opened.
  unfoldable pub create_file :
      PostgresBucket P
      → String
      → Exec P.Db (FileCreateError (Fault P.SqlError)) (PostgresFileHandle P)
  unfolding insert_error new_handle delete_after
  create_file self file_name = continue (delete_after R self.default_ttl) (λ until db.
      continue
        (map_err
          (insert_error P
            "insert into files (bucket_id, filename, delete_after, blob) values ($1, $2, $3, lo_create(0)) returning id as \"id: FileId\", blob")
          (P.insert_file self.id file_name until db).0)
        (λ row later. (map_err (create_from_handle P) (new_handle P later row.blob row.id), later))
        (P.insert_file self.id file_name until db).1)
