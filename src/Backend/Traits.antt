-- ===== src/Backend/Traits.antt =====
-- The traits of storage/src/lib.rs as storage/src/postgres/mod.rs implements them.
use locally_euclidean.Storage.{Storage}
use locally_euclidean.Faults.{Fault}
use locally_euclidean.Postgres.{Postgres}
use locally_euclidean.Runtime.{Runtime}
use locally_euclidean.Backend.File.{
  PostgresFileHandle, file_read, file_seek, append, metadata, commit,
}
use locally_euclidean.Backend.Bucket.{PostgresBucket, bucket_named, open_file, create_file}

module _ (P : Postgres) (R : Runtime) where
  -- The traits' implementations, with tokio's adapters over the file handle.
  abbrev pub postgres_storage : Storage
  postgres_storage = record {
    Fault = Fault P.SqlError;
    World = P.Db;
    Bucket = PostgresBucket P;
    FileHandle = PostgresFileHandle P;
    bucket = bucket_named P;
    file = open_file P;
    create_file = create_file P R;
    seek = file_seek P R;
    read = file_read P R;
    read_exact = R.read_exact (PostgresFileHandle P) (Fault P.SqlError) (file_read P R);
    read_u8 = R.read_u8 (PostgresFileHandle P) (Fault P.SqlError) (file_read P R);
    reader_stream = R.reader_stream (PostgresFileHandle P) (Fault P.SqlError) (file_read P R);
    append = append P R;
    metadata = metadata P R;
    commit = commit P R;
  }
