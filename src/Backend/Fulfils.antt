-- ===== src/Backend/Fulfils.antt =====
-- The storage layer of storage/src/postgres/mod.rs meets the contract that the server relies on,
-- over every server and every runtime that keep their laws.
use locally_euclidean.Prelude.{◌+◌, length, arith}
use locally_euclidean.Storage.Contract.{Contract}
use locally_euclidean.Postgres.{Postgres}
use locally_euclidean.Postgres.Laws.{IsPostgres}
use locally_euclidean.Runtime.{Runtime, IsTokio}
use locally_euclidean.Backend.Traits.{postgres_storage}
use locally_euclidean.Backend.View.{Ready, Names, has_bucket, content, SameFile, SameFile-refl}
use locally_euclidean.Backend.Holds.{Holds, Holds_after, file_at}
use locally_euclidean.Backend.Opens.{
  bucket_named_missing, bucket_named_found, open_file_missing, open_file_found, create_file_exists,
}
use locally_euclidean.Backend.Insert.{create_file_step}
use locally_euclidean.Backend.Commit.{commit_later}
use locally_euclidean.Backend.Append.{append_file, metadata_file}
use locally_euclidean.Backend.Adapters.{
  file_seek_start, file_seek_end, read_exact_full, read_exact_short, read_u8_byte, read_u8_end,
  reader_stream_all,
}

unfoldable pub fulfils :
    (P : Postgres) (R : Runtime) (L : IsPostgres P) → IsTokio R → Contract (postgres_storage P R)
fulfils P R L T = record {
  has_bucket = has_bucket P L;
  content = content P L;
  Up = Ready P L;
  Names = Names P L;
  Holds = Holds L;
  Same = SameFile P L;
  max_file = L.max_object;
  max_write = L.max_bytea;
  bucket_missing = bucket_named_missing P L;
  bucket_found = bucket_named_found P L;
  file_missing = open_file_missing P L;
  file_found = open_file_found P L;
  create_exists = create_file_exists P L R T;
  create_fresh = create_file_step P L R T;
  seek_start = λ h db k c p q holds le.
      let (i, e, s) =
        file_seek_start P R L T db holds.row.blob holds.row.id holds.position c holds.inner p q
          holds.stands le in
      (file_at P i q holds.row.id, rw (holds.is_handle, e), Holds_after L holds i q q c s);
  seek_end = λ h db k c p holds.
      let (i, e, s) =
        file_seek_end P R L T db holds.row.blob holds.row.id holds.position c holds.inner p
          holds.stands in
      (
        file_at P i (length c) holds.row.id,
        rw (holds.is_handle, e),
        Holds_after L holds i (length c) (length c) c s,
      );
  read_exact_full = λ h db k c p n holds le.
      let (i, e, s) =
        read_exact_full P R L T db holds.row.blob holds.row.id holds.position c n n holds.inner p
          holds.stands (omega arith) le in
      (
        file_at P i holds.position holds.row.id,
        rw (holds.is_handle, e),
        Holds_after L holds i holds.position (p + n) c s,
      );
  read_exact_short = λ h db k c p n holds le lt. rw holds.is_handle (
      read_exact_short P R L T db holds.row.blob holds.row.id holds.position c n n holds.inner p
        holds.stands (omega arith) le lt);
  read_u8_byte = λ h db k c p holds lt. rw holds.is_handle (
      read_u8_byte P R L T db holds.row.blob holds.row.id holds.position c holds.inner p
        holds.stands lt);
  read_u8_end = λ h db k c holds. rw holds.is_handle (
      read_u8_end P R L T db holds.row.blob holds.row.id holds.position c holds.inner holds.stands);
  reader_stream_lem = λ h db k c p m room holds le some_room lt. rw holds.is_handle (
      reader_stream_all P R L T db holds.row.blob holds.row.id holds.position c m room holds.inner p
        holds.stands le some_room lt);
  append_lem = append_file P R L T;
  metadata_lem = metadata_file P R L T;
  same_refl = λ w k up. SameFile-refl P L w k up.1;
  commit_lem = commit_later P L R;
}
