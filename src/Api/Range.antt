-- ===== src/Api/Range.antt =====
-- `check_range_matches` of server/src/api.rs: compares a request body with a range of a file.
pub mod Verdict
pub mod Broken
pub mod Total
use locally_euclidean.Prelude.{
  ℕ, Outcome, ok, err, panic, Exec, ◌>>◌, mapping_err, [], ◌∷◌, Bytes, length, bytes_eq,
  if◌then◌else◌,
}
use locally_euclidean.Storage.{Storage, IoError, unexpected_eof, start}
use locally_euclidean.Api.{Cause, io, body, chunk, broken, Body}

pub data RangeMatch : Type 0 where
  matches length_mismatch data_mismatch : RangeMatch

module _ (S : Storage) where
  -- The last `match`: any byte left in the file is a mismatch of lengths.
  end_of_range : Outcome (IoError S.Fault) ℕ → Outcome (Cause S.Fault) RangeMatch
  end_of_range (ok _) = ok length_mismatch
  end_of_range (err unexpected_eof) = ok matches
  end_of_range (err e) = err (io e)
  end_of_range panic = panic

  -- What follows `file.read_exact(&mut buf)` for one chunk; `rest` is the next round of the loop.
  compare_chunk :
      Bytes
      → Exec S.FileHandle (Cause S.Fault) RangeMatch
      → Outcome (IoError S.Fault) Bytes
      → Exec S.FileHandle (Cause S.Fault) RangeMatch
  compare_chunk d rest (ok buf) h = if bytes_eq buf d then rest h else (ok data_mismatch, h)
  compare_chunk d rest (err unexpected_eof) h = (ok length_mismatch, h)
  compare_chunk d rest (err e) h = (err (io e), h)
  compare_chunk d rest panic h = (panic, h)

  -- `while let Some(data) = stream.try_next().await?`
  compare_chunks : Body → Exec S.FileHandle (Cause S.Fault) RangeMatch
  compare_chunks [] h = (end_of_range (S.read_u8 h).0, (S.read_u8 h).1)
  compare_chunks (broken ∷ stream) h = (err body, h)
  compare_chunks (chunk d ∷ stream) h =
      compare_chunk d (compare_chunks stream) (S.read_exact (length d) h).0
        (S.read_exact (length d) h).1

  unfoldable pub check_range_matches : Body → ℕ → Exec S.FileHandle (Cause S.Fault) RangeMatch
  unfolding compare_chunks compare_chunk end_of_range
  check_range_matches stream start_position = do
    mapping_err io (S.seek (start start_position))
    compare_chunks stream
