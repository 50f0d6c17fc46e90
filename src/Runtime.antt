-- ===== src/Runtime.antt =====
-- What the program takes from its asynchronous runtime: the adapters of tokio over `AsyncRead`,
-- `AsyncWrite` and `AsyncSeek`, how often an operation that is awaited is polled in vain, and the
-- clock. None of it is in this repository, so it is a parameter, with what tokio documents as laws.
--
-- An adapter is given the polled method as an operation on the handle: `read n` is one finished
-- `poll_read` into a buffer with room for `n` bytes, `write d` one finished `poll_write`, which says
-- how much of `d` it took.
pub mod Direct
use locally_euclidean.Prelude.{
  ℕ, zero, suc, ◌^◌, ◌<◌, Option, some, magnitude, ℤ, ◌-◌, ◌≡◌, Outcome, ok, err, panic, Exec,
  continue, ◌>>◌, List, [], ◌∷◌, ◌++◌, Bytes, length, drop,
}
use locally_euclidean.Postgres.{TimeDelta}
use locally_euclidean.Storage.{IoError, unexpected_eof, write_zero, SeekFrom}

pub record Runtime : Type 1 where
  pub pendings : ℕ
  -- `Utc::now() + ttl`, as a time in microseconds; it panics (`none`) beyond the last time that chrono
  -- can represent.
  pub from_now : TimeDelta → Option ℤ
  -- `AsyncSeekExt::seek`, from `poll_complete` and `start_seek`
  pub seek :
      (H F : Type 0)
      → Exec H (IoError F) ℕ
      → (SeekFrom → Exec H (IoError F) Unit)
      → SeekFrom
      → Exec H (IoError F) ℕ
  -- `AsyncReadExt::read_exact` and `read_u8`
  pub read_exact : (H F : Type 0) → (ℕ → Exec H (IoError F) Bytes) → ℕ → Exec H (IoError F) Bytes
  pub read_u8 : (H F : Type 0) → (ℕ → Exec H (IoError F) Bytes) → Exec H (IoError F) ℕ
  -- `AsyncWriteExt::write_all`
  pub write_all : (H F : Type 0) → (Bytes → Exec H (IoError F) ℕ) → Bytes → Exec H (IoError F) Unit
  -- The first items of `ReaderStream::with_capacity`.
  pub reader_stream :
      (H F : Type 0) → (ℕ → Exec H (IoError F) Bytes) → ℕ → ℕ → H → List (Outcome (IoError F) Bytes)

module _ {H F : Type 0} where
  abbrev pub prepend : Bytes → Outcome (IoError F) Bytes × H → Outcome (IoError F) Bytes × H
  prepend buf (ok more, h) = (ok (buf ++ more), h)
  prepend buf (err e, h) = (err e, h)
  prepend buf (panic, h) = (panic, h)

  -- A read that gives nothing is the end of the file.
  abbrev pub fill : (ℕ → Exec H (IoError F) Bytes) → ℕ → Bytes → Exec H (IoError F) Bytes
  fill more n [] h = (err unexpected_eof, h)
  fill more n (x ∷ xs) h = prepend (x ∷ xs) (more (n - length (x ∷ xs)) h)

  abbrev pub first_byte : Bytes → Exec H (IoError F) ℕ
  first_byte [] h = (err unexpected_eof, h)
  first_byte (x ∷ xs) h = (ok x, h)

  -- A write that takes nothing is an error.
  abbrev pub pour : (Bytes → Exec H (IoError F) Unit) → Bytes → ℕ → Exec H (IoError F) Unit
  pour more d zero h = (err write_zero, h)
  pour more d (suc n) h = more (drop (suc n) d) h

  -- A stream ends at the end of the file and after an error.
  abbrev pub item :
      (H → List (Outcome (IoError F) Bytes))
      → Outcome (IoError F) Bytes
      → H
      → List (Outcome (IoError F) Bytes)
  item more (ok []) h = []
  item more (ok (x ∷ xs)) h = ok (x ∷ xs) ∷ more h
  item more (err e) h = err e ∷ []
  item more panic h = panic ∷ []

pub record IsTokio (R : Runtime) : Type 1 where
  -- From now on there are more than the 292 years of an `i64` of nanoseconds left.
  pub from_now_lem : (t : TimeDelta) → magnitude t < 2 ^ 63 → (at : ℤ) × (R.from_now t ≡ some at)
  -- The seek in progress, if any, is awaited first.
  pub seek_lem :
      (H F : Type 0) (poll_complete : Exec H (IoError F) ℕ)
      (start_seek : SeekFrom → Exec H (IoError F) Unit) (q : SeekFrom) (h : H)
      → R.seek H F poll_complete start_seek q h
        ≡ (poll_complete >> (start_seek q >> poll_complete)) h
  pub read_exact_zero :
      (H F : Type 0) (read : ℕ → Exec H (IoError F) Bytes) (h : H)
      → R.read_exact H F read 0 h ≡ (ok [], h)
  pub read_exact_suc :
      (H F : Type 0) (read : ℕ → Exec H (IoError F) Bytes) (n : ℕ) (h : H)
      → R.read_exact H F read (suc n) h
        ≡ continue (read (suc n) h).0 (fill (R.read_exact H F read) (suc n)) (read (suc n) h).1
  pub read_u8_lem :
      (H F : Type 0) (read : ℕ → Exec H (IoError F) Bytes) (h : H)
      → R.read_u8 H F read h ≡ continue (read 1 h).0 first_byte (read 1 h).1
  pub write_all_nil :
      (H F : Type 0) (write : Bytes → Exec H (IoError F) ℕ) (h : H)
      → R.write_all H F write [] h ≡ (ok tt, h)
  pub write_all_cons :
      (H F : Type 0) (write : Bytes → Exec H (IoError F) ℕ) (x : ℕ) (d : Bytes) (h : H)
      → R.write_all H F write (x ∷ d) h
        ≡ continue (write (x ∷ d) h).0 (pour (R.write_all H F write) (x ∷ d)) (write (x ∷ d) h).1
  pub reader_stream_zero :
      (H F : Type 0) (read : ℕ → Exec H (IoError F) Bytes) (cap : ℕ) (h : H)
      → R.reader_stream H F read 0 cap h ≡ []
  pub reader_stream_suc :
      (H F : Type 0) (read : ℕ → Exec H (IoError F) Bytes) (m cap : ℕ) (h : H)
      → R.reader_stream H F read (suc m) cap h
        ≡ item (R.reader_stream H F read m cap) (read cap h).0 (read cap h).1
