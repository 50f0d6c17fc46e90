-- ===== src/Blob/Bounds.antt =====
-- How much a poll of `BlobHandle` in storage/src/postgres/blob.rs reads, over any server that gives no
-- more than it is asked for.
use locally_euclidean.Prelude.{
  ℕ, ◌≤◌, ◌^◌, ◌<◌, min, ◌≡◌, ◌≢◌, sym, ap, subst, ℤ, pos, as_i32_small, Option, none, some,
  Outcome, ok, err, panic, ok-injective, Outcome-cases, inl, inr, Bytes, length, le→leb, arith,
}
use locally_euclidean.Faults.{FileHandleError}
use locally_euclidean.Postgres.{Postgres}
use locally_euclidean.Blob.Inner.{BlobHandleInner, read}
use locally_euclidean.Blob.Handle.{poll_read, put_slice, with_inner, mib}
use locally_euclidean.Blob.Awaited.{await_poll}
use locally_euclidean.Blob.Polls.{idle, await_read}

module _ (P : Postgres)
    (modest : (fd : ℤ) (n : ℕ) (tx : P.Tx) (bytes : Bytes)
      → (P.loread fd (pos n) tx).0 ≡ ok (some bytes)
      → length bytes ≤ n)
    (steady : (fd n : ℤ) (tx : P.Tx) → (P.loread fd n tx).0 ≢ panic) where
  -- Bytes that are no more than the count, or an error.
  abbrev Bounded : {E : Type 0} → ℕ → Outcome E Bytes → Type 0
  Bounded m (ok bytes) = length bytes ≤ m
  Bounded m (err e) = Unit
  Bounded m panic = ⊥

  read-Bounded : (m : ℕ) (i : BlobHandleInner P) → m < 2 ^ 31 → Bounded m (read P m i).0
  unfolding read
  read-Bounded m i small =
      rw (as_i32_small m small) (elim (Outcome-cases (P.loread i.fd_num (pos m) i.transaction).0) [
        | inl (none, e) ↦ rw e tt
        | inl (some bytes, e) ↦ rw e (modest i.fd_num m i.transaction bytes e)
        | inr (inl (x, e)) ↦ rw e tt
        | inr (inr e) ↦ absurd (steady i.fd_num (pos m) i.transaction e)
      ])

  with_inner-Bounded :
      (m : ℕ) (inner : Option (BlobHandleInner P))
      → m < 2 ^ 31
      → Bounded m (with_inner P (read P m) inner).0
  unfolding with_inner
  with_inner-Bounded m none small = tt
  with_inner-Bounded m (some i) small = read-Bounded m i small

  put_slice-Bounded :
      (n m : ℕ) (r : Outcome (FileHandleError P.SqlError) Bytes)
      → m ≤ n
      → Bounded m r
      → Bounded m (put_slice P n r)
  unfolding put_slice
  put_slice-Bounded n m (ok bytes) le bounded =
      rw (le→leb (length bytes) n (omega (arith, bounded))) bounded
  put_slice-Bounded n m (err e) le bounded = tt
  put_slice-Bounded n m panic le bounded = bounded

  Bounded-means :
      {E : Type 0} (m : ℕ) (r : Outcome E Bytes)
      → Bounded m r
      → (r ≢ panic) × ((bytes : Bytes) → r ≡ ok bytes → length bytes ≤ m)
  Bounded-means m (ok bytes) bounded =
      (λ e. cc, λ other e. subst (λ b. length b ≤ m) (ok-injective e) bounded)
  Bounded-means m (err x) bounded = (λ e. cc, λ other e. cc)
  Bounded-means m panic bounded = absurd bounded

  -- Over any server that gives no more bytes than it is asked for and does not panic, an awaited read
  -- on an idle handle, closed or open, does not panic, and gives no more bytes than the buffer has room
  -- for, and 16 MiB at most: no cast of the count wraps, and the bytes always fit the buffer.
  pub await_read_bounded :
      (k n position : ℕ) (inner : Option (BlobHandleInner P))
      → let r = (await_poll (λ finished. poll_read P finished n) k (idle P inner position)).0 in
        (r ≢ panic) × ((bytes : Bytes) → r ≡ ok bytes → length bytes ≤ min n 0x1000000)
  unfolding mib
  await_read_bounded k n position inner = Bounded-means (min n 0x1000000) _ (
      subst (Bounded (min n 0x1000000)) (sym (ap (λ s. s.0) (await_read P inner position k n))) (
        put_slice-Bounded n (min n 0x1000000) _ (omega arith)
          (with_inner-Bounded (min n 0x1000000) inner (omega arith))))
