-- ===== src/Postgres/Memory/Reads.antt =====
-- The server in memory gives no more bytes than it is asked for, and does not panic.
use mathlib.Core.Option.{some-injective}
use locally_euclidean.Prelude.{
  ℕ, ◌≤◌, ◌≡◌, ◌≢◌, subst, ok-injective, ℤ, pos, negsuc, Option, none, some, ok, panic, Bytes,
  length, drop, length-take, arith,
}
use locally_euclidean.Postgres.Memory.{Tx, memory, taken, with_descriptor}

taken_modest :
    (n o p : ℕ) (view : Option Bytes) (tx : Tx) (bytes : Bytes)
    → (taken (pos n) o p view tx).0 ≡ ok (some bytes)
    → length bytes ≤ n
taken_modest n o p none tx bytes e = cc
taken_modest n o p (some c) tx bytes e =
    subst (λ b. length b ≤ n) (some-injective _ _ (ok-injective e))
      (omega (arith, length-take n (drop p c)))

modest_at :
    (at : Option (ℕ × ℕ)) (n : ℕ) (tx : Tx) (bytes : Bytes)
    → (with_descriptor (taken (pos n)) at tx).0 ≡ ok (some bytes)
    → length bytes ≤ n
modest_at none n tx bytes e = cc
modest_at (some (o, p)) n tx bytes e = taken_modest n o p (tx.view o) tx bytes e

pub memory_modest :
    (fd : ℤ) (n : ℕ) (tx : Tx) (bytes : Bytes)
    → (memory.loread fd (pos n) tx).0 ≡ ok (some bytes)
    → length bytes ≤ n
memory_modest fd n tx = modest_at tx.descriptor n tx

taken_steady : (n : ℤ) (o p : ℕ) (view : Option Bytes) (tx : Tx) → (taken n o p view tx).0 ≢ panic
taken_steady (pos n) o p (some c) tx e = cc
taken_steady (pos n) o p none tx e = cc
taken_steady (negsuc n) o p view tx e = cc

steady_at : (at : Option (ℕ × ℕ)) (n : ℤ) (tx : Tx) → (with_descriptor (taken n) at tx).0 ≢ panic
steady_at none n tx e = cc
steady_at (some (o, p)) n tx e = taken_steady n o p (tx.view o) tx e

pub memory_steady : (fd n : ℤ) (tx : Tx) → (memory.loread fd n tx).0 ≢ panic
memory_steady fd n tx = steady_at tx.descriptor n tx
