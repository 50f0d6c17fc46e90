-- ===== src/Postgres/Memory/Merge.antt =====
-- The server in memory commits a transaction as the law of that statement says: what it has changed
-- is merged into what has been committed in the meantime.
use native.Mathlib.Decide.{ℕ_discrete}
use locally_euclidean.Prelude.{
  ℕ, ◌≡◌, ◌≢◌, refl, sym, ◌∙◌, Bool-cases, inl, inr, true, Option, none, some, Bytes, ap,
  bytes_eq→eq, bytes_eq_refl,
}
use locally_euclidean.Postgres.Memory.{Db, Tx, same_object, committed}
use locally_euclidean.Postgres.Memory.Objects.{UpDb, LiveTx}

same_object→eq : (c d : Option Bytes) → same_object c d ≡ true → c ≡ d
same_object→eq none none h = refl
same_object→eq none (some d) h = cc
same_object→eq (some c) none h = cc
same_object→eq (some c) (some d) h = ap (λ x. some x) (bytes_eq→eq c d h)

same_object_refl : (c : Option Bytes) → same_object c c ≡ true
same_object_refl none = refl
same_object_refl (some c) = bytes_eq_refl c

module _ (tx : Tx) (db : Db) where
  pub committed_else :
      (j : ℕ) → tx.view j ≡ tx.begun.objects j → (committed tx db).objects j ≡ db.objects j
  committed_else j e = rw (e, same_object_refl (tx.begun.objects j))

  pub committed_at :
      (o : ℕ) (c before : Bytes)
      → tx.view o ≡ some c
      → tx.begun.objects o ≡ some before
      → db.objects o ≡ some before
      → (committed tx db).objects o ≡ some c
  committed_at o c before sees then_there still_there =
      elim (Bool-cases (same_object (tx.view o) (tx.begun.objects o))) [
        | inl same ↦
            let unchanged = same_object→eq (tx.view o) (tx.begun.objects o) same in
            rw same (still_there ∙ sym then_there ∙ sym unchanged ∙ sees)
        | inr differ ↦ rw differ sees
      ]

  pub committed-UpDb :
      (o : ℕ) (before : Bytes)
      → LiveTx tx
      → UpDb db
      → ((j : ℕ) → j ≢ o → tx.view j ≡ tx.begun.objects j)
      → db.objects o ≡ some before
      → UpDb (committed tx db)
  committed-UpDb o before live up others still_there = record {
    free = λ j le. elim (ℕ_discrete j o) [
      | yes same ↦ cc (sym (up.free o (rw (← same) le)) ∙ still_there)
      | no ne ↦ committed_else j (others j ne) ∙ up.free j le
    ];
    unique = up.unique;
    bucket_ids = up.bucket_ids;
    file_ids = up.file_ids;
    listed = up.listed;
    sorted = up.sorted;
    undated = up.undated;
    plain = up.plain;
    fits = λ j c e. elim (Bool-cases (same_object (tx.view j) (tx.begun.objects j))) [
      | inl same ↦ up.fits j c (rw same at e)
      | inr differ ↦ live.fits j c (rw differ at e)
    ];
  }
