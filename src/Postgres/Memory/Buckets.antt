-- ===== src/Postgres/Memory/Buckets.antt =====
-- The server in memory inserts buckets as the laws of that statement say.
use Prim.Native.String.{String}
use mathlib.Core.Option
use text.Mathlib.TextEquality.{eq_iff}
use locally_euclidean.Prelude.{
  ℕ, ◌≡◌, ◌≢◌, refl, sym, subst, ap, ◌∙◌, ◌<◌, ◌^◌, ℤ, pos, negsuc, scale, magnitude, Option, none,
  some, Option-cases, inl, inr, String-discrete, arith,
}
use mathlib.Core.Option.{some-injective}
use locally_euclidean.Postgres.{Interval, TimeDelta, Sendable, of_microseconds, BucketRow}
use locally_euclidean.Postgres.Laws.{IsPlain}
use locally_euclidean.Postgres.Memory.{Db, micros, with_bucket}
use locally_euclidean.Postgres.Memory.Objects.{UpDb}

module _ (db : Db) where
  pub no_file : UpDb db → (n : String) → db.files db.next n ≡ none
  no_file up n = elim (Option-cases (db.files db.next n)) [
    | inl absent ↦ absent
    | inr (f, found) ↦ absurd (omega (arith, up.file_ids db.next n f found))
  ]

micros-scale : (m : ℤ) → micros (scale m 1000) ≡ m
micros-scale (pos n) = ground arith
micros-scale (negsuc n) = ground arith

sent :
    (t : Option TimeDelta) (m : Option ℤ)
    → Sendable t m
    → Option.map (λ d. of_microseconds (micros d)) t ≡ Option.map of_microseconds m
sent none none whole = refl
sent none (some m) whole = absurd whole
sent (some t) none whole = absurd whole
sent (some t) (some m) whole =
    ap (λ d. some (of_microseconds d)) (ap micros whole.0 ∙ micros-scale m)

sent-IsPlain :
    (t : Option TimeDelta) (m : Option ℤ) (i : Interval)
    → Sendable t m
    → Option.map (λ d. of_microseconds (micros d)) t ≡ some i
    → IsPlain i
sent-IsPlain none m i whole e = cc
sent-IsPlain (some t) none i whole e = absurd whole
sent-IsPlain (some t) (some m) i whole e = (
  m,
  sym (some-injective _ _ e) ∙ ap of_microseconds (ap micros whole.0 ∙ micros-scale m),
  subst (λ d. magnitude d < 2 ^ 63) whole.0 whole.1,
)

module _ (db : Db) (b : String) (t : Option TimeDelta) (m : Option ℤ) (whole : Sendable t m) where
  pub new_bucket :
      (with_bucket b t db).buckets b
      ≡ some (record { id = db.next; default_ttl = Option.map of_microseconds m })
  new_bucket = rw (← sent t m whole) (ground (arith, eq_iff b b))

  pub old_bucket : (a : String) → a ≢ b → (with_bucket b t db).buckets a ≡ db.buckets a
  old_bucket a ne = ground (arith, eq_iff a b)

  plain_of_new :
      (a : String) (r : BucketRow ℕ) (i : Interval)
      → a ≡ b
      → (with_bucket b t db).buckets a ≡ some r
      → r.default_ttl ≡ some i
      → Option.map (λ d. of_microseconds (micros d)) t ≡ some i
  plain_of_new a r i same e e' = ground (arith, eq_iff a b)

  pub with_bucket-UpDb : UpDb db → UpDb (with_bucket b t db)
  with_bucket-UpDb up = record {
    free = λ o le. up.free o (omega arith);
    unique = λ a c r s e e' same.
        ground
          (arith, eq_iff a b, eq_iff c b, up.unique a c r s, up.bucket_ids a r, up.bucket_ids c s);
    bucket_ids = λ a r e. ground (arith, eq_iff a b, up.bucket_ids a r);
    file_ids = λ u n f e. omega (arith, up.file_ids u n f e);
    listed = up.listed;
    sorted = up.sorted;
    undated = up.undated;
    plain = λ a r i e e'. elim (String-discrete a b) [
      | yes same ↦ sent-IsPlain t m i whole (plain_of_new a r i same e e')
      | no other ↦ up.plain a r i (sym (old_bucket a other) ∙ e) e'
    ];
    fits = up.fits;
  }
