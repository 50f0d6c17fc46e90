-- ===== src/Backend/Times.antt =====
-- The times to live of storage/src/postgres/mod.rs: how they are read from the table of buckets, and
-- the time after which a file may be deleted.
use Prim.Native.String.{String}
use mathlib.Core.Option
use locally_euclidean.Prelude.{
  ◌≡◌, ◌<◌, ◌≤◌, ◌+◌, ◌-◌, ◌*◌, ◌^◌, ℕ, refl, sym, ◌∙◌, ap, subst, ℤ, pos, negsuc, ◌+ℤ◌, scale,
  magnitude, Option, none, some, Option-cases, inl, inr, ok, arith,
}
use locally_euclidean.Postgres.{Postgres, Interval, TimeDelta, Sendable, of_microseconds}
use locally_euclidean.Postgres.Laws.{IsPostgres, IsPlain}
use locally_euclidean.Runtime.{Runtime, IsTokio}
use locally_euclidean.Backend.Bucket.{PostgresBucket, day, time_delta, delete_after}
use locally_euclidean.Backend.View.{Names}

zero_add : (t : ℤ) → pos 0 +ℤ t ≡ t
zero_add (pos n) = ground arith
zero_add (negsuc n) = ground arith

time_delta-of_microseconds : (m : ℤ) → time_delta (of_microseconds m) ≡ scale m 1000
unfolding time_delta
time_delta-of_microseconds m = zero_add (scale m 1000)

-- The time to live is read as it was written.
pub ttl_kept :
    (t : Option TimeDelta) (m : Option ℤ)
    → Sendable t m
    → Option.map time_delta (Option.map of_microseconds m) ≡ t
ttl_kept none none whole = refl
ttl_kept none (some m) whole = absurd whole
ttl_kept (some t) none whole = absurd whole
ttl_kept (some t) (some m) whole = ap (λ x. some x) (time_delta-of_microseconds m ∙ sym whole.0)

IsPlain-magnitude : (i : Interval) → IsPlain i → magnitude (time_delta i) < 2 ^ 63
IsPlain-magnitude i (m, plain, fits) =
    subst (λ t. magnitude t < 2 ^ 63) (sym (ap time_delta plain ∙ time_delta-of_microseconds m))
      fits

module _ (R : Runtime) (T : IsTokio R) {E : Type 0} where
  delete_after-some :
      (i : Interval)
      → IsPlain i
      → (until : Option ℤ) × (delete_after R {E = E} (some (time_delta i)) ≡ ok until)
  unfolding delete_after
  delete_after-some i plain =
      let (at, e) = T.from_now_lem (time_delta i) (IsPlain-magnitude i plain) in (some at, rw e)

  -- Over a server that answers, the time after which a new file may be deleted can be represented.
  pub delete_after-ok :
      (P : Postgres) (L : IsPostgres P) (db : P.Db) (bk : PostgresBucket P) (b : String)
      → L.Up db
      → Names P L db bk b
      → (until : Option ℤ) × (delete_after R {E = E} bk.default_ttl ≡ ok until)
  unfolding delete_after
  delete_after-ok P L db bk b up (r, there, id, ttl) = elim (Option-cases r.default_ttl) [
    | inl forever ↦ (none, rw (ttl, forever))
    | inr (i, limited) ↦
        let (until, e) = delete_after-some i (L.default_ttl_IsPlain db b r i up there limited) in
        (until, rw (ttl, limited) e)
  ]

-- What a Postgres interval holds: `i32` months and days, and `i64` microseconds.
abbrev pub IsPgInterval : Interval → Type 0
IsPgInterval i =
    (magnitude i.months ≤ 2 ^ 31)
    × (magnitude i.days ≤ 2 ^ 31)
    × (magnitude i.microseconds ≤ 2 ^ 63)

-- `TimeDelta::MAX` in nanoseconds, an `i64` of milliseconds.
abbrev pub longest : ℕ
longest = (2 ^ 63 - 1) * 1_000_000

magnitude-add : (a b : ℤ) → magnitude (a +ℤ b) ≤ magnitude a + magnitude b
magnitude-add (pos a) (pos b) = ground arith
magnitude-add (pos a) (negsuc b) = ground arith
magnitude-add (negsuc a) (pos b) = ground arith
magnitude-add (negsuc a) (negsuc b) = ground arith

magnitude-scale : (a : ℤ) (k : ℕ) → magnitude (scale a k) ≤ magnitude a * k
magnitude-scale (pos a) k = ground arith
magnitude-scale (negsuc a) k = ground arith

-- For any interval that Postgres can hold, the computation of a time to live stays within what `i64` and
-- chrono's `TimeDelta` can hold, at each of its steps: the days of the months, the three summands,
-- the first sum and the result.
pub time_delta_in_range :
    (i : Interval)
    → IsPgInterval i
    → (magnitude (scale i.months 30) < 2 ^ 63)
      × (magnitude (scale (scale i.months 30) day) ≤ longest)
      × (magnitude (scale i.days day) ≤ longest)
      × (magnitude (scale i.microseconds 1000) ≤ longest)
      × (magnitude (scale (scale i.months 30) day +ℤ scale i.days day) ≤ longest)
      × (magnitude (time_delta i) ≤ longest)
unfolding time_delta
time_delta_in_range i (months, days, microseconds) =
    let thirty = magnitude-scale i.months 30 in
    let first = magnitude-scale (scale i.months 30) day in
    let second = magnitude-scale i.days day in
    let third = magnitude-scale i.microseconds 1000 in
    let sum = magnitude-add (scale (scale i.months 30) day) (scale i.days day) in
    let total =
      magnitude-add (scale (scale i.months 30) day +ℤ scale i.days day)
        (scale i.microseconds 1000) in
    (omega arith, omega arith, omega arith, omega arith, omega arith, omega arith)
