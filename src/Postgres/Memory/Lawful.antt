-- ===== src/Postgres/Memory/Lawful.antt =====
-- The server in memory keeps the laws that the storage layer relies on.
use Prim.Native.String.{String}
use native.Mathlib.Nat.{zero-add}
use text.Mathlib.Text.{◌==◌ as str_eq}
use native.Mathlib.Decide.{ℕ_discrete}
use text.Mathlib.TextEquality.{eq_iff}
use locally_euclidean.Prelude.{
  false, ℕ, suc, ◌+◌, ◌==◌, ◌&&◌, if◌then◌else◌, ◌<◌, ◌≡◌, refl, sym, subst, ◌∙◌, ap, ℤ, pos,
  Option, none, some, Option-cases, inl, inr, ok, [], length, take, drop, arith,
}
use locally_euclidean.Postgres.{FileRow}
use locally_euclidean.Postgres.Laws.{IsPostgres, is_past, overwrite}
use locally_euclidean.Postgres.Memory.{
  Db, memory, update, unique_violation, swept, committed, in_batch, with_bucket, count_due, dated,
  placed,
}
use locally_euclidean.Postgres.Memory.Buckets.{with_bucket-UpDb, new_bucket, old_bucket, no_file}
use locally_euclidean.Postgres.Memory.Merge.{committed-UpDb, committed_at, committed_else}
use locally_euclidean.Postgres.Memory.Sweep.{
  swept-UpDb, swept_adds_none, swept_keeps, swept_clears, swept_object, swept_unlinks,
  swept_backlog, backlog_some,
}
use locally_euclidean.Postgres.Memory.Order.{Sorted-placed, in_batch-placed}
use locally_euclidean.Postgres.Memory.Objects.{
  UpDb, LiveTx, largest, largest_bytea, moved-LiveTx, written-LiveTx,
}

module _ (db : Db) (u : ℕ) (n : String) (t : Option ℤ) (up : UpDb db) where
  abbrev pub new_row : FileRow ℕ ℕ
  new_row = record { id = db.next; blob = db.next }

  abbrev pub new_db : Db
  new_db = record db {
    files = λ v m. if v == u && str_eq m n then some new_row else db.files v m;
    objects = update db.objects db.next [];
    due = dated db.due u n t;
    expired = placed (dated db.due u n t) db.now t (u, n) db.expired;
    next = suc db.next;
  }

  pub inserted_new : db.files u n ≡ none → memory.insert_file u n t db ≡ (ok new_row, new_db)
  inserted_new free = rw free

  not_listed : db.files u n ≡ none → in_batch u n db.expired ≡ false
  not_listed free = up.listed u n ∙ rw (up.undated u n free) refl

  new_listed :
      db.files u n ≡ none
      → (v : ℕ) (m : String) → in_batch v m new_db.expired ≡ is_past db.now (new_db.due v m)
  new_listed free v m =
      in_batch-placed db.due u n db.now db.expired t v m (not_listed free) (up.listed v m)

  pub new_db-UpDb : db.files u n ≡ none → u < db.next → UpDb new_db
  new_db-UpDb free low = record {
    free = λ o le. ground (arith, up.free o);
    unique = up.unique;
    bucket_ids = λ a r e. omega (arith, up.bucket_ids a r e);
    file_ids = λ v m f e. ground (arith, eq_iff m n, up.file_ids v m f);
    listed = new_listed free;
    sorted = Sorted-placed db.due u n db.now db.expired t (not_listed free) up.sorted;
    undated = λ v m e. ground (arith, eq_iff m n, up.undated v m);
    plain = up.plain;
    fits = λ o c e. ground (arith, up.fits o c);
  }

  pub new_due :
      (new_db.due u n ≡ t)
      × ((v : ℕ) (m : String) → ¬ ((v ≡ u) × (m ≡ n)) → new_db.due v m ≡ db.due v m)
  new_due = (ground (arith, eq_iff n n), λ v m differ. ground (arith, eq_iff m n))

  pub new_files : new_db.files u n ≡ some new_row
  new_files = ground (arith, eq_iff n n)

  pub old_files : (v : ℕ) (m : String) → ¬ ((v ≡ u) × (m ≡ n)) → new_db.files v m ≡ db.files v m
  old_files v m differ = ground (arith, eq_iff m n)

unfoldable pub memory-IsPostgres : IsPostgres memory
memory-IsPostgres = record {
  bucket_row = λ db. db.buckets;
  file_row = λ db. db.files;
  object = λ db. db.objects;
  due = λ db. db.due;
  now = λ db. db.now;
  backlog = λ db t. count_due db.due t db.expired;
  base = λ tx. tx.begun;
  seen = λ tx. tx.view;
  cursor = λ tx fd. tx.descriptor;
  Up = UpDb;
  Live = LiveTx;
  max_object = largest;
  max_bytea = largest_bytea;
  max_object_i64 = omega arith;
  max_bytea_i32 = omega arith;
  uuid_discrete = ℕ_discrete;
  oid_discrete = ℕ_discrete;
  bucket_id_unique = λ db a b r s up. up.unique a b r s;
  default_ttl_IsPlain = λ db b r i up. up.plain b r i;
  seen_fits = λ tx o c live. live.fits o c;
  begin_lem = λ db up. (
    record { begun = db; view = db.objects; descriptor = none },
    refl,
    record { free = up.free; fits = up.fits },
    refl,
    λ o. refl,
  );
  lo_open_lem = λ tx o c live seen. (
    pos 0,
    record tx { descriptor = some (o, 0) },
    rw seen,
    moved-LiveTx tx live _,
    refl,
    λ j. refl,
    refl,
  );
  lo_lseek64_set = λ tx fd o p q c live at seen le. (
    record tx { descriptor = some (o, q) },
    rw (at, seen),
    moved-LiveTx tx live _,
    refl,
    λ j. refl,
    refl,
  );
  lo_lseek64_end = λ tx fd o p c live at seen. (
    record tx { descriptor = some (o, length c) },
    rw (at, seen, zero-add),
    moved-LiveTx tx live _,
    refl,
    λ j. refl,
    refl,
  );
  loread_lem = λ tx fd o p n c live at seen lt. (
    record tx { descriptor = some (o, p + length (take n (drop p c))) },
    rw (at, seen),
    moved-LiveTx tx live _,
    refl,
    λ j. refl,
    refl,
  );
  lowrite_lem = λ tx fd o p c d live at seen le fits short. (
    record tx { view = update tx.view o (overwrite p d c); descriptor = some (o, p + length d) },
    rw (at, seen),
    written-LiveTx tx live o p c d _ seen le fits,
    refl,
    ground arith,
    λ j ne. ground arith,
    refl,
  );
  lo_close_lem = λ tx fd o p live at.
      (pos 0, record tx { descriptor = none }, refl, moved-LiveTx tx live _, refl, λ j. refl);
  commit_lem = λ tx db o c before live up sees others then_there still_there. (
    committed tx db,
    refl,
    committed-UpDb tx db o before live up others still_there,
    committed_at tx db o c before sees then_there still_there,
    λ j ne. committed_else tx db j (others j ne),
    λ b. refl,
    λ i n. refl,
  );
  commit_due = λ tx db db' e i n. ap (λ d. d.due i n) (sym (ap (λ p. p.1) e));
  select_updated_at_lem =
      λ tx i n f live found. (pos 0, tx, refl, live, refl, λ j. refl, λ fd. refl, omega arith);
  select_bucket_lem = λ db b up. refl;
  select_file_lem = λ db i n up. refl;
  insert_file_taken = λ db i n t f up found. (unique_violation, rw found, refl);
  insert_file_new = λ db i n b t r up there id free. (
    new_row db i n t up,
    new_db db i n t up,
    inserted_new db i n t up free,
    new_db-UpDb db i n t up free (rw (← id) (up.bucket_ids b r there)),
    new_files db i n t up,
    old_files db i n t up,
    λ a. refl,
    up.free db.next (omega arith),
    ground arith,
    λ o ne. ground arith,
  );
  insert_file_due = λ db db' i n t f up e. elim (Option-cases (db.files i n)) [
    | inl free ↦
        subst
          (λ d.
            (d.due i n ≡ t)
            × ((j : ℕ) (m : String) → ¬ ((j ≡ i) × (m ≡ n)) → d.due j m ≡ db.due j m))
          (ap (λ p. p.1) (sym (inserted_new db i n t up free) ∙ e)) (new_due db i n t up)
    | inr (g, found) ↦ cc (rw found at e)
  ];
  insert_bucket_taken = λ db b t m r up whole there. (unique_violation, rw there, refl);
  insert_bucket_new = λ db b t m up whole free. (
    db.next,
    with_bucket b t db,
    rw free,
    with_bucket-UpDb db b t m whole up,
    new_bucket db b t m whole,
    old_bucket db b t m whole,
    λ v n. refl,
    no_file db up,
    λ o. refl,
  );
  delete_expired_lem = λ limit db up. (
    length (take limit db.expired),
    swept limit db,
    refl,
    swept-UpDb limit db up,
    λ a. refl,
    swept_adds_none limit db,
    swept_keeps limit db up,
    swept_clears limit db up,
    swept_object limit db,
    swept_unlinks limit db,
  );
  delete_expired_backlog = λ limit db t up le. (swept_backlog limit db t up, le);
  backlog_zero = λ db t u n up le empty past. absurd (backlog_some db t u n up le past empty);
}
