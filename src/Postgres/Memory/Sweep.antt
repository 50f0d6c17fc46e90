-- ===== src/Postgres/Memory/Sweep.antt =====
-- The server in memory deletes expired files as the law of that statement says.
use Prim.Native.String.{String}
use text.Mathlib.TextEquality.{eq_iff}
use locally_euclidean.Prelude.{
  ℕ, ℤ, ltb_ℤ, ◌≤◌, ◌-◌, ◌≢◌, suc, zero, ◌<◌, ◌==◌, ◌||◌, if◌then◌else◌, ◌≡◌, refl, sym, ◌∙◌, Bool,
  true, false, Bool-cases, inl, inr, Option, none, some, Option-cases, List, [], ◌∷◌, length, take,
  drop, length-take, take_all, arith,
}
use locally_euclidean.Postgres.{FileRow}
use locally_euclidean.Postgres.Memory.{Db, in_batch, unlinked, left_over, swept, count_due}
use locally_euclidean.Postgres.Laws.{is_past}
use locally_euclidean.Postgres.Memory.Objects.{UpDb}
use locally_euclidean.Postgres.Memory.Order.{
  Sorted-swept, Sorted-drop, count-swept, count-drop, count_some, past_later,
}

in_batch-take :
    (u : ℕ) (n : String) (m : ℕ) (ks : List (ℕ × String))
    → in_batch u n ks ≡ false
    → in_batch u n (take m ks) ≡ false
in_batch-take u n zero ks h = refl
in_batch-take u n (suc m) [] h = refl
in_batch-take u n (suc m) (k ∷ ks) h = ground (arith, in_batch-take u n m ks)

-- The object of a file of the batch is unlinked, and every object that is unlinked is one of those.
in_batch-unlinked :
    (files : ℕ → String → Option (FileRow ℕ ℕ)) (u : ℕ) (n : String) (f : FileRow ℕ ℕ)
    (ks : List (ℕ × String))
    → files u n ≡ some f
    → in_batch u n ks ≡ true
    → unlinked files f.blob ks ≡ true
in_batch-unlinked files u n f [] e h = cc
in_batch-unlinked files u n f (k ∷ ks) e h =
    ground (arith, in_batch-unlinked files u n f ks e, eq_iff n k.1)

or_right : (a : Bool) {b : Bool} → b ≡ true → (a || b) ≡ true
or_right true e = refl
or_right false e = e

first_in_batch : (k : ℕ × String) (ks : List (ℕ × String)) → in_batch k.0 k.1 (k ∷ ks) ≡ true
first_in_batch k ks = ground (arith, eq_iff k.1 k.1)

unlinked-found :
    (files : ℕ → String → Option (FileRow ℕ ℕ)) (o : ℕ) (ks : List (ℕ × String))
    → unlinked files o ks ≡ true
    → (u : ℕ) × (n : String) × (f : FileRow ℕ ℕ) × (files u n ≡ some f)
      × (f.blob ≡ o)
      × (in_batch u n ks ≡ true)
unlinked-found files o [] h = cc
unlinked-found files o (k ∷ ks) h = elim (Option-cases (files k.0 k.1)) [
  | inl absent ↦
      let (u, n, f, e, same, batch) = unlinked-found files o ks (rw absent at h) in
      (u, n, f, e, same, or_right _ batch)
  | inr (f, found) ↦ elim (Bool-cases (f.blob == o)) [
    | inl same ↦ (k.0, k.1, f, found, ground arith, first_in_batch k ks)
    | inr differ ↦
        let (u, n, g, e, same, batch) = unlinked-found files o ks (rw (found, differ) at h) in
        (u, n, g, e, same, or_right _ batch)
  ]
]

module _ {A : Type 0} where
  -- What is hidden under a test.
  hidden_none : (b : Bool) (x : Option A) → x ≡ none → (if b then none else x) ≡ none
  hidden_none true x e = refl
  hidden_none false x e = e

  hidden_some : (b : Bool) (x : Option A) (a : A) → (if b then none else x) ≡ some a → x ≡ some a
  hidden_some true x a e = cc
  hidden_some false x a e = e

hidden_undated :
    (b : Bool) (x : Option (FileRow ℕ ℕ)) (t : Option ℤ)
    → (if b then none else x) ≡ none
    → (x ≡ none → t ≡ none)
    → (if b then none else t) ≡ none
hidden_undated true x t e undated = refl
hidden_undated false x t e undated = undated e

kept_listed :
    (now : ℤ) (t : Option ℤ) (a b : Bool)
    → (a || b) ≡ is_past now t
    → (if a then false else b) ≡ is_past now (if a then none else t)
kept_listed now t true b e = refl
kept_listed now t false b e = e

left_over-in_batch :
    (u : ℕ) (n : String) (batch ks : List (ℕ × String))
    → in_batch u n (left_over batch ks) ≡ (if in_batch u n batch then false else in_batch u n ks)
left_over-in_batch u n batch [] = ground arith
left_over-in_batch u n batch (k ∷ ks) =
    ground (arith, left_over-in_batch u n batch ks, eq_iff n k.1)

in_batch-split :
    (u : ℕ) (n : String) (m : ℕ) (ks : List (ℕ × String))
    → in_batch u n ks ≡ (in_batch u n (take m ks) || in_batch u n (drop m ks))
in_batch-split u n zero ks = refl
in_batch-split u n (suc m) [] = refl
in_batch-split u n (suc m) (k ∷ ks) = ground (arith, in_batch-split u n m ks)

swept_listed :
    (limit : ℕ) (now : ℤ) (t : Option ℤ) (u : ℕ) (n : String) (ks : List (ℕ × String))
    → in_batch u n ks ≡ is_past now t
    → in_batch u n (left_over (take limit ks) (drop limit ks))
      ≡ is_past now (if in_batch u n (take limit ks) then none else t)
swept_listed limit now t u n ks listed =
    left_over-in_batch u n (take limit ks) (drop limit ks)
    ∙ kept_listed now t (in_batch u n (take limit ks)) (in_batch u n (drop limit ks))
        (sym (in_batch-split u n limit ks) ∙ listed)

module _ (limit : ℕ) (db : Db) where
  pub swept-UpDb : UpDb db → UpDb (swept limit db)
  swept-UpDb up = record {
    free = λ o le. hidden_none (unlinked db.files o (take limit db.expired)) _ (up.free o le);
    unique = up.unique;
    bucket_ids = up.bucket_ids;
    file_ids =
        λ u n f e. up.file_ids u n f (hidden_some (in_batch u n (take limit db.expired)) _ f e);
    listed = λ u n. swept_listed limit db.now (db.due u n) u n db.expired (up.listed u n);
    sorted =
        Sorted-swept db.due (take limit db.expired) (drop limit db.expired)
          (Sorted-drop db.due limit db.expired up.sorted);
    undated = λ u n e.
        hidden_undated (in_batch u n (take limit db.expired)) (db.files u n) (db.due u n) e
          (up.undated u n);
    plain = up.plain;
    fits = λ o c e. up.fits o c (hidden_some (unlinked db.files o (take limit db.expired)) _ c e);
  }

  pub swept_adds_none :
      (u : ℕ) (n : String) (f : FileRow ℕ ℕ)
      → (swept limit db).files u n ≡ some f
      → db.files u n ≡ some f
  swept_adds_none u n f e = hidden_some (in_batch u n (take limit db.expired)) _ f e

  pub swept_keeps :
      UpDb db
      → (u : ℕ) (n : String) → is_past db.now (db.due u n) ≡ false
      → ((swept limit db).files u n ≡ db.files u n) × ((swept limit db).due u n ≡ db.due u n)
  swept_keeps up u n h =
      let stays = in_batch-take u n limit db.expired (up.listed u n ∙ h) in (rw stays, rw stays)

  pub swept_clears :
      UpDb db
      → length (take limit db.expired) < limit
      → (u : ℕ) (n : String) → is_past db.now (db.due u n) ≡ true
      → (swept limit db).files u n ≡ none
  swept_clears up few u n h =
      let all = take_all limit db.expired (omega (arith, length-take limit db.expired)) in
      rw (all, up.listed u n, h)

  pub swept_object :
      (o : ℕ)
      → ((u : ℕ) (n : String) (f : FileRow ℕ ℕ)
          → db.files u n ≡ some f
          → f.blob ≡ o
          → (swept limit db).files u n ≡ some f)
      → (swept limit db).objects o ≡ db.objects o
  swept_object o kept = elim (Bool-cases (unlinked db.files o (take limit db.expired))) [
    | inl gone ↦
        let (u, n, f, found, same, batch) =
          unlinked-found db.files o (take limit db.expired) gone in
        let still : (swept limit db).files u n ≡ some f = kept u n f found same in
        cc (rw batch at still)
    | inr stays ↦ rw stays
  ]

  pub swept_unlinks :
      (u : ℕ) (n : String) (f : FileRow ℕ ℕ)
      → db.files u n ≡ some f
      → (swept limit db).files u n ≡ none
      → (swept limit db).objects f.blob ≡ none
  swept_unlinks u n f found gone = elim (Bool-cases (in_batch u n (take limit db.expired))) [
    | inl batch ↦ rw (in_batch-unlinked db.files u n f (take limit db.expired) found batch)
    | inr stays ↦ cc (sym found ∙ rw stays at gone)
  ]

  pub swept_backlog :
      (t : ℤ)
      → UpDb db
      → count_due (swept limit db).due t (swept limit db).expired
        ≤ count_due db.due t db.expired - limit
  swept_backlog t up = omega (
    arith,
    count-swept db.due t (take limit db.expired) (drop limit db.expired),
    count-drop db.due t limit db.expired up.sorted,
  )

module _ (db : Db) where
  pub backlog_some :
      (t : ℤ) (u : ℕ) (n : String)
      → UpDb db
      → ltb_ℤ db.now t ≡ false
      → is_past t (db.due u n) ≡ true
      → count_due db.due t db.expired ≢ 0
  backlog_some t u n up le past empty =
      let batch = up.listed u n ∙ past_later (db.due u n) t db.now past le in
      omega (arith, empty, count_some db.due t u n db.expired batch past)
