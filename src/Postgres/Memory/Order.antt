-- ===== src/Postgres/Memory/Order.antt =====
-- The server in memory keeps the files that have expired in the order in which they were due, and so
-- deletes those first that were due first.
use Prim.Native.String.{String}
use text.Mathlib.Text.{◌==◌ as str_eq}
use text.Mathlib.TextEquality.{eq_iff}
use locally_euclidean.Prelude.{
  ℕ, ◌≤◌, ◌<◌, ◌-◌, zero, suc, ◌==◌, ◌&&◌, ◌||◌, if◌then◌else◌, ◌≡◌, refl, ℤ, pos, negsuc, ltb_ℤ,
  true, false, Bool-cases, inl, inr, Option, none, some, List, [], ◌∷◌, drop, arith,
}
use locally_euclidean.Postgres.Laws.{is_past}
use locally_euclidean.Postgres.Memory.{in_batch, left_over, count_due, in_order, dated, placed}
use locally_euclidean.Postgres.Memory.Objects.{Sorted}

pub ltb_trans : (a b c : ℤ) → ltb_ℤ a b ≡ true → ltb_ℤ c b ≡ false → ltb_ℤ a c ≡ true
ltb_trans (pos a) (pos b) (pos c) = ground arith
ltb_trans (pos a) (pos b) (negsuc c) = ground arith
ltb_trans (pos a) (negsuc b) c = ground arith
ltb_trans (negsuc a) (pos b) (pos c) = ground arith
ltb_trans (negsuc a) (pos b) (negsuc c) = ground arith
ltb_trans (negsuc a) (negsuc b) (pos c) = ground arith
ltb_trans (negsuc a) (negsuc b) (negsuc c) = ground arith

pub trans_ltb : (a b c : ℤ) → ltb_ℤ b a ≡ false → ltb_ℤ b c ≡ true → ltb_ℤ a c ≡ true
trans_ltb (pos a) (pos b) (pos c) = ground arith
trans_ltb (pos a) (pos b) (negsuc c) = ground arith
trans_ltb a (negsuc b) (pos c) = ground arith
trans_ltb (pos a) (negsuc b) (negsuc c) = ground arith
trans_ltb (negsuc a) (negsuc b) (negsuc c) = ground arith
trans_ltb (negsuc a) (pos b) (pos c) = ground arith
trans_ltb (negsuc a) (pos b) (negsuc c) = ground arith

ltb_asym : (a b : ℤ) → ltb_ℤ a b ≡ true → ltb_ℤ b a ≡ false
ltb_asym (pos a) (pos b) = ground arith
ltb_asym (pos a) (negsuc b) = ground arith
ltb_asym (negsuc a) (pos b) = ground arith
ltb_asym (negsuc a) (negsuc b) = ground arith

-- What is due before `b` is due before every later time.
pub past_later :
    (x : Option ℤ) (b c : ℤ) → is_past b x ≡ true → ltb_ℤ c b ≡ false → is_past c x ≡ true
past_later none b c past le = cc
past_later (some a) b c past le = ltb_trans a b c past le

-- What is due before `c`, and not before `a`, tells that `a` is before `c`.
past_between :
    (x : Option ℤ) (a c : ℤ) → is_past a x ≡ false → is_past c x ≡ true → ltb_ℤ a c ≡ true
past_between none a c ahead past = cc
past_between (some b) a c ahead past = trans_ltb a b c ahead past

module _ (due : ℕ → String → Option ℤ) where
  pub in_batch-in_order :
      (v : ℕ) (m : String) (t : ℤ) (k : ℕ × String) (ks : List (ℕ × String))
      → in_batch v m (in_order due t k ks) ≡ ((v == k.0 && str_eq m k.1) || in_batch v m ks)
  in_batch-in_order v m t k [] = refl
  in_batch-in_order v m t k (j ∷ js) = ground (arith, in_batch-in_order v m t k js)

  count-in_order :
      (s t : ℤ) (k : ℕ × String) (ks : List (ℕ × String))
      → count_due due s (in_order due t k ks) ≡ count_due due s (k ∷ ks)
  count-in_order s t k [] = refl
  count-in_order s t k (j ∷ js) = ground (arith, count-in_order s t k js)

  pub count_some :
      (t : ℤ) (u : ℕ) (n : String) (ks : List (ℕ × String))
      → in_batch u n ks ≡ true
      → is_past t (due u n) ≡ true
      → 0 < count_due due t ks
  count_some t u n [] batch past = cc
  count_some t u n (k ∷ ks) batch past = ground (arith, eq_iff n k.1, count_some t u n ks)

  head_past :
      (s : ℤ) (j : ℕ × String) (js : List (ℕ × String))
      → 0 < count_due due s (j ∷ js)
      → (0 < count_due due s js → is_past s (due j.0 j.1) ≡ true)
      → is_past s (due j.0 j.1) ≡ true
  head_past s j js some_past first = elim (Bool-cases (is_past s (due j.0 j.1))) [
    | inl past ↦ past
    | inr ahead ↦ first (rw ahead at some_past)
  ]

  pub Sorted-in_order :
      (t : ℤ) (k : ℕ × String) (ks : List (ℕ × String))
      → due k.0 k.1 ≡ some t
      → Sorted due ks
      → Sorted due (in_order due t k ks)
  Sorted-in_order t k [] at sorted = (λ s some_past. absurd (omega (arith, some_past)), tt)
  Sorted-in_order t k (j ∷ js) at (first, sorted) = elim (Bool-cases (is_past t (due j.0 j.1))) [
    | inl before ↦ rw before (
      (λ s some_past. elim (Bool-cases (is_past s (due k.0 k.1))) [
        | inl past ↦ past_later (due j.0 j.1) t s before (ltb_asym t s (rw at at past))
        | inr ahead ↦ first s (rw (count-in_order s t k js, ahead) at some_past)
      ]),
      Sorted-in_order t k js at sorted,
    )
    | inr behind ↦ rw behind (
      (λ s some_past.
          rw at (past_between (due j.0 j.1) t s behind (head_past s j js some_past (first s)))),
      (first, sorted),
    )
  ]

  pub Sorted-drop : (m : ℕ) (ks : List (ℕ × String)) → Sorted due ks → Sorted due (drop m ks)
  Sorted-drop zero ks sorted = sorted
  Sorted-drop (suc m) [] sorted = tt
  Sorted-drop (suc m) (k ∷ ks) sorted = Sorted-drop m ks sorted.1

  -- The first files of the list are those that are counted first.
  pub count-drop :
      (t : ℤ) (m : ℕ) (ks : List (ℕ × String))
      → Sorted due ks
      → count_due due t (drop m ks) ≤ count_due due t ks - m
  count-drop t zero ks sorted = omega arith
  count-drop t (suc m) [] sorted = omega arith
  count-drop t (suc m) (k ∷ ks) (first, sorted) = ground (arith, count-drop t m ks sorted, first t)

  -- The files of a batch have no date any more.
  abbrev pub swept_due : List (ℕ × String) → ℕ → String → Option ℤ
  swept_due batch u n = if in_batch u n batch then none else due u n

  pub count-swept :
      (t : ℤ) (batch ks : List (ℕ × String))
      → count_due (swept_due batch) t (left_over batch ks) ≤ count_due due t ks
  count-swept t batch [] = omega arith
  count-swept t batch (k ∷ ks) = ground (arith, count-swept t batch ks)

  pub Sorted-swept :
      (batch ks : List (ℕ × String)) → Sorted due ks → Sorted (swept_due batch) (left_over batch ks)
  Sorted-swept batch [] sorted = tt
  Sorted-swept batch (k ∷ ks) (first, sorted) = elim (Bool-cases (in_batch k.0 k.1 batch)) [
    | inl gone ↦ rw gone (Sorted-swept batch ks sorted)
    | inr stays ↦ rw stays (
      (λ s some_past. rw stays (first s (omega (arith, count-swept s batch ks, some_past)))),
      Sorted-swept batch ks sorted,
    )
  ]

module _ (due : ℕ → String → Option ℤ) (u : ℕ) (n : String) (t : Option ℤ) where
  not_first :
      (k : ℕ × String) (ks : List (ℕ × String))
      → in_batch u n (k ∷ ks) ≡ false
      → (dated due u n t k.0 k.1 ≡ due k.0 k.1) × (in_batch u n ks ≡ false)
  not_first k ks new = (ground (arith, eq_iff n k.1, eq_iff k.1 n), ground arith)

  dated_at : dated due u n t u n ≡ t
  dated_at = ground (arith, eq_iff n n)

  -- The date of a file that is not in the list does not matter.
  count-dated :
      (s : ℤ) (ks : List (ℕ × String))
      → in_batch u n ks ≡ false
      → count_due (dated due u n t) s ks ≡ count_due due s ks
  count-dated s [] new = refl
  count-dated s (k ∷ ks) new = ground (arith, count-dated s ks, eq_iff n k.1, eq_iff k.1 n)

  Sorted-dated :
      (ks : List (ℕ × String))
      → in_batch u n ks ≡ false
      → Sorted due ks
      → Sorted (dated due u n t) ks
  Sorted-dated [] new sorted = tt
  Sorted-dated (k ∷ ks) new (first, sorted) =
      let (other, new') = not_first k ks new in
      (
        λ s some_past. rw other (first s (rw (count-dated s ks new') at some_past)),
        Sorted-dated ks new' sorted,
      )

module _ (due : ℕ → String → Option ℤ) (u : ℕ) (n : String) (now : ℤ) (ks : List (ℕ × String)) where
  pub Sorted-placed :
      (t : Option ℤ)
      → in_batch u n ks ≡ false
      → Sorted due ks
      → Sorted (dated due u n t) (placed (dated due u n t) now t (u, n) ks)
  Sorted-placed none new sorted = Sorted-dated due u n none ks new sorted
  Sorted-placed (some t) new sorted = elim (Bool-cases (ltb_ℤ t now)) [
    | inl past ↦ rw past (
        Sorted-in_order (dated due u n (some t)) t (u, n) ks (dated_at due u n (some t))
          (Sorted-dated due u n (some t) ks new sorted))
    | inr ahead ↦ rw ahead (Sorted-dated due u n (some t) ks new sorted)
  ]

  pub in_batch-placed :
      (t : Option ℤ) (v : ℕ) (m : String)
      → in_batch u n ks ≡ false
      → in_batch v m ks ≡ is_past now (due v m)
      → in_batch v m (placed (dated due u n t) now t (u, n) ks) ≡ is_past now (dated due u n t v m)
  in_batch-placed none v m new listed = ground (arith, eq_iff m n)
  in_batch-placed (some t) v m new listed = elim (Bool-cases (ltb_ℤ t now)) [
    | inl past ↦
        rw (past, in_batch-in_order (dated due u n (some t)) v m t (u, n) ks)
          (ground (arith, eq_iff m n))
    | inr ahead ↦ rw ahead (ground (arith, eq_iff m n))
  ]
