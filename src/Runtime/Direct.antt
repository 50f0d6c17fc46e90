-- ===== src/Runtime/Direct.antt =====
-- A runtime that runs every adapter straight through, to run the program on concrete inputs: the
-- laws of `IsTokio` can hold.
use locally_euclidean.Prelude.{
  ℕ, zero, suc, pos, ◌-◌, ◌≤◌, ◌≡◌, refl, ap, Outcome, some, ok, err, panic, Exec, continue, ◌>>◌,
  List, [], ◌∷◌, Bytes, length, drop, length-drop, ◌+ℤ◌, arith,
}
use locally_euclidean.Storage.{IoError}
use locally_euclidean.Runtime.{Runtime, IsTokio, prepend, fill, first_byte, pour, item}

module _ {H F : Type 0} where
  -- Fuel bounds the rounds; a round takes one byte at least.
  read_loop : (ℕ → Exec H (IoError F) Bytes) → ℕ → ℕ → Exec H (IoError F) Bytes
  read_loop read fuel zero h = (ok [], h)
  read_loop read zero (suc n) h = (ok [], h)
  read_loop read (suc fuel) (suc n) h =
      continue (read (suc n) h).0 (fill (read_loop read fuel) (suc n)) (read (suc n) h).1

  write_loop : (Bytes → Exec H (IoError F) ℕ) → ℕ → Bytes → Exec H (IoError F) Unit
  write_loop write fuel [] h = (ok tt, h)
  write_loop write zero (x ∷ d) h = (ok tt, h)
  write_loop write (suc fuel) (x ∷ d) h =
      continue (write (x ∷ d) h).0 (pour (write_loop write fuel) (x ∷ d)) (write (x ∷ d) h).1

  stream_items : (ℕ → Exec H (IoError F) Bytes) → ℕ → ℕ → H → List (Outcome (IoError F) Bytes)
  stream_items read zero cap h = []
  stream_items read (suc m) cap h = item (stream_items read m cap) (read cap h).0 (read cap h).1

  continue-fill :
      (f g : ℕ → Exec H (IoError F) Bytes) (n : ℕ)
      → ((m : ℕ) (h : H) → m ≤ n → f m h ≡ g m h)
      → (r : Outcome (IoError F) Bytes) (h : H)
      → continue r (fill f (suc n)) h ≡ continue r (fill g (suc n)) h
  continue-fill f g n same (ok []) h = refl
  continue-fill f g n same (ok (x ∷ xs)) h =
      ap (prepend (x ∷ xs)) (same (suc n - length (x ∷ xs)) h (omega arith))
  continue-fill f g n same (err e) h = refl
  continue-fill f g n same panic h = refl

  read_loop_fuel :
      (read : ℕ → Exec H (IoError F) Bytes) (f g n : ℕ) (h : H)
      → n ≤ f
      → n ≤ g
      → read_loop read f n h ≡ read_loop read g n h
  unfolding read_loop
  read_loop_fuel read f g zero h p q = refl
  read_loop_fuel read zero g (suc n) h p q = absurd (omega arith)
  read_loop_fuel read (suc f) zero (suc n) h p q = absurd (omega arith)
  read_loop_fuel read (suc f) (suc g) (suc n) h p q =
      continue-fill (read_loop read f) (read_loop read g) n
        (λ m h' r. read_loop_fuel read f g m h' (omega arith) (omega arith)) (read (suc n) h).0
        (read (suc n) h).1

  continue-pour :
      (f g : Bytes → Exec H (IoError F) Unit) (x : ℕ) (d : Bytes)
      → ((e : Bytes) (h : H) → length e ≤ length d → f e h ≡ g e h)
      → (r : Outcome (IoError F) ℕ) (h : H)
      → continue r (pour f (x ∷ d)) h ≡ continue r (pour g (x ∷ d)) h
  continue-pour f g x d same (ok zero) h = refl
  continue-pour f g x d same (ok (suc n)) h = same (drop n d) h (omega (arith, length-drop n d))
  continue-pour f g x d same (err e) h = refl
  continue-pour f g x d same panic h = refl

  write_loop_fuel :
      (write : Bytes → Exec H (IoError F) ℕ) (f g : ℕ) (d : Bytes) (h : H)
      → length d ≤ f
      → length d ≤ g
      → write_loop write f d h ≡ write_loop write g d h
  unfolding write_loop
  write_loop_fuel write f g [] h p q = refl
  write_loop_fuel write zero g (x ∷ d) h p q = absurd (omega arith)
  write_loop_fuel write (suc f) zero (x ∷ d) h p q = absurd (omega arith)
  write_loop_fuel write (suc f) (suc g) (x ∷ d) h p q =
      continue-pour (write_loop write f) (write_loop write g) x d
        (λ e h' r. write_loop_fuel write f g e h' (omega arith) (omega arith)) (write (x ∷ d) h).0
        (write (x ∷ d) h).1

  read_loop-suc :
      (read : ℕ → Exec H (IoError F) Bytes) (n : ℕ) (h : H)
      → read_loop read (suc n) (suc n) h
        ≡ continue (read (suc n) h).0 (fill (λ m. read_loop read m m) (suc n)) (read (suc n) h).1
  unfolding read_loop
  read_loop-suc read n h =
      continue-fill (read_loop read n) (λ m. read_loop read m m) n
        (λ m h' r. read_loop_fuel read n m m h' r (omega arith)) (read (suc n) h).0
        (read (suc n) h).1

  write_loop-cons :
      (write : Bytes → Exec H (IoError F) ℕ) (x : ℕ) (d : Bytes) (h : H)
      → write_loop write (length (x ∷ d)) (x ∷ d) h
        ≡ continue
            (write (x ∷ d) h).0
            (pour (λ e. write_loop write (length e) e) (x ∷ d))
            (write (x ∷ d) h).1
  unfolding write_loop
  write_loop-cons write x d h =
      continue-pour (write_loop write (length d)) (λ e. write_loop write (length e) e) x d
        (λ e h' r. write_loop_fuel write (length d) (length e) e h' r (omega arith))
        (write (x ∷ d) h).0 (write (x ∷ d) h).1

unfoldable pub direct : Runtime
unfolding read_loop write_loop stream_items
direct = record {
  pendings = 2;
  from_now = λ ttl. some (pos 1000 +ℤ ttl);
  seek = λ H F poll_complete start_seek q. poll_complete >> (start_seek q >> poll_complete);
  read_exact = λ H F read n. read_loop read n n;
  read_u8 = λ H F read h. continue (read 1 h).0 first_byte (read 1 h).1;
  write_all = λ H F write d. write_loop write (length d) d;
  reader_stream = λ H F read. stream_items read;
}

pub direct-IsTokio : IsTokio direct
unfolding direct
direct-IsTokio = record {
  from_now_lem = λ t fits. (_, refl);
  seek_lem = λ H F poll_complete start_seek q h. refl;
  read_exact_zero = λ H F read h. refl;
  read_exact_suc = λ H F read n h. read_loop-suc read n h;
  read_u8_lem = λ H F read h. refl;
  write_all_nil = λ H F write h. refl;
  write_all_cons = λ H F write x d h. write_loop-cons write x d h;
  reader_stream_zero = λ H F read cap h. refl;
  reader_stream_suc = λ H F read m cap h. refl;
}
