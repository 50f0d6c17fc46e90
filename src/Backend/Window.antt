-- ===== src/Backend/Window.antt =====
-- What single reads of an open file give, and how tokio's adapters put them together.
use locally_euclidean.Prelude.{
  ℕ, ◌+◌, ◌-◌, ◌≤◌, ◌<◌, min, ◌≡◌, refl, Outcome, ok, err, panic, Exec, List, [], ◌∷◌, ◌++◌, Bytes,
  length, take, drop, length-take, length-drop, drop_all, drop-add, take_split, take_resume,
  take-nil, arith,
}
use locally_euclidean.Storage.{IoError}
use locally_euclidean.Runtime.{fill, prepend, item, first_byte}
use locally_euclidean.Blob.Adapters.{window}

pub fill_some :
    {H F : Type 0} (more : ℕ → Exec H (IoError F) Bytes) (n : ℕ) (buf : Bytes) (h : H)
    → 0 < length buf
    → fill more n buf h ≡ prepend buf (more (n - length buf) h)
fill_some more n [] h lt = absurd (omega arith)
fill_some more n (x ∷ xs) h lt = refl

pub prepend_err :
    {H F : Type 0} (buf : Bytes) (r : Outcome (IoError F) Bytes × H) (e : IoError F)
    → r.0 ≡ err e
    → (prepend buf r).0 ≡ err e
prepend_err buf (ok more, h) e q = cc
prepend_err buf (err d, h) e q = q
prepend_err buf (panic, h) e q = cc

pub first_byte_some :
    {H F : Type 0} (buf : Bytes) (h : H)
    → 0 < length buf
    → (b : ℕ) × ((first_byte {F = F} buf h).0 ≡ ok b)
first_byte_some [] h lt = absurd (omega arith)
first_byte_some (x ∷ xs) h lt = (x, refl)

pub item_some :
    {H F : Type 0} (more : H → List (Outcome (IoError F) Bytes)) (buf : Bytes) (h : H)
    → 0 < length buf
    → item more (ok buf) h ≡ ok buf ∷ more h
item_some more [] h lt = absurd (omega arith)
item_some more (x ∷ xs) h lt = refl

pub length-window :
    (n p : ℕ) (c : Bytes) → length (window n p c) ≡ min (min n 0x1000000) (length c - p)
length-window n p c = omega (arith, length-take (min n 0x1000000) (drop p c), length-drop p c)

pub window_end : (n : ℕ) (c : Bytes) → window n (length c) c ≡ []
window_end n c = rw (drop_all (length c) c (omega arith)) (take-nil (min n 0x1000000))

-- What a read gives, and the rest of the file behind it.
pub window_split :
    (n p : ℕ) (c : Bytes) → window n p c ++ drop (p + length (window n p c)) c ≡ drop p c
window_split n p c =
    rw (drop-add p (length (window n p c)) c) (take_split (min n 0x1000000) (drop p c))

-- A read that finds enough bytes, and what is still missing of `n`.
pub window_resume :
    (n p : ℕ) (c : Bytes)
    → p + n ≤ length c
    → window n p c ++ take (n - length (window n p c)) (drop (p + length (window n p c)) c)
      ≡ take n (drop p c)
window_resume n p c le =
    let k : length (window n p c) ≡ min n 0x1000000 = omega (arith, length-window n p c) in
    rw (k, drop-add p (min n 0x1000000) c)
      (take_resume (min n 0x1000000) n (drop p c) (omega arith))
