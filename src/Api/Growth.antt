-- ===== src/Api/Growth.antt =====
-- What a request of server/src/api.rs, whole or broken off, can make of the files.
pub mod Put
pub mod Post
use Prim.Native.String.{String}
use locally_euclidean.Prelude.{
  ℕ, ◌+◌, ◌≤◌, ◌≡◌, ◌≢◌, refl, sym, subst, ◌∙◌, ap, ◌⊎◌, inl, inr, Bool, Option, none, some, List,
  [], ◌∷◌, ◌++◌, map, flatten, Bytes, length, append_assoc, append-nil, String-discrete,
}
use locally_euclidean.Storage.{Storage}
use locally_euclidean.Storage.Contract.{Contract, Key, Writes}
use locally_euclidean.Api.{Body, chunk, broken}
use locally_euclidean.Api.Upload.Effect.{ChunksFit}

-- The chunks of a body that arrive before it ends or breaks off.
abbrev pub arrived : Body → List Bytes
arrived [] = []
arrived (broken ∷ stream) = []
arrived (chunk d ∷ stream) = d ∷ arrived stream

pub Body-cases :
    (stream : Body)
    → (map chunk (arrived stream) ≡ stream)
      ⊎ ((rest : Body) × (map chunk (arrived stream) ++ broken ∷ rest ≡ stream))
Body-cases [] = inl refl
Body-cases (broken ∷ stream) = inr (stream, refl)
Body-cases (chunk d ∷ stream) = elim (Body-cases stream) [
  | inl whole ↦ inl (ap (λ t. chunk d ∷ t) whole)
  | inr (rest, e) ↦ inr (rest, ap (λ t. chunk d ∷ t) e)
]

pub Key-cases : (j k : Key) → (j ≡ k) ⊎ (j ≢ k)
Key-cases j k = elim (String-discrete j.0 k.0) [
  | no ne ↦ inr (λ e. ne (ap (λ x. x.0) e))
  | yes e ↦ elim (String-discrete j.1 k.1) [
    | no ne ↦ inr (λ e'. ne (ap (λ x. x.1) e'))
    | yes e' ↦ inl (λ i. (e i, e' i))
  ]
]

abbrev size : Option Bytes → ℕ
size none = 0
size (some c) = length c

module _ (S : Storage) (K : Contract S) where
  -- What arrives of the body fits the limits of the backend, behind what the file holds.
  abbrev pub Fits : Body → Option Bytes → Type 0
  Fits stream before =
      (size before + length (flatten (arrived stream)) ≤ K.max_file)
      × ChunksFit S K (arrived stream)

  -- In the second world every file of the first is still there, with what it held at its front, and
  -- the buckets are the same.
  pub record Grows (w w' : S.World) : Type 0 where
    pub grown :
        (k : Key) (c : Bytes)
        → K.content w k ≡ some c
        → (d : Bytes) × (K.content w' k ≡ some (c ++ d))
    pub same_buckets : (b : String) → K.has_bucket w' b ≡ K.has_bucket w b

  pub Grows-refl : (w : S.World) → Grows w w
  Grows-refl w = record {
    grown = λ k c e. ([], e ∙ ap (λ t. some t) (sym (append-nil c)));
    same_buckets = λ b. refl;
  }

  pub Grows-trans : {u v w : S.World} → Grows u v → Grows v w → Grows u w
  Grows-trans f g = record {
    grown = λ k c e.
        let (d, e1) = f.grown k c e in
        let (d', e2) = g.grown k (c ++ d) e1 in
        (d ++ d', e2 ∙ ap (λ t. some t) (append_assoc c d d'));
    same_buckets = λ b. g.same_buckets b ∙ f.same_buckets b;
  }

  pub keeps-Grows : (w w' : S.World) → w' ≡ w → Grows w w'
  keeps-Grows w w' e = subst (Grows w) (sym e) (Grows-refl w)

  -- A write on one file that keeps what the file held at its front.
  pub Writes-Grows :
      (w w' : S.World) (k : Key) (new : Bytes)
      → Writes K.content K.has_bucket w w' k new
      → ((c : Bytes) → K.content w k ≡ some c → (d : Bytes) × (new ≡ c ++ d))
      → Grows w w'
  Writes-Grows w w' k new writes front = record {
    grown = λ j c e. elim (Key-cases j k) [
      | inl same ↦
          let (d, e') = front c (ap (λ x. K.content w x) (sym same) ∙ e) in
          (d, ap (λ x. K.content w' x) same ∙ writes.written ∙ ap (λ t. some t) e')
      | inr other ↦ ([], writes.untouched j other ∙ e ∙ ap (λ t. some t) (sym (append-nil c)))
    ];
    same_buckets = λ b. writes.same_buckets b;
  }
