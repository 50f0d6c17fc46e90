-- ===== src/Api/Among.antt =====
-- Uploads of server/src/api.rs while other requests are served. A request reads and writes the
-- database at its awaits; what it has appended is its handle's own until the commit. The database
-- changes at two kinds of step only: a file is created, or a handle is committed.
use Prim.Native.String.{String}
use locally_euclidean.Prelude.{ℕ, ◌≡◌, ◌≢◌, sym, ◌∙◌, ap, subst, none, Bytes}
use locally_euclidean.Storage.{Storage}
use locally_euclidean.Storage.Contract.{Contract, Key}

module _ (S : Storage) (K : Contract S) where
  -- Steps of other requests, none of them on the file `k`.
  pub data Others (k : Key) : S.World → S.World → Type 0 where
    at_once : {v : S.World} → Others k v v
    created :
        {v w : S.World}
        → Others k v w
        → (bk : S.Bucket) (b n : String) (w' : S.World) → K.Names w bk b
        → K.content w (b, n) ≡ none
        → k ≢ (b, n)
        → (S.create_file bk n w).1 ≡ w'
        → Others k v w'
    committed :
        {v w : S.World}
        → Others k v w
        → (h : S.FileHandle) (u : S.World) (j : Key) (c : Bytes) (p : ℕ) (w' : S.World)
        → K.Holds h u j c p
        → K.Same u w j
        → k ≢ j
        → (S.commit h w).1 ≡ w'
        → Others k v w'

  -- Through all of them the backend answers, and the file is the same.
  pub Others_keep : (k : Key) {v w : S.World} → K.Up v → Others k v w → K.Up w × K.Same v w k
  Others_keep k {v} up at_once = (up, K.same_refl v k up)
  Others_keep k {v} up (created {w = w} before bk b n w' names absent ne e) =
      let (up', same) = Others_keep k up before in
      let (h, x, e', _, up'', _, apart) = K.create_fresh w bk b n up' names absent in
      let here : x ≡ w' = sym (ap (λ r. r.1) e') ∙ e in
      subst (λ t. K.Up t × K.Same v t k) here (up'', apart v k ne same)
  Others_keep k {v} up (committed {w = w} before h u j c p w' holds unmoved ne e) =
      let (up', same) = Others_keep k up before in
      let (x, e', up'', _, apart) = K.commit_lem h u w j c p up' holds unmoved in
      let here : x ≡ w' = sym (ap (λ r. r.1) e') ∙ e in
      subst (λ t. K.Up t × K.Same v t k) here (up'', apart v k ne same)
