-- ===== src/Backend/Refinement.antt =====
-- The storage layer of storage/src/postgres/mod.rs as an implementation of the storage contract.
use locally_euclidean.Prelude.{◌≡◌, refl}
use locally_euclidean.Storage.Contract.{Contract}
use locally_euclidean.Postgres.{Postgres}
use locally_euclidean.Postgres.Laws.{IsPostgres}
use locally_euclidean.Runtime.{Runtime, IsTokio}
use locally_euclidean.Backend.Traits.{postgres_storage}
use locally_euclidean.Backend.View.{Ready, has_bucket, content}
use locally_euclidean.Backend.Fulfils.{fulfils}

-- Over every server and every runtime that keep their laws, the backend meets the storage contract
-- with these views: a bucket is there if its row is, the content of a file is the large object of
-- its row, the well-formed states are those in which the server answers, every file has its object
-- and no two files share one, and a file and an append may be as long as the server allows.
pub postgres_storage-refines :
    (P : Postgres) (R : Runtime) (L : IsPostgres P)
    → IsTokio R
    → (K : Contract (postgres_storage P R)) × (K.has_bucket ≡ has_bucket P L)
      × (K.content ≡ content P L)
      × (K.Up ≡ Ready P L)
      × (K.max_file ≡ L.max_object)
      × (K.max_write ≡ L.max_bytea)
unfolding fulfils
postgres_storage-refines P R L T = (fulfils P R L T, refl, refl, refl, refl, refl)
