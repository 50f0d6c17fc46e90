-- ===== src/Examples/Cleaning.antt =====
-- The theorems on the deletion of old files at the database of Examples/Shelf, where the file "old"
-- has expired.
use locally_euclidean.Prelude.{◌≡◌, true, false, List, [], ◌∷◌, ◌++◌}
use locally_euclidean.Postgres.Memory.{Db, memory}
use locally_euclidean.Backend.Cleanup.{Event, woken, served, maintenance}
use locally_euclidean.Backend.Cleanup.Rounds.{serve, maintenance_cancelled}
use locally_euclidean.Examples.Shelf.{shelf}

abbrev before : List (Event Db)
before = served (λ db. db) ∷ woken false ∷ []

abbrev after : List (Event Db)
after = woken false ∷ []

maintenance_cancelled_example :
    maintenance memory true (before ++ woken true ∷ after) shelf
    ≡ serve after (maintenance memory true before shelf)
maintenance_cancelled_example = maintenance_cancelled memory before after true shelf
