-- ===== src/Examples/Machine.antt =====
-- The theorems on sequences of uploads against the specification, at the database of Examples/Shelf.
use locally_euclidean.Prelude.{List, [], ◌∷◌}
use locally_euclidean.Storage.Contract.{Key}
use locally_euclidean.Api.Spec.Machine.{Upload, post}
use locally_euclidean.Examples.Shelf.{two_chunks}

abbrev old : Key
old = ("my_bucket", "old")

-- The end of the file is sent again, and then two chunks are appended.
abbrev uploads : List Upload
uploads = post old 2 ((b'o' ∷ b'w' ∷ b'!' ∷ []) ∷ []) ∷ post old 6 two_chunks ∷ []
