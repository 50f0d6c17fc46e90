-- ===== src/App/Growth.antt =====
-- What any sequence of requests to server/src/lib.rs leaves of the files.
use Prim.Native.String.{String}
use locally_euclidean.Prelude.{Option, List, [], ◌∷◌}
use locally_euclidean.Storage.{Storage}
use locally_euclidean.Storage.Contract.{Contract}
use locally_euclidean.Api.Growth.{Fits, Grows, Grows-refl, Grows-trans}
use locally_euclidean.Api.Growth.Put.{put-Grows}
use locally_euclidean.Api.Growth.Post.{append-Grows}
use locally_euclidean.App.External.{Http}
use locally_euclidean.App.{Endpoint, home, healthcheck, write, append, log, explore, serve}

module _ (H : Http) (version : Option String) (S : Storage) where
  -- The requests, served one after the other.
  unfoldable pub serve_all : List Endpoint → S.World → S.World
  serve_all [] w = w
  serve_all (endpoint ∷ requests) w = serve_all requests (serve H version S endpoint w).1

  module _ (K : Contract S) where
    -- If the request has a body, then what arrives of it fits the limits of the backend.
    abbrev pub RequestFits : Endpoint → S.World → Type 0
    RequestFits (write filename query body) w =
        Fits S K body (K.content w (query.bucket_name, filename))
    RequestFits (append filename query body) w =
        Fits S K body (K.content w (query.bucket_name, filename))
    RequestFits _ w = Unit

    -- Each request fits when its turn comes.
    abbrev pub RequestsFit : List Endpoint → S.World → Type 0
    RequestsFit [] w = Unit
    RequestsFit (endpoint ∷ requests) w =
        RequestFits endpoint w × RequestsFit requests (serve H version S endpoint w).1

module _ (H : Http) (version : Option String) (S : Storage) (K : Contract S) where
  serve-Grows :
      (endpoint : Endpoint) (w : S.World)
      → K.Up w
      → RequestFits H version S K endpoint w
      → K.Up (serve H version S endpoint w).1 × Grows S K w (serve H version S endpoint w).1
  unfolding serve
  serve-Grows home w up fits = (up, Grows-refl S K w)
  serve-Grows healthcheck w up fits = (up, Grows-refl S K w)
  serve-Grows (write filename query body) w up fits =
      put-Grows S K w up query.bucket_name filename body fits
  serve-Grows (append filename query body) w up fits =
      append-Grows S K w up query.bucket_name filename query.write_offset body fits
  serve-Grows (log filename) w up fits = (up, Grows-refl S K w)
  serve-Grows (explore bucket filename) w up fits = (up, Grows-refl S K w)

  -- Over a backend that meets the contract, any sequence of requests whose bodies, whole or broken off,
  -- fit the backend's limits as their turns come, leaves a well-formed state: every file that was there
  -- still is, and what it held is at the front of what it holds, and the buckets are the same.
  pub serve_all-Grows :
      (requests : List Endpoint) (w : S.World)
      → K.Up w
      → RequestsFit H version S K requests w
      → K.Up (serve_all H version S requests w) × Grows S K w (serve_all H version S requests w)
  unfolding serve_all
  serve_all-Grows [] w up fits = (up, Grows-refl S K w)
  serve_all-Grows (endpoint ∷ requests) w up fits =
      let (up', grows) = serve-Grows endpoint w up fits.0 in
      let (up'', more) = serve_all-Grows requests (serve H version S endpoint w).1 up' fits.1 in
      (up'', Grows-trans S K grows more)
