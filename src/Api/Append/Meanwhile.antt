-- ===== src/Api/Append/Meanwhile.antt =====
-- What becomes of `post_append_filename` of server/src/api.rs while other requests are served.
use Prim.Native.String.{String}
use locally_euclidean.Storage.{Storage}
use locally_euclidean.Storage.Contract.{Contract}
