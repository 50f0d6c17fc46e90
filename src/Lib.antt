-- ===== src/Lib.antt =====
-- locally-euclidean: a server of Facebook's Manifold blob API, and its storage in Postgres.
--
-- The program. A request goes through a handler (server/src/api.rs, server/src/explore.rs) to the
-- storage traits (storage/src/lib.rs), which storage/src/postgres/mod.rs implements: a bucket is a
-- row of `buckets`, a file a row of `files` with a large object of Postgres, which
-- storage/src/postgres/blob.rs reads and writes through a polled file handle that holds a
-- transaction open. What an upload has written is there after the handle's commit; a handle that is
-- dropped takes its writes with it. Only the row of a new file, with an empty object, is committed at
-- once, by the insert itself.
--
-- The development.
--   Prelude       lists, bytes, integers with the casts of the source, outcomes (`Result` and panic).
--   Storage       storage/src/lib.rs: errors, and the traits as a record of operations. Storage/Contract
--                 is what the handlers rely on: the files of a world by bucket name and file name, and
--                 what each operation does to them.
--   Api           server/src/api.rs: `ApiError`, `check_range_matches` (Api/Range), the upload loop
--                 (Api/Upload), `put_write_filename` (Api/Write), `post_append_filename` (Api/Append);
--                 below each, what it does over a storage that meets the contract, alone and while other
--                 requests are served (Meanwhile), on a body that breaks off (Broken), whether it panics
--                 (Total), and what its success tells (Acknowledged). Api/Spec says what a PUT and an
--                 append with a whole body should do, as functions of the contents alone; below it the
--                 handlers are set against that. Api/Growth is about any body.
--   Explore       server/src/explore.rs: `get_explore`; and `get_buck2_log` of server/src/api.rs.
--                 Explore/Log and Explore/Session are about downloads after uploads.
--   Faults, Blob  storage/src/postgres/blob.rs: the errors, `BlobHandleInner` (Blob/Inner), `BlobHandle`
--                 with its polled methods (Blob/Handle), awaited (Blob/Awaited). Blob/Polls treats the
--                 states of a handle, Blob/Bounds the size of what it reads, Blob/Contents and
--                 Blob/Adapters what happens to a large object.
--   Backend       storage/src/postgres/mod.rs: `PostgresFileHandle` (Backend/File), `PostgresBucket` and
--                 `PostgresBackend` (Backend/Bucket), the traits (Backend/Traits). Backend/Fulfils puts
--                 the modules beside it together: the backend meets the contract.
--                 Backend/Cleanup is the deletion of old files with the loop of server/src/tasks.rs, in
--                 which other requests may be served between the rounds; Backend/Create is about the
--                 creation of buckets, Backend/Times about their times to live; Backend/Life, with
--                 Backend/Dates, puts the handlers, the backend and the loop together: how long a file
--                 lives; and
--                 Backend/Cleanup/Backlog is about how far the loop comes with its work.
--   Security      server/src/security_headers.rs: the headers that every response is given, over a map of
--                 headers as a parameter.
--   Postgres      the database server, a parameter: one operation for each SQL statement of the source.
--                 Postgres/Laws is what is relied on, Postgres/Memory a server in memory that keeps it.
--   Runtime       tokio, a parameter: `read_exact`, `read_u8`, `write_all`, `seek` and `ReaderStream` over
--                 the polled methods. Runtime/Direct is one that keeps the laws.
--   App           server/src/lib.rs, server/src/errors.rs: the answers to requests that have been routed,
--                 with their status, text and headers, behind the layers of `make_app`; and what a
--                 sequence of requests leaves of the files (App/Growth). App/External is what is used
--                 of axum, tower-http, http and httpdate, a parameter.
--   Start         server/src/config.rs (Start/Config); `AppStateInner` of server/src/lib.rs and `main` of
--                 server/src/main.rs with `parse_timedelta`, from the words of the command line on
--                 (Start/Commands, Start/CommandLine, Start/Serving); and the running service, as steps
--                 of the listener and the maintenance task, which share a token (Start/Lifecycle). clap
--                 and humantime, the library that collects the configuration, the setup of tracing, the
--                 migrations and the network are parameters.
--   Examples      runs, and the theorems at concrete inputs.
--
-- How the code is modelled. Numbers are natural numbers; an `i32` or `i64` is an integer, and the casts
-- wrap. A `Result` is an outcome, in which a panic is a third case. A call that changes a handle or the
-- database returns the new one. A request body is the list of its chunks, and may break off. A future
-- does its one statement in its first poll, and its answer is there in the poll that finds it finished;
-- the polls before that are pending, any number of them. Loops are structural recursion on the body; the only fuel is that of the server's runtime in
-- memory (Runtime/Direct), where `read_exact` and `write_all` take as many rounds as there are bytes,
-- and each round moves one byte at least. The stream of a response is given by its first items, for any
-- number of rounds.
--
-- What is assumed. The laws are about a server that answers (`Up`, `Live`): a statement that fails is an
-- error path of the definitions, with no law about what the server has done. Between the beginning of a
-- handle's transaction and its commit, other requests may create and commit other files (Api/Among), but
-- the file itself is the same at both ends (`commit_lem`).
-- Buckets are written by this program alone, so a time to live in the table is one that sqlx has sent:
-- a whole number of microseconds that fits an `i64` of nanoseconds (`default_ttl_IsPlain`); and such a
-- time from now on is a date that chrono can represent (`from_now_lem`). Without that, the sum panics.
-- A batch of the deletion takes the files that are due first, as its statement asks, and the clock of
-- the server does not go back (`delete_expired_backlog`).
-- A file and an append stay below the server's limits for large objects and for one argument.
-- The time of a file is between 1970 and the year 9999 (`IsDate`): outside of that, the printing of its
-- date is a panic (`printed` of App).
--
-- Appends at the very end of a file. The README has them succeed; the code answers a conflict
-- (`post_append_filename`, `size >= write_offset`). The specification of Api/Spec says what the README
-- says, so the theorems that set the code against it leave these appends out.
--
-- The steps of the service say what may happen next, and nothing of time: that the listener and the
-- maintenance task go on once the token is cancelled is axum's and tokio's part, and so is that the
-- listener shuts down well only then. The rounds that the task comes to before the listener is bound are
-- a parameter of `main`.
--
-- The statement of `delete_old_files_batch` is one operation of the server, of which the limit is given by
-- the source's definition; which rows it takes is among the laws.
--
-- Not modelled: routing and the parsing of requests (axum), the answers that `CorsLayer` itself gives to
-- preflight requests (OPTIONS), which reach no handler, what clap and humantime do beyond the laws of
-- Start/CommandLine, the parsing of configuration files, the SQL of the migrations, and the setup of
-- tracing, which is a copy of a library's.
pub mod Prelude
pub mod Storage
pub mod Runtime
pub mod Postgres
pub mod Faults
pub mod Blob
pub mod Backend
pub mod Api
pub mod Explore
pub mod Security
pub mod App
pub mod Start
pub mod Examples
