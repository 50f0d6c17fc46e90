-- ===== src/Examples/Layers.antt =====
-- The theorems on the storage layer (Backend, Blob) at the database of Examples/Shelf.
use locally_euclidean.Prelude.{
  min, ◌≡◌, ◌≢◌, ◌≤◌, length, pos, false, Option, none, some, ok, panic, Bytes, [],
}
use locally_euclidean.Storage.{start}
use locally_euclidean.Storage.Contract.{Contract}
use locally_euclidean.Postgres.Memory.{Tx, memory}
use locally_euclidean.Postgres.Memory.Reads.{memory_modest, memory_steady}
use locally_euclidean.Blob.Bounds.{await_read_bounded}
use locally_euclidean.Runtime.Direct.{direct, direct-IsTokio}
use locally_euclidean.Blob.Inner.{BlobHandleInner, read, write}
use locally_euclidean.Blob.Handle.{
  poll_read, poll_write, poll_complete, poll_shutdown, start_seek, put_slice, amount, with_inner,
  take_and_close, pending, shutting_down,
}
use locally_euclidean.Blob.Awaited.{await_poll}
use locally_euclidean.Blob.Polls.{idle, busy, await_continues}
use locally_euclidean.Backend.Traits.{postgres_storage}
use locally_euclidean.Backend.Refinement.{postgres_storage-refines}
use locally_euclidean.Backend.View.{Ready, content, has_bucket}
use locally_euclidean.Examples.Shelf.{L, shelf, meow}

abbrev session : Tx
session = record { begun = shelf; view = shelf.objects; descriptor = some (2, 1) }

abbrev blob : Option (BlobHandleInner memory)
blob = some (record { transaction = session; fd_num = pos 0 })

await_continues_example :
    (await_poll
        (λ finished. poll_read memory finished 5)
        2
        (poll_read memory false 3 (idle memory blob 1)).1
      ≡ (
        put_slice memory 5 (with_inner memory (read memory (min 3 0x1000000)) blob).0,
        idle memory (with_inner memory (read memory (min 3 0x1000000)) blob).1 1,
      ))
    × (await_poll
          (λ finished. poll_write memory finished [])
          2
          (poll_write memory false meow (idle memory blob 1)).1
        ≡ (
          amount memory (with_inner memory (write memory meow) blob).0,
          idle memory (with_inner memory (write memory meow) blob).1 1,
        ))
    × (poll_shutdown memory false (idle memory blob 1, shelf) ≡ (
      pending,
      (
        busy memory (shutting_down (take_and_close memory blob shelf).0) none 1,
        (take_and_close memory blob shelf).1,
      ),
    ))
    × (await_poll
          (poll_shutdown memory)
          2
          (poll_shutdown memory false (idle memory blob 1, shelf)).1
        ≡ (
          (take_and_close memory blob shelf).0,
          (idle memory none 1, (take_and_close memory blob shelf).1),
        ))
    × (await_poll (poll_complete memory) 2 (start_seek memory (start 2) (idle memory blob 1)).1
        ≡ await_poll (poll_complete memory) 0 (start_seek memory (start 2) (idle memory blob 1)).1)
await_continues_example = await_continues memory blob 1 2 3 5 meow [] (start 2) shelf

postgres_storage-refines_example :
    (K : Contract (postgres_storage memory direct)) × (K.has_bucket ≡ has_bucket memory L)
    × (K.content ≡ content memory L)
    × (K.Up ≡ Ready memory L)
    × (K.max_file ≡ L.max_object)
    × (K.max_write ≡ L.max_bytea)
postgres_storage-refines_example = postgres_storage-refines memory direct L direct-IsTokio

await_read_bounded_example :
    let r = (await_poll (λ finished. poll_read memory finished 3) 2 (idle memory blob 1)).0 in
    (r ≢ panic) × ((bytes : Bytes) → r ≡ ok bytes → length bytes ≤ min 3 0x1000000)
await_read_bounded_example = await_read_bounded memory memory_modest memory_steady 2 3 1 blob
