-- ===== src/Lib.antt =====
-- GDFileStore: a file store with a journal, a key-value store over RocksDB and messages between
-- its nodes, in C++ (src/ of the repository).
--
-- The parts and their files:
--   Buffer          src/deps/assistant_utility.h, struct buffer: a string and a read position.
--   Codec           the templates Write and Read there, and as_string and from_string. A type that
--                   the templates are used at is a code `Ty`; the values of a code are `El`. `Word`
--                   has the bytes of a number, low byte first, `Encode` what `write` appends,
--                   `RoundTrip` that `read` takes it up again, `Strings` the statements on streams.
--   Slice           class Slice there: a span of a shared buffer.
--   Decimal         decimal numbers as fmt and std::to_string write them and std::stoul reads them.
--   Object          src/deps/object.h and InfoForOSD of src/deps/connection.h: the classes, GetES of
--                   each (`Members`), what survives serialisation (`Serial`, `Wire`), operator< and
--                   the descriptions (`Compare`), the requests between nodes (`Protocol`, from
--                   connection.cpp, ConnectionClient.cpp and ConnectionServer.cpp of src/deps).
--   Operation       OperationWrapper and CombineOperationsForOneSameObject of src/deps/object.h and
--                   src/deps/object.cpp. `Edit` is the specification, edits of one text; `Insert`
--                   and `Delete` treat one step, `Combine` the loop, `Whole` the overload that
--                   starts from a content, `Wrappers` the operations that OperationWrapper makes,
--                   `OffEnd` deletions up to the end of the data.
--   KeyValue        src/GDKeyValue.h and src/GDKeyValue.cpp: headers, their caches and the search by
--                   prefix, several keys at once (`Several`), and the typed attributes (`Attr`).
--                   RocksDB is the parameter `RocksDb`; `Table` is one that meets its laws.
--   FileStore       Journal::do_WOPE of src/GDFileJournal.cpp, and do_wope, add_wope and do_rope of
--                   src/GDFileStore.cpp: an object's version is a list of block numbers. `Edits` and
--                   `Versions` treat the contents of the blocks, `Shape`, `Kept` and `Untouched` what
--                   one call changes and leaves, `Live` and `Counts` the reference counts, `Disk` the
--                   step from the journal to the disk, `Progress` the queue in any order, `WriteRead`
--                   a write and the read that follows it, `Overtaken` a block that a second write
--                   counts before the first one's step to the disk. `Serving` is
--                   handle_ope_threadMain with its two pools, `Mirrored` relates it to that queue,
--                   `Arrivals` and `Served` count its requests and replies.
--   Journal         src/GDFileJournal.h and src/GDFileJournal.cpp: the queue of writes of whole
--                   objects and its flush (`Flush`), and which nodes take a write (`Members`, from
--                   HandleWriteOperation of src/GDFileStore.cpp).
--   Timer           src/deps/timer.h and src/deps/timer.cpp: the list of timers (`Order`) and what one
--                   tick calls (`Calls`, `Repeat`); `Conc`, `Turns` and `Shared` treat ConcTimerCaller with
--                   the events of its pool between the rounds of a tick, `Group` and
--                   `Late` TimerCallerGroup. A task is a number and does not touch the caller; each
--                   round of a tick has its reading of the clock.
--   Client          AsynClient of src/deps/ConnectionClient.h and src/deps/ConnectionClient.cpp: the
--                   states of operations, the replies and the waits, as events. `Replies` goes from
--                   the server that packs a reply to the state that is looked up, `Kept` has what
--                   stays true of a client whose write is on the disk, `Waits` which calls return.
--   ThreadPool      src/deps/thread_pool.h, in steps of its threads: `Counts` has the numbers of
--                   workers at each place, `Sound`, `Loop` and `Reached` what holds at all times,
--                   `Drained` that the queue is worked off.
--   Sync            the synchronous write of src/deps/ConnectionClient.cpp and the route "/write" of
--                   src/deps/ConnectionServer.cpp: `Message` has its bytes, `Delivery` the way to the
--                   journal and back.
--   BlockPath       the paths of src/deps/referedBlock.h and src/GDFileStore.h, and GetParentStr of
--                   src/GDFileStore.cpp (`Lookup`).
--   Config          src/deps/Config.h: the layers of a configuration (`Layers`). The JSON library is
--                   the parameter `JsonLib`.
--   FileBuffer      the class filecache of src/deps/filebuffer.h (`Flush`).
--   System          AsynClient and AsynServer together: a write from asynWrite over the node's queue
--                   to the state that the client finds (`Written`), and the read of what it
--                   wrote (`ReadBack`).
--   Base            the names that all files share, lists and integers.
-- A request goes from Object.Protocol over Codec to Buffer; a write request becomes a WopeLog in
-- the queue of FileStore, and an operation on a whole object goes over Journal to Operation. KeyValue
-- finds an object's header under the description of Object.Compare.
--
-- How the code is rendered. Bytes and unsigned numbers are natural numbers, an `int` is an integer
-- where the code computes with it (its overflow is undefined behaviour) and 32 bits where it is
-- written to a buffer. An `unsigned long` has 64 bits. What the program reads outside a string or a
-- vector, a dereferenced end iterator and an exception that leaves the function are `none`; the
-- terminator behind a string's bytes can be read. Memory that a member was never assigned in is an
-- argument. LOG_EXPECT only logs, and is left out.
-- Buffers that slices share are not changed after the slices are made, so a slice holds its buffer
-- as a value. Loops are structural recursions; the only fuel is that of `print`, n + 1 steps for
-- the digits of n. In FileStore the attributes are tables by key, the files under a root are a
-- table by block number, and the numbers that new blocks get are the clock's readings to come, a
-- list of the state. One do_wope is one step: what runs in parallel within it is not split.
--
-- In Client and ThreadPool one event is what one thread does while it has the mutex; a run is any
-- sequence of events, so every interleaving is one. Sleepers on a condition variable wake up when
-- they are notified, and also by themselves.
--
-- Not modelled: the flush to page groups, file spans and the memory recorder. Logging, opening and closing the database, listening on a port, the file system and the
-- HTTP library are outside.
pub mod Base
pub mod Buffer
pub mod Codec
pub mod Decimal
pub mod Slice
pub mod Object
pub mod Operation
pub mod KeyValue
pub mod FileStore
pub mod Journal
pub mod Timer
pub mod Client
pub mod ThreadPool
pub mod Sync
pub mod BlockPath
pub mod Config
pub mod FileBuffer
pub mod System
