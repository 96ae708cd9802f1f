-- ===== src/Lib.antt =====
-- Verification of PostFGA, a PostgreSQL extension that asks an OpenFGA server for permissions.
--
-- A backend that runs an SQL function takes a slot from the shared pool, writes its request there, puts the
-- number of the slot on a ring and sleeps on its latch. The background worker drains the ring, marks each
-- slot, hands it to the gRPC client and, on the answer, marks it again and wakes the backend. Decisions are
-- kept in two caches: one in each backend, and one in shared memory. A foreign data wrapper shows the
-- relations as tables; settings come from the configuration of PostgreSQL.
--
-- The modules and the files that they model:
--   Prelude       lists, bits and Boolean tests, which all modules share
--   Queue         the ring of slot numbers: `FgaChannelSlotQueue` of src/channel.h and the functions `queue_*`
--                 of src/channel_slot.h
--   Payload       requests and responses, src/payload.h
--   FreeList      what the code relies on of PostgreSQL's lib/ilist.h
--   Channel       the slot pool of src/channel_slot.h, src/channel.c, and of src/bgw/processor.cpp the functions
--                 beginProcessing, handleResponse and wakeBackend
--   Protocol      the functions of the channel and of the worker, interleaved in any order
--   Cache.Key, Cache.Encode   `FgaAclCacheKey` of src/cache.h, `fga_cache_key` of src/cache_key.h
--   Cache.Index   what the code relies on of PostgreSQL's dynahash
--   Cache.L1      the two-way set-associative cache of one backend, src/cache_l1.h
--   Cache.L2      the shared cache with its clock sweep, src/cache_l2.h
--   Cache.Front   the two levels together, src/cache.c, with the settings of src/config.h that it reads
--   Cache.Verdict the specification of both levels: a stored decision, its generation and its end
--   Stats         the counters, src/stats.h and src/stats.c, and in Stats.Report the report on them, src/func_stats.c
--   Fdw           the options of foreign tables, src/fdw/validator.c and src/fdw/options.c, and the
--                 rows of a scan, src/fdw/exec.c; in Fdw.Import the import of a schema, src/fdw/handler.c, and the
--                 estimates of the planner, src/fdw/plan.c
--   Guc           the settings, src/guc.c: the check hooks, the bounds and the values at the start
--   Args, Sql     the arguments of the SQL functions and the functions, src/func_fga.c
--   Client        the requests to OpenFGA and the callbacks of their answers, src/client: request_variant.hpp,
--                 openfga_client.cpp, openfga_client_check.cpp, openfga_client_write.cpp and
--                 openfga_client_store.cpp. A call of gRPC is a value, and its answer an argument
--   Shmem         the sizes and offsets of the shared memory, src/channel_shmem.c and src/state.c, with the
--                 sizes of src/cache.c and src/stats.c
--   Worker        `Processor::execute` of src/bgw/processor.cpp, which hands the drained slots to Client
--   Worker.Loop   the loop of the worker with its signals and reloads, src/bgw/worker.cpp and src/config, and the
--                 completed queue of src/bgw/processor.cpp
--   Counter       the limit on concurrent calls, src/util/counter.cpp
--   Relations     the list of relations in the settings, src/relation.c
--   TaskSlot      the pool of gRPC slots, src/bgw/task_slot.hpp
-- A function of the source has its name in the model, without the prefix that the module already says:
-- `queue_enqueue` is `Queue.enqueue`, `l1_store` is `Cache.L1.store`, `fga_channel_execute_slot` is
-- `Channel.execute`. A function that writes through a pointer returns the new structure; a null pointer is
-- `none`; an error of `ereport` is a value.
--
-- Concurrency: each function runs under its LWLock, or on a slot that its caller owns, and is one step.
-- `Protocol.Step` interleaves these steps of any number of backends and of the worker. `wait_response` itself runs
-- against a list of wakes, each of them with an arbitrary change by the other processes; the theorem on it names
-- what those may not do. A read and the write that follows it in `handleResponse`, or in the catch block of
-- `wait_response`, are one step: the race between those two is not modelled. Nor has `Protocol` the second release
-- in the PG_CATCH blocks of src/func_fga.c, which `Sql` has, and so that a slot which its backend
-- releases there stays in use in `Protocol`; what the client writes into a response is in `Client` only. A request that a backend fills keeps the request id
-- of its slot. In `Worker.Loop` a round of the loop is one step, and signals come between rounds.
--
-- Integers are natural numbers with the wrap-around written out: the cursors of the ring have 16 bits, its
-- differences are taken in 32 bits, `next_victim` has 32 bits, counters 64. Times are milliseconds since the
-- epoch of `TimestampTz` and not negative. The clock sweep takes fuel: one more than the sum of all usage
-- counts, since each round that goes on lowers one of them; the loops over arrays recurse on the array or on
-- the number of rounds.
--
-- Assertions of the source are hypotheses of the theorems: on the lengths of the fields of a cache key, whose
-- bytes are a list of any length, and on the capacity of `queue_init`. The kind of a scanned table is an
-- argument: the call that reads it is in `Fdw.Options` only. `Cache.Front` is the view of one backend.
-- `std::counting_semaphore::try_acquire` may fail spuriously: an argument says so.
--
-- Parameters: dynahash (Cache.Index, met by an association list), the intrusive list (FreeList, met by a
-- list), the size arithmetic of PostgreSQL (Shmem.Postgres), xxHash, `BackendPidGetProc` and `pg_strcasecmp`.
--
-- Not modelled: the generated protobuf code and gRPC, latches (SetLatch included), logging, the registration of the worker and of the
-- hooks, the construction of the gRPC channel, and of src/relation.c what is behind the guards of
-- `register_relation`, which reads an uninitialised pointer and is called nowhere.
pub mod Prelude
pub mod Payload
pub mod FreeList
pub mod Channel
pub mod Client
pub mod Counter
pub mod TaskSlot
pub mod Protocol
pub mod Queue
pub mod Cache
pub mod Stats
pub mod Fdw
pub mod Guc
pub mod Args
pub mod Sql
pub mod Worker
pub mod Shmem
pub mod Relations
