-- ===== src/Lib.antt =====
-- pgvs3 is an S3 gateway that stores objects in PostgreSQL. An object is one or more files; a file
-- is a sequence of rows of 8120 bytes in the table `s3p.chunks`; the table `s3p.objects` names the
-- files of a key. This library models the gateway's own logic, from the request to the tables.
--
-- The parts, and the code that each is about (all paths below crates/pgvs3/src):
--   - Layout: the constants of db.rs, ingest.rs and stats.rs, and the rows of a file.
--   - Cache/Meta, Cache/Fifo: `Meta`, its segments, and the metadata cache of cache.rs.
--     Cache/Bounded and Cache/Capacity hold the lemmas about it.
--   - Ingest: `RowFramer` and `frame_rows` of ingest.rs. Ingest/Format is the independent description
--     of the COPY stream that they write.
--   - Read/Plan, Read/Span: `plan`, `row_slice` and `stream_span` of db.rs. The fetches of the pieces
--     run concurrently in the source, but their rows are consumed piece by piece, so a piece is here
--     the list of what its query delivers, in the order of arrival.
--   - Read/Request: `range_params` of server.rs and `eff_range` of db.rs, with i64 as the integers
--     of Prelude/Int and `as i64` as two's complement of 64 bits.
--   - Store/Tables: ../schema.sql as lists of rows, and the statements as functions on them.
--   - Store/Objects, Store/Write, Store/Buckets, Store/Uploads: the transactions of db.rs. Each runs
--     whole: the source takes locks (an advisory lock on a key, row locks on uploads and buckets)
--     that make the transactions on one key run one after the other.
--   - Store/Cached: the reads through the cache, `get_body` with its two attempts. Each attempt has a
--     database of its own, since other gateways may write between them.
--   - Store/Owners, Store/Held, Store/Sound: which objects and parts own which files, and what the
--     chunk table holds; the files below Store/Sound take the operations one by one. Store/Removed and
--     Store/Swapped: what deletions, aborts and publications change, and what they leave.
--   - Store/Calls, Store/Kept, Store/Reached: sequences of calls from the empty layout. Store/Views,
--     Store/Effects and Store/Histories: the map from keys to bytes that clients see, and the calls as
--     updates of it.
--   - Store/Stale, Store/Outdated, Store/Earlier, Read/Missing, Read/Gaps: reads with metadata
--     that is not current.
--   - Store/Put: `put` of db.rs.
--   - Pool: the connection pool of pg.rs, as the steps of the tasks that share it.
--   - Schema: `init_locked` of db.rs.
--   - Seed: the filler and the split of the work of seed.rs, and the reads that bench.rs draws.
--   - Telemetry: the counters of stats.rs.
--   - Server/Objects, Server/Multipart, Server/Listing: the handlers of server.rs. Server/Deletions,
--     Server/Batches, Server/Keys and Server/Pages hold the lemmas about the batch deletion and the
--     listing.
--
-- The state is a record `Db` of tables and a record `MetaCache`; operations take and return them. A
-- transaction returns `Tx`: `commit` with the database behind it, or `rollback`, which keeps the old.
-- A stream that stops returns `Flow`: the messages already sent stay sent.
--
-- Numbers: sizes, offsets and file ids are natural numbers, as their columns are never negative. Row
-- numbers are i32 in the source, so the theorems about a whole object ask that it has at most 2^31
-- rows of bytes.
--
-- Loops: the loops over rows, pieces and parts are recursions on their lists. `part_ranges` has as
-- fuel the number of rows, one per range; the outer loop of `stream_span` has one more than the
-- number of pieces, and `take_early` one per row kept. `list_loop` takes its fuel as an argument and
-- says when it is used up.
--
-- Parameters: SHA-256 is the interface `Digest`, whose law is that updates with two pieces are one
-- update with their concatenation; PostgreSQL's reading of a COPY stream is `copy_in`, of which the
-- theorems ask that it reads back the rows that were written; the order of rows from a query without
-- ORDER BY is arbitrary (a permutation); the uuid of an upload and the clock are arguments.
--
-- In a sequence of calls, a writer's call stands where its transaction commits or rolls back, with
-- the file id that it took before; the sequence behind the ids gives none twice. So calls may overlap:
-- only the order of their transactions is that of the sequence.
--
-- Not modelled: TLS, the set-up of a connection and its prepared statement, the measurements and the
-- output of the benchmark and of the seed command, the warm-up, the text of the statistics, the HTTP
-- server and its authentication, the bounded channel between a request and its writer beyond the list
-- of its messages, and the statements of the schema script.
pub mod Prelude
pub mod Layout
pub mod Cache
pub mod Read
pub mod Ingest
pub mod Store
pub mod Tests
pub mod Server
pub mod Pool
pub mod Seed
pub mod Schema
pub mod Telemetry
