-- ===== src/Lib.antt =====
-- A verification library for gengis-mimi, a document and vector database over object storage.
--
-- The program is a server: `api.rs` takes requests, `engine.rs` runs them as transactions on one
-- SlateDB database whose durable content is a sorted map of byte keys, `binary.rs` stores vectors as
-- checksummed blocks, and `backup.rs` exports, verifies and restores the whole map.
--
-- `index.rs` builds an index of a namespace from a snapshot, `search.rs` answers queries from it and
-- from what changed since, and `config.rs` says with which limits.
--
-- Parts, and the files that model them:
--   Shared   lists, bytes in order and equality, little-endian words, u64 that wraps, tests
--   Error    src/error.rs: `Error`, `Result` with `?` as `>>=`, `into_response`; `Ensures` is the
--            predicate "if it returns, then so", with its rules for binding
--   Model    src/model.rs: the records, the limits and the validation; a float is its bits
--   Config   src/config.rs: the structs with their defaults, `validate`, `load`
--   Binary   src/binary.rs: `encode`, `decode`, `encode_vector`, `decode_vector`
--   Slate    the SlateDB database: a record `Slate` of operations and of laws that state its
--            documented behaviour (reads see the durable content, a batch is applied whole or not at
--            all), the sorted content, sums over it, and `Action`, the state monad of a transaction
--   Engine   src/engine.rs: keys, reads, and `write`, split as the source's loop body is
--            (`write_item`: `uncount`, `put_item`, `mark_change`), with the draft that it builds;
--            `create_namespace`; `delete_namespace`, `erase_namespace` and the loop of `open_inner` that
--            takes up deletions; `namespaces`, `documents` and their pages; the index job,
--            `build_index_inner` with `cleanup_inner`
--   Backup   src/backup.rs: `export` as the bytes of its stream, `verify`, `restore`
--   Index    src/index.rs: keys, terms, `build` with its clusters, `filter_ids`; `JsonOps` is what it
--            asks of a JSON value, and Index/Value fills it for the values of serde_json
--   Search   src/search.rs: the heap, the scores, `vector_query` and `text_query`, and
--            `Engine::query` and `Engine::search_text` of src/engine.rs
--   Cluster  src/cluster.rs: `shard_for`; `run_worker` with `retire` and the test of `worker_forward`,
--            as the moves of a worker between two waits (Lease), and a relation of steps in which
--            workers, time and the puts that the object store applies interleave (Lease/Steps)
--   Access   src/api.rs: `Access` with `load` and `authorize`, and `equal_token`
--   Examples a database in memory and other concrete parameters, and the theorems applied to them
--
-- Parameters: SlateDB (`Slate`), serde_json (`Serde`, with its round trips), the CRC-32, SHA-256,
-- the parsers of URLs and TOML, the arithmetic of floats, the tables of Unicode, the name of a new
-- index generation and the variables of the environment. The database may fail at any call, and a
-- batch that it reports as failed may have been applied.
-- `write` holds the schema lock from its readiness check to the end, so it is one step.
-- Counters are u64 that wrap, as in a release build.
--
-- Loops are recursion on the list that they run over, or on the count that the source reads. The two
-- loops over the records of a file take its length as fuel: a record takes at least eight bytes and
-- the footer more than one, so it is enough (Backup/Accepts/Passing, `length-lt-body`).
-- The decimal digits of a block's number have the fuel 20, enough for any usize.
-- The lease's object store is not code of the repository: what its steps may be is its documented
-- behaviour, a conditional put that is applied at some time or never and a new ETag for each.
-- An index job runs without another task's write between its steps; a chunk of its cleanup reads the
-- database as it is then.
-- Not modelled: the migration and the download of a backup, the start of the engine but for deletions
-- that it takes up, the timer of the indexer, the gateway of the cluster, which is calls of an HTTP
-- client, the text of error messages, the cancellation of tasks, the HTTP layer, metrics and the
-- command line.

pub mod Shared
pub mod Error
pub mod Model
pub mod Config
pub mod Binary
pub mod Slate
pub mod Engine
pub mod Backup
pub mod Index
pub mod Search
pub mod Cluster
pub mod Access
pub mod Examples
