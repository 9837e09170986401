-- ===== src/Lib.antt =====
-- A verification library for the Ethereum indexer: a Rust program that copies the ERC-20 transfers
-- of a chain into PostgreSQL.
--
-- The parts and how they interact. Two workers (crates/ingestion/src/lib.rs) ask an RPC provider
-- (crates/rpc/src/lib.rs) for the head of the chain, for blocks and for logs, decode the logs
-- (crates/decoder/src/lib.rs) and write them in transactions (crates/storage/src/lib.rs).
-- run_backfill writes the finalized lane, behind the head by the confirmation depth; run_live
-- writes the hot lane, up to the head. Each worker checks that the stored hashes are still those of
-- the chain, and rolls back from the first block where they are not. All of them count what they do
-- (crates/observability/src/lib.rs).
--
-- Files.
-- Prelude: tests, lists and their members, texts, signed integers and casts between u64 and i64, errors and the state
-- monad.
-- Storage/Tables: migrations/*.sql and crates/storage/src/models.rs, the tables and what a
-- statement does to them.
-- Storage/Session: begin, execute and commit on a server that may refuse a request or lose a reply.
-- Storage/Statements and Storage/Calls: the functions of crates/storage/src/lib.rs, private and
-- public.
-- Storage/Blocks, Rows, Members and Partitions: the laws of the tables.
-- Storage/Creation, Loop, Ranges and Inserts: the loop over partitions and the INSERT statements.
-- Storage/Effects: the database that each writing function is meant to leave.
-- Storage/Outcome, Faults, Agreement, Atomic and Replay: that it does so, on a server that fails.
-- Decoder: decode_erc20_transfer; Decoder/Roundtrip: the encoder that it is compared with.
-- World: what the workers share, and the services that they call. Rpc/Client: with_retry and the
-- three requests; Rpc/Retry and Success: what a caller may rely on.
-- Observability/Throughput and Metrics: RollingThroughput, BatchMetrics, IndexerMetrics;
-- Observability/Snapshot: MetricsSnapshot; Observability/Window, Rates and Totals: the rolling
-- window, and what a snapshot counts; Observability/Exporter, Exported and Described: what the methods
-- send to the exporter, and how it agrees with the counters and the announced metrics.
-- Ingestion/Payload, Engine, Steps and Workers: build_range_payload, the methods of BackfillEngine,
-- and the loops of run_backfill and run_live.
-- Ingestion/Keeps: rules for conditions on the database before and after; Ingestion/Writes: the
-- transactions of each worker, as the other one meets them.
-- Ingestion/Gather, Fetch, Finalized, Reports, Backfill, FinalizedBatch and BackfillRun: the
-- finalized lane under run_backfill.
-- Ingestion/Hot, Live, HotBatch and LiveRun: the hot lane under run_live.
-- Ingestion/BlockZero: run_backfill with start block 0.
-- Ingestion/Total, Serving, OnChain, Recovery, Batch, Progress, Rounds and Convergence:
-- run_backfill while PostgreSQL and the provider serve: the rules for code that succeeds, the
-- fetching, the recovery from a reorganisation, a batch, and the rounds; Ingestion/HotCalls,
-- HotStates, HotRecovery, HotFresh and LiveFresh: the same of run_live.
-- Ingestion/ChainLogs: the rows that belong to the logs of a chain, described without the code;
-- Ingestion/GatherRows, Faithful, FaithfulBatch, FinalizedFaithful, HotFaithful, Complete and
-- HotComplete: the transfers that the two workers store of it.
-- Ingestion/Unbroken, HotClean, HotProgress, CaughtUp and LiveComplete: the live worker reaches the
-- head, without gaps. Ingestion/Trace: each worker as a relation of guarded steps; Ingestion/Race:
-- two of them in an unlucky order.
-- Api/Address, Record, Query and Status: parse_address, the printed rows, the query erc20_transfers and
-- indexer_status of crates/api/src/schema.rs; Api/Printed, Accepts, Order, Count, Pages
-- and Latest: what they
-- accept and return.
-- Indexer/Number and Settings: indexer/src/main.rs, the settings that it reads from the environment and
-- the workers that it starts; Indexer/Parse, Start and Mode: what they come to.
-- Examples: the theorems at concrete inputs.
--
-- How the state is modelled. A Database has the two transfers tables with their partitions, the two
-- blocks tables and the two checkpoints. A transaction works on the database and puts the old one
-- back when a request fails; a server that loses the reply to a commit keeps the new one. Answers
-- of PostgreSQL and of the provider are functions of the number of the request, so they may differ
-- at each call. A u64 is a natural number, an i64 an integer, and each cast of the source is
-- written out with its wrap-around.
--
-- Bounds and fuel. The loop over partitions has fuel for each round that it can make and one more
-- (partition_rounds); Storage/Loop shows that it is enough. with_retry has fuel max_retries + 1,
-- the number of its attempts. The workers never return except with an error, so a run of one is
-- counted in rounds, and the theorems are about each number of rounds.
--
-- Not modelled. The HTTP server, the Prometheus exporter itself (the samples are), the tracing set-up
-- and log lines, sleeping, the connection pool, and the indexes of the tables. The environment
-- is a parameter. Block metadata is fetched in order, one request after the other; the code has up
-- to four requests open and collects the replies in the same order. The limit of PostgreSQL on the
-- parameters of one statement is one of the reasons for which it may refuse a request. A run of one
-- worker has the transactions that the other one commits between any two of its requests (World:
-- others; Ingestion/Writes), each as one step: that the statements of two transactions interleave,
-- as READ COMMITTED allows, is not modelled.
pub mod Prelude
pub mod Storage
pub mod Observability
pub mod Decoder
pub mod World
pub mod Indexer
pub mod Rpc
pub mod Ingestion
pub mod Api
pub mod Examples
