-- ===== src/Ingestion.antt =====
-- crates/ingestion/src/lib.rs: the two workers.
pub mod Payload
pub mod Engine
pub mod Steps
pub mod Workers
pub mod Keeps
pub mod Gather
pub mod Fetch
pub mod Finalized
pub mod Hot
pub mod Writes
pub mod Total
pub mod Serving
pub mod Reports
pub mod Backfill
pub mod FinalizedBatch
pub mod OnChain
pub mod Recovery
pub mod Batch
pub mod BackfillRun
pub mod Progress
pub mod Rounds
pub mod ChainLogs
pub mod GatherRows
pub mod Faithful
pub mod FaithfulBatch
pub mod FinalizedFaithful
pub mod Trace
pub mod Unbroken
pub mod HotProgress
pub mod CaughtUp
pub mod LiveComplete
pub mod Race
pub mod HotFaithful
pub mod HotComplete
pub mod Convergence
pub mod Complete
pub mod BlockZero
pub mod Live
pub mod HotBatch
pub mod HotCalls
pub mod HotStates
pub mod HotRecovery
pub mod HotClean
pub mod HotFresh
pub mod LiveFresh
pub mod LiveRun
