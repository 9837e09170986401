-- ===== src/Examples.antt =====
-- The theorems at concrete inputs.
pub mod Exporter
pub mod Fixtures
pub mod Storage
pub mod Race
pub mod Workers
pub mod Convergence
pub mod Fresh
pub mod Indexer
pub mod Components
pub mod Throughput
pub mod Queries
pub mod Logs
pub mod Complete
pub mod LiveComplete
