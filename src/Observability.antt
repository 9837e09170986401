-- ===== src/Observability.antt =====
-- crates/observability: the counters of `IndexerMetrics`, the rolling throughput, and what the
-- exporter is sent. The Prometheus recorder itself and the log are not modelled.
pub mod Throughput
pub mod Metrics
pub mod Exporter
pub mod Exported
pub mod Described
pub mod Window
pub mod Rates
pub mod Snapshot
pub mod Totals
