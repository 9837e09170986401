-- ===== src/Observability/Snapshot.antt =====
-- crates/observability/src/lib.rs, lines 64 to 81 and 324 to 349: `MetricsSnapshot`, and `snapshot`
-- of `IndexerMetrics`.
use rust_ethereum_indexer.Prelude.{ℕ}
use rust_ethereum_indexer.Observability.Throughput.{Rate}
use rust_ethereum_indexer.Observability.Throughput
use rust_ethereum_indexer.Observability.Metrics.{IndexerMetrics}

pub record MetricsSnapshot : Type 0 where
  pub rolling_window_secs : ℕ
  pub blocks_per_second : Rate
  pub events_per_second : Rate
  pub successful_blocks : ℕ
  pub failed_blocks : ℕ
  pub reorg_events : ℕ
  pub rollbacks : ℕ
  pub rpc_failures : ℕ
  pub rpc_retries : ℕ
  pub checkpoint_recoveries : ℕ
  pub duplicate_inserts : ℕ
  pub finalized_tip_lag_blocks : ℕ
  pub hot_tip_lag_blocks : ℕ
  pub last_ingestion_delay_secs : ℕ
  pub finalized_checkpoint : ℕ
  pub hot_checkpoint : ℕ

-- `snapshot`, at the time of day `now`: the rolling throughput is pruned.
unfoldable pub snapshot : ℕ → IndexerMetrics → IndexerMetrics × MetricsSnapshot
snapshot now m =
    let (throughput, rolling) = Throughput.snapshot m.throughput now in
    (
      record m { throughput = throughput },
      record {
        rolling_window_secs = m.rolling_window_secs;
        blocks_per_second = rolling.blocks_per_second;
        events_per_second = rolling.events_per_second;
        successful_blocks = m.successful_blocks;
        failed_blocks = m.failed_blocks;
        reorg_events = m.reorg_events;
        rollbacks = m.rollbacks;
        rpc_failures = m.rpc_failures;
        rpc_retries = m.rpc_retries;
        checkpoint_recoveries = m.checkpoint_recoveries;
        duplicate_inserts = m.duplicate_inserts;
        finalized_tip_lag_blocks = m.finalized_tip_lag_blocks;
        hot_tip_lag_blocks = m.hot_tip_lag_blocks;
        last_ingestion_delay_secs = m.last_ingestion_delay_secs;
        finalized_checkpoint = m.finalized_checkpoint;
        hot_checkpoint = m.hot_checkpoint;
      },
    )
