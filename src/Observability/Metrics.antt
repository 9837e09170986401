-- ===== src/Observability/Metrics.antt =====
-- crates/observability/src/lib.rs, lines 19 to 349: `BatchMetrics`, and `IndexerMetrics` with the
-- methods that change its counters, one call at a time.
use rust_ethereum_indexer.Prelude.{
  ℕ, max, Bool, not, ◌&&◌, List, [], ◌∷◌, ltb, leb, ◌==◌, if◌then◌else◌,
}
use Prim.Native.String.{String}
use text.Mathlib.Text.{◌==◌ as str_eq}
use rust_ethereum_indexer.Observability.Throughput.{
  Rate, RollingThroughput, RollingSnapshot, wrapping_add, record_batch,
}
use rust_ethereum_indexer.Observability.Throughput

-- A `Duration` is its number of nanoseconds.
pub record BatchMetrics : Type 0 where
  pub lane : String
  pub start_block : ℕ
  pub end_block : ℕ
  pub latest_block : ℕ
  pub checkpoint : ℕ
  pub blocks : ℕ
  pub events : ℕ
  pub tx_count : ℕ
  pub duplicate_events : ℕ
  pub tip_lag_blocks : ℕ
  pub avg_ingestion_delay_secs : Rate
  pub max_ingestion_delay_secs : ℕ
  pub block_fetch_duration : ℕ
  pub log_fetch_duration : ℕ
  pub decode_duration : ℕ
  pub db_commit_duration : ℕ
  pub total_duration : ℕ

-- `max_by_key`: of equal keys the last one
unfoldable pub max_by_key : String × ℕ → List (String × ℕ) → String × ℕ
max_by_key best [] = best
max_by_key best (s ∷ rest) = max_by_key (if ltb s.1 best.1 then best else s) rest

unfoldable pub slowest_stage : BatchMetrics → String × ℕ × Rate
unfolding max_by_key
slowest_stage m =
    let s =
      max_by_key ("block_fetch", m.block_fetch_duration)
        (("log_fetch", m.log_fetch_duration)
          ∷ ("decode", m.decode_duration)
          ∷ ("db_commit", m.db_commit_duration)
          ∷ []) in
    (
      s.0,
      s.1,
      if m.total_duration == 0
          then record { numerator = 0; denominator = 1 }
          else record { numerator = s.1; denominator = m.total_duration },
    )

pub record IndexerMetrics : Type 0 where
  pub rolling_window_secs : ℕ
  pub throughput : RollingThroughput
  pub successful_blocks : ℕ
  pub failed_blocks : ℕ
  pub reorg_events : ℕ
  pub rollbacks : ℕ
  pub rpc_failures : ℕ
  pub rpc_retries : ℕ
  pub checkpoint_recoveries : ℕ
  pub duplicate_inserts : ℕ
  pub finalized_tip_lag_blocks : ℕ
  pub hot_tip_lag_blocks : ℕ
  pub last_ingestion_delay_secs : ℕ
  pub finalized_checkpoint : ℕ
  pub hot_checkpoint : ℕ

unfoldable pub new : ℕ → IndexerMetrics
new rolling_window_secs = record {
  rolling_window_secs = max rolling_window_secs 1;
  throughput = Throughput.new (max rolling_window_secs 1);
  successful_blocks = 0;
  failed_blocks = 0;
  reorg_events = 0;
  rollbacks = 0;
  rpc_failures = 0;
  rpc_retries = 0;
  checkpoint_recoveries = 0;
  duplicate_inserts = 0;
  finalized_tip_lag_blocks = 0;
  hot_tip_lag_blocks = 0;
  last_ingestion_delay_secs = 0;
  finalized_checkpoint = 0;
  hot_checkpoint = 0;
}

unfoldable pub record_rpc_result : Bool → IndexerMetrics → IndexerMetrics
record_rpc_result success m =
    if not success then record m { rpc_failures = wrapping_add m.rpc_failures 1 } else m

unfoldable pub record_rpc_retry : IndexerMetrics → IndexerMetrics
record_rpc_retry m = record m { rpc_retries = wrapping_add m.rpc_retries 1 }

unfoldable pub set_checkpoint : String → ℕ → IndexerMetrics → IndexerMetrics
set_checkpoint worker checkpoint m =
    if str_eq worker "finalized"
    then record m { finalized_checkpoint = checkpoint }
    else if str_eq worker "hot"
    then record m { hot_checkpoint = checkpoint }
    else m

unfoldable pub record_checkpoint_resume : String → ℕ → ℕ → IndexerMetrics → IndexerMetrics
unfolding set_checkpoint
record_checkpoint_resume worker checkpoint start_block m =
    let m' = set_checkpoint worker checkpoint m in
    if ltb 0 checkpoint && leb start_block checkpoint
    then record m' { checkpoint_recoveries = wrapping_add m'.checkpoint_recoveries 1 }
    else m'

unfoldable pub record_tip_lag : String → ℕ → IndexerMetrics → IndexerMetrics
record_tip_lag lane lag_blocks m =
    if str_eq lane "finalized"
    then record m { finalized_tip_lag_blocks = lag_blocks }
    else if str_eq lane "hot"
    then record m { hot_tip_lag_blocks = lag_blocks }
    else m

unfoldable pub record_reorg_detected : IndexerMetrics → IndexerMetrics
record_reorg_detected m = record m { reorg_events = wrapping_add m.reorg_events 1 }

unfoldable pub record_rollback : IndexerMetrics → IndexerMetrics
record_rollback m = record m { rollbacks = wrapping_add m.rollbacks 1 }

unfoldable pub record_duplicate_inserts : ℕ → IndexerMetrics → IndexerMetrics
record_duplicate_inserts duplicates m =
    if duplicates == 0
    then m
    else record m { duplicate_inserts = wrapping_add m.duplicate_inserts duplicates }

-- The delay in whole seconds.
unfoldable pub record_block_ingestion_delay : ℕ → IndexerMetrics → IndexerMetrics
record_block_ingestion_delay delay_secs m = record m { last_ingestion_delay_secs = delay_secs }

abbrev pub count_throughput : ℕ → BatchMetrics → IndexerMetrics → IndexerMetrics
count_throughput now batch m = record m {
  throughput = (record_batch m.throughput now batch.blocks batch.events).0;
}

-- `record_batch_success`, at the time of day `now`
unfoldable pub record_batch_success : ℕ → BatchMetrics → IndexerMetrics → IndexerMetrics
unfolding record_tip_lag set_checkpoint record_duplicate_inserts
record_batch_success now batch m = count_throughput now batch (
    record_duplicate_inserts batch.duplicate_events (
      set_checkpoint batch.lane batch.checkpoint (
        record_tip_lag batch.lane batch.tip_lag_blocks
          (record m { successful_blocks = wrapping_add m.successful_blocks batch.blocks }))))

unfoldable pub record_batch_failure : ℕ → IndexerMetrics → IndexerMetrics
record_batch_failure blocks m = record m { failed_blocks = wrapping_add m.failed_blocks blocks }
