-- ===== src/Observability/Exporter.antt =====
-- crates/observability/src/lib.rs, lines 122 to 321 and 422 to 493: what the methods of
-- `IndexerMetrics` send to the Prometheus exporter, and the metrics that `describe_metrics`
-- announces. A sample is one call of `counter!`, `gauge!` or `histogram!` of the crate metrics.
use rust_ethereum_indexer.Prelude.{
  ℕ, Bool, not, ◌&&◌, List, [], ◌∷◌, ◌++◌, ltb, leb, ◌==◌, if◌then◌else◌,
}
use Prim.Native.String.{String}
use rust_ethereum_indexer.Observability.Throughput.{Rate, record_batch}
use rust_ethereum_indexer.Observability.Metrics.{BatchMetrics, IndexerMetrics}

-- "label" => value, …
abbrev pub Labels : Type 0
Labels = List (String × String)

pub data Kind : Type 0 where
  counter gauge histogram : Kind

-- `increment`, `set`, `record`
pub data Sample : Type 0 where
  increment : String → Labels → ℕ → Sample
  set : String → Labels → Rate → Sample
  observe : String → Labels → Rate → Sample

-- `n as f64`
abbrev pub whole : ℕ → Rate
whole n = record { numerator = n; denominator = 1 }

-- `as_secs_f64` of a duration in nanoseconds
abbrev pub seconds : ℕ → Rate
seconds nanos = record { numerator = nanos; denominator = 1_000_000_000 }

unfoldable pub rpc_result_samples : String → ℕ → Bool → List Sample
rpc_result_samples method duration success =
    let outcome : String = if success then "success" else "failure" in
    Sample.increment "indexer_rpc_requests_total" (("method", method) ∷ ("outcome", outcome) ∷ []) 1
    ∷ Sample.observe "indexer_rpc_request_duration_seconds"
        (("method", method) ∷ ("outcome", outcome) ∷ []) (seconds duration)
    ∷ (if not success
        then Sample.increment "indexer_rpc_failures_total" (("method", method) ∷ []) 1 ∷ []
        else [])

unfoldable pub rpc_retry_samples : String → List Sample
rpc_retry_samples method =
    Sample.increment "indexer_rpc_retries_total" (("method", method) ∷ []) 1 ∷ []

unfoldable pub checkpoint_samples : String → ℕ → List Sample
checkpoint_samples worker checkpoint =
    Sample.set "indexer_checkpoint_block" (("worker", worker) ∷ []) (whole checkpoint) ∷ []

unfoldable pub checkpoint_resume_samples : String → ℕ → ℕ → List Sample
unfolding checkpoint_samples
checkpoint_resume_samples worker checkpoint start_block =
    checkpoint_samples worker checkpoint
    ++ (if ltb 0 checkpoint && leb start_block checkpoint
        then Sample.increment "indexer_checkpoint_recoveries_total" (("worker", worker) ∷ []) 1 ∷ []
        else [])

unfoldable pub tip_lag_samples : String → ℕ → List Sample
tip_lag_samples lane lag_blocks =
    Sample.set "indexer_tip_lag_blocks" (("lane", lane) ∷ []) (whole lag_blocks) ∷ []

unfoldable pub reorg_samples : String → String → List Sample
reorg_samples lane source =
    Sample.increment "indexer_reorg_events_total" (("lane", lane) ∷ ("source", source) ∷ []) 1 ∷ []

unfoldable pub rollback_samples : String → List Sample
rollback_samples lane = Sample.increment "indexer_rollbacks_total" (("lane", lane) ∷ []) 1 ∷ []

unfoldable pub duplicate_samples : String → ℕ → List Sample
duplicate_samples lane duplicates =
    if duplicates == 0
    then []
    else Sample.increment "indexer_duplicate_inserts_total" (("lane", lane) ∷ []) duplicates ∷ []

-- A delay of whole seconds: the only caller measures it between two times in seconds.
unfoldable pub delay_samples : String → ℕ → List Sample
delay_samples lane delay_secs =
    Sample.observe "indexer_block_ingestion_delay_seconds" (("lane", lane) ∷ []) (whole delay_secs)
    ∷ []

abbrev pub stage_sample : String → String → ℕ → Sample
stage_sample lane stage duration =
    Sample.observe "indexer_stage_duration_seconds" (("lane", lane) ∷ ("stage", stage) ∷ [])
      (seconds duration)

-- The rolling rates are those that the throughput reports when the batch is recorded.
unfoldable pub batch_success_samples : ℕ → BatchMetrics → IndexerMetrics → List Sample
unfolding tip_lag_samples checkpoint_samples duplicate_samples
batch_success_samples now batch m =
    let rolling = (record_batch m.throughput now batch.blocks batch.events).1 in
    tip_lag_samples batch.lane batch.tip_lag_blocks
    ++ (checkpoint_samples batch.lane batch.checkpoint
        ++ (duplicate_samples batch.lane batch.duplicate_events
            ++ (Sample.increment "indexer_blocks_processed_total" (("lane", batch.lane) ∷ [])
                  batch.blocks
                ∷ Sample.increment "indexer_events_processed_total" (("lane", batch.lane) ∷ [])
                    batch.events
                ∷ Sample.increment "indexer_block_processing_total"
                    (("lane", batch.lane) ∷ ("status", "success") ∷ []) batch.blocks
                ∷ stage_sample batch.lane "block_fetch" batch.block_fetch_duration
                ∷ stage_sample batch.lane "log_fetch" batch.log_fetch_duration
                ∷ stage_sample batch.lane "decode" batch.decode_duration
                ∷ stage_sample batch.lane "db_commit" batch.db_commit_duration
                ∷ Sample.observe "indexer_batch_processing_duration_seconds"
                    (("lane", batch.lane) ∷ []) (seconds batch.total_duration)
                ∷ Sample.set "indexer_blocks_processed_per_second_rolling" []
                    rolling.blocks_per_second
                ∷ Sample.set "indexer_events_processed_per_second_rolling" []
                    rolling.events_per_second
                ∷ [])))

unfoldable pub batch_failure_samples : String → ℕ → List Sample
batch_failure_samples lane blocks =
    Sample.increment "indexer_block_processing_total" (("lane", lane) ∷ ("status", "failure") ∷ [])
      blocks
    ∷ []

unfoldable pub describe_metrics : List (Kind × String)
describe_metrics =
    (Kind.counter, "indexer_blocks_processed_total")
    ∷ (Kind.counter, "indexer_events_processed_total")
    ∷ (Kind.counter, "indexer_block_processing_total")
    ∷ (Kind.counter, "indexer_reorg_events_total")
    ∷ (Kind.counter, "indexer_rollbacks_total")
    ∷ (Kind.counter, "indexer_rpc_requests_total")
    ∷ (Kind.counter, "indexer_rpc_failures_total")
    ∷ (Kind.counter, "indexer_rpc_retries_total")
    ∷ (Kind.counter, "indexer_checkpoint_recoveries_total")
    ∷ (Kind.counter, "indexer_duplicate_inserts_total")
    ∷ (Kind.gauge, "indexer_blocks_processed_per_second_rolling")
    ∷ (Kind.gauge, "indexer_events_processed_per_second_rolling")
    ∷ (Kind.gauge, "indexer_tip_lag_blocks")
    ∷ (Kind.gauge, "indexer_checkpoint_block")
    ∷ (Kind.histogram, "indexer_rpc_request_duration_seconds")
    ∷ (Kind.histogram, "indexer_block_ingestion_delay_seconds")
    ∷ (Kind.histogram, "indexer_stage_duration_seconds")
    ∷ (Kind.histogram, "indexer_batch_processing_duration_seconds")
    ∷ []
