-- ===== src/Observability/Described.antt =====
-- The metrics that `describe_metrics` of crates/observability/src/lib.rs announces, and the samples
-- that the methods of `IndexerMetrics` send.
use rust_ethereum_indexer.Prelude.{
  ℕ, Bool, true, false, ◌&&◌, ◌≡◌, List, [], ◌∷◌, ◌++◌, arith, any_of, All,
}
use Prim.Native.String.{String}
use text.Mathlib.Text.{◌==◌ as str_eq}
use rust_ethereum_indexer.Observability.Metrics.{IndexerMetrics}
use rust_ethereum_indexer.Observability.Exporter.{
  Kind, Sample, rpc_result_samples, rpc_retry_samples, checkpoint_samples,
  checkpoint_resume_samples, tip_lag_samples, reorg_samples, rollback_samples, duplicate_samples,
  delay_samples, batch_success_samples, batch_failure_samples, describe_metrics,
}
use rust_ethereum_indexer.Observability.Exported.{Call, counters, sent, samples}

abbrev same_kind : Kind → Kind → Bool
same_kind Kind.counter Kind.counter = true
same_kind Kind.gauge Kind.gauge = true
same_kind Kind.histogram Kind.histogram = true
same_kind _ _ = false

abbrev described : Kind → String → Bool
described kind name = any_of (λ d. same_kind d.0 kind && str_eq d.1 name) describe_metrics

-- The metric is announced, with the kind in which it is used.
abbrev pub IsDescribed : Sample → Type 0
IsDescribed (Sample.increment name labels by) = described Kind.counter name ≡ true
IsDescribed (Sample.set name labels to) = described Kind.gauge name ≡ true
IsDescribed (Sample.observe name labels by) = described Kind.histogram name ≡ true

All-append :
    (xs ys : List Sample) → All IsDescribed xs → All IsDescribed ys → All IsDescribed (xs ++ ys)
All-append [] ys h k = k
All-append (x ∷ xs) ys h k = (h.0, All-append xs ys h.1 k)

sent-IsDescribed : (c : Call) (m : IndexerMetrics) → All IsDescribed (sent c m)
unfolding rpc_result_samples rpc_retry_samples checkpoint_resume_samples checkpoint_samples
    tip_lag_samples reorg_samples rollback_samples duplicate_samples delay_samples
    batch_success_samples batch_failure_samples any_of describe_metrics
sent-IsDescribed (Call.rpc_result method duration success) m = ground arith
sent-IsDescribed (Call.rpc_retry method) m = ground arith
sent-IsDescribed (Call.checkpoint_resume worker cp start) m = ground arith
sent-IsDescribed (Call.checkpoint worker cp) m = ground arith
sent-IsDescribed (Call.tip_lag lane lag) m = ground arith
sent-IsDescribed (Call.reorg_detected lane source) m = ground arith
sent-IsDescribed (Call.rollback lane) m = ground arith
sent-IsDescribed (Call.duplicate_inserts lane n) m = ground arith
sent-IsDescribed (Call.block_ingestion_delay lane delay) m = ground arith
sent-IsDescribed (Call.batch_success now batch) m = ground arith
sent-IsDescribed (Call.batch_failure lane blocks) m = ground arith

-- Whatever is recorded, every sample that is sent to the exporter is of a metric that
-- `describe_metrics` announces, as a counter, a gauge or a histogram, as it is used.
pub samples-IsDescribed : (secs : ℕ) (calls : List Call) → All IsDescribed (samples secs calls)
unfolding samples
samples-IsDescribed secs [] = tt
samples-IsDescribed secs (c ∷ calls) =
    All-append (samples secs calls) _ (samples-IsDescribed secs calls)
      (sent-IsDescribed c (counters secs calls))
