-- ===== src/Observability/Exported.antt =====
-- The counters that the program keeps for itself, and those that it sends to the Prometheus
-- exporter (crates/observability/src/lib.rs): they count the same.
use rust_ethereum_indexer.Prelude.{
  ℕ, ◌<◌, ◌+◌, ◌%◌, Bool, ◌&&◌, ◌≡◌, List, [], ◌∷◌, ◌++◌, arith, u64_mod, if◌then◌else◌, any_of,
}
use Prim.Native.String.{String}
use text.Mathlib.Text.{◌==◌ as str_eq}
use rust_ethereum_indexer.Observability.Metrics.{
  BatchMetrics, IndexerMetrics, new, record_rpc_result, record_rpc_retry, record_checkpoint_resume,
  set_checkpoint, record_tip_lag, record_reorg_detected, record_rollback, record_duplicate_inserts,
  record_block_ingestion_delay, record_batch_success, record_batch_failure,
}
use rust_ethereum_indexer.Observability.Exporter.{
  Labels, Sample, rpc_result_samples, rpc_retry_samples, checkpoint_samples,
  checkpoint_resume_samples, tip_lag_samples, reorg_samples, rollback_samples, duplicate_samples,
  delay_samples, batch_success_samples, batch_failure_samples,
}

-- A call of a method of `IndexerMetrics`.
pub data Call : Type 0 where
  rpc_result : String → ℕ → Bool → Call
  rpc_retry : String → Call
  checkpoint_resume : String → ℕ → ℕ → Call
  checkpoint : String → ℕ → Call
  tip_lag : String → ℕ → Call
  reorg_detected : String → String → Call
  rollback : String → Call
  duplicate_inserts : String → ℕ → Call
  block_ingestion_delay : String → ℕ → Call
  batch_success : ℕ → BatchMetrics → Call
  batch_failure : String → ℕ → Call

-- What the call does to the counters of the program, and what it sends to the exporter.
abbrev pub counted : Call → IndexerMetrics → IndexerMetrics
counted (Call.rpc_result method duration success) m = record_rpc_result success m
counted (Call.rpc_retry method) m = record_rpc_retry m
counted (Call.checkpoint_resume worker cp start) m = record_checkpoint_resume worker cp start m
counted (Call.checkpoint worker cp) m = set_checkpoint worker cp m
counted (Call.tip_lag lane lag) m = record_tip_lag lane lag m
counted (Call.reorg_detected lane source) m = record_reorg_detected m
counted (Call.rollback lane) m = record_rollback m
counted (Call.duplicate_inserts lane n) m = record_duplicate_inserts n m
counted (Call.block_ingestion_delay lane delay) m = record_block_ingestion_delay delay m
counted (Call.batch_success now batch) m = record_batch_success now batch m
counted (Call.batch_failure lane blocks) m = record_batch_failure blocks m

abbrev pub sent : Call → IndexerMetrics → List Sample
sent (Call.rpc_result method duration success) m = rpc_result_samples method duration success
sent (Call.rpc_retry method) m = rpc_retry_samples method
sent (Call.checkpoint_resume worker cp start) m = checkpoint_resume_samples worker cp start
sent (Call.checkpoint worker cp) m = checkpoint_samples worker cp
sent (Call.tip_lag lane lag) m = tip_lag_samples lane lag
sent (Call.reorg_detected lane source) m = reorg_samples lane source
sent (Call.rollback lane) m = rollback_samples lane
sent (Call.duplicate_inserts lane n) m = duplicate_samples lane n
sent (Call.block_ingestion_delay lane delay) m = delay_samples lane delay
sent (Call.batch_success now batch) m = batch_success_samples now batch m
sent (Call.batch_failure lane blocks) m = batch_failure_samples lane blocks

-- Some calls after a start with the window `secs`, the latest first.
unfoldable pub counters : ℕ → List Call → IndexerMetrics
counters secs [] = new secs
counters secs (c ∷ calls) = counted c (counters secs calls)

unfoldable pub samples : ℕ → List Call → List Sample
samples secs [] = []
samples secs (c ∷ calls) = samples secs calls ++ sent c (counters secs calls)

abbrev has_label : String × String → Labels → Bool
has_label (key, value) labels = any_of (λ l. str_eq l.0 key && str_eq l.1 value) labels

-- By how much the sample increments a counter, over all of its labels.
abbrev pub increment_of : String → Sample → ℕ
increment_of name (Sample.increment n labels by) = if str_eq n name then by else 0
increment_of name _ = 0

-- The same over the labels with the status "failure".
abbrev pub failed_of : String → Sample → ℕ
failed_of name (Sample.increment n labels by) =
    if str_eq n name && any_of (λ l. str_eq l.0 "status" && str_eq l.1 "failure") labels
    then by
    else 0
failed_of name _ = 0

abbrev pub total : (Sample → ℕ) → List Sample → ℕ
total f [] = 0
total f (s ∷ ss) = f s + total f ss

total-append : (f : Sample → ℕ) (xs ys : List Sample) → total f (xs ++ ys) ≡ total f xs + total f ys
total-append f [] ys = omega arith
total-append f (x ∷ xs) ys = omega (arith, total-append f xs ys)

-- Each counter of the program is what the exporter has counted, modulo 2^64.
pub record Agrees (m : IndexerMetrics) (ss : List Sample) : Type 0 where
  pub successful :
      m.successful_blocks ≡ total (increment_of "indexer_blocks_processed_total") ss % u64_mod
  pub failed : m.failed_blocks ≡ total (failed_of "indexer_block_processing_total") ss % u64_mod
  pub reorgs : m.reorg_events ≡ total (increment_of "indexer_reorg_events_total") ss % u64_mod
  pub rollbacks : m.rollbacks ≡ total (increment_of "indexer_rollbacks_total") ss % u64_mod
  pub failures : m.rpc_failures ≡ total (increment_of "indexer_rpc_failures_total") ss % u64_mod
  pub retries : m.rpc_retries ≡ total (increment_of "indexer_rpc_retries_total") ss % u64_mod
  pub recoveries :
      m.checkpoint_recoveries
      ≡ total (increment_of "indexer_checkpoint_recoveries_total") ss % u64_mod
  pub duplicates :
      m.duplicate_inserts ≡ total (increment_of "indexer_duplicate_inserts_total") ss % u64_mod

-- From the counter `x` to `x'` while the exporter counts `by` more.
abbrev Moves : ℕ → ℕ → ℕ → Type 0
Moves x x' by = x < u64_mod → x' ≡ (x + by) % u64_mod

-- What one call adds to each counter.
record Adds (m m' : IndexerMetrics) (new : List Sample) : Type 0 where
  successful :
      Moves m.successful_blocks m'.successful_blocks
        (total (increment_of "indexer_blocks_processed_total") new)
  failed :
      Moves m.failed_blocks m'.failed_blocks
        (total (failed_of "indexer_block_processing_total") new)
  reorgs :
      Moves m.reorg_events m'.reorg_events (total (increment_of "indexer_reorg_events_total") new)
  rollbacks : Moves m.rollbacks m'.rollbacks (total (increment_of "indexer_rollbacks_total") new)
  failures :
      Moves m.rpc_failures m'.rpc_failures (total (increment_of "indexer_rpc_failures_total") new)
  retries :
      Moves m.rpc_retries m'.rpc_retries (total (increment_of "indexer_rpc_retries_total") new)
  recoveries :
      Moves m.checkpoint_recoveries m'.checkpoint_recoveries
        (total (increment_of "indexer_checkpoint_recoveries_total") new)
  duplicates :
      Moves m.duplicate_inserts m'.duplicate_inserts
        (total (increment_of "indexer_duplicate_inserts_total") new)

counted-Adds : (c : Call) (m : IndexerMetrics) → Adds m (counted c m) (sent c m)
unfolding record_rpc_result rpc_result_samples record_rpc_retry rpc_retry_samples
    record_checkpoint_resume checkpoint_resume_samples set_checkpoint checkpoint_samples
    record_tip_lag tip_lag_samples record_reorg_detected reorg_samples record_rollback
    rollback_samples record_duplicate_inserts duplicate_samples record_block_ingestion_delay
    delay_samples record_batch_success batch_success_samples record_batch_failure
    batch_failure_samples any_of
counted-Adds (Call.rpc_result method duration success) m = ground arith
counted-Adds (Call.rpc_retry method) m = ground arith
counted-Adds (Call.checkpoint_resume worker cp start) m = ground arith
counted-Adds (Call.checkpoint worker cp) m = ground arith
counted-Adds (Call.tip_lag lane lag) m = ground arith
counted-Adds (Call.reorg_detected lane source) m = ground arith
counted-Adds (Call.rollback lane) m = ground arith
counted-Adds (Call.duplicate_inserts lane n) m = ground arith
counted-Adds (Call.block_ingestion_delay lane delay) m = ground arith
counted-Adds (Call.batch_success now batch) m = ground arith
counted-Adds (Call.batch_failure lane blocks) m = ground arith

abbrev Counts : ℕ → (Sample → ℕ) → List Sample → Type 0
Counts x f ss = x ≡ total f ss % u64_mod

grown :
    (f : Sample → ℕ) (ss new : List Sample) (x x' : ℕ)
    → Counts x f ss
    → Moves x x' (total f new)
    → Counts x' f (ss ++ new)
grown f ss new x x' counts moves =
    rw (total-append f ss new) (omega (arith, counts, moves (omega (arith, counts))))

-- One call more.
extended :
    (m m' : IndexerMetrics) (ss new : List Sample)
    → Agrees m ss
    → Adds m m' new
    → Agrees m' (ss ++ new)
extended m m' ss new h a = record {
  successful = grown _ ss new _ _ h.successful a.successful;
  failed = grown _ ss new _ _ h.failed a.failed;
  reorgs = grown _ ss new _ _ h.reorgs a.reorgs;
  rollbacks = grown _ ss new _ _ h.rollbacks a.rollbacks;
  failures = grown _ ss new _ _ h.failures a.failures;
  retries = grown _ ss new _ _ h.retries a.retries;
  recoveries = grown _ ss new _ _ h.recoveries a.recoveries;
  duplicates = grown _ ss new _ _ h.duplicates a.duplicates;
}

-- After any calls of the methods of `IndexerMetrics`, each of the eight counters that the program
-- keeps is the sum of the increments that it has sent to the exporter for the metric of that name,
-- over all labels, modulo 2^64; for the failed blocks, over the labels with the status "failure".
pub counters-Agrees :
    (secs : ℕ) (calls : List Call) → Agrees (counters secs calls) (samples secs calls)
unfolding counters samples new
counters-Agrees secs [] = ground arith
counters-Agrees secs (c ∷ calls) =
    extended (counters secs calls) _ (samples secs calls) _ (counters-Agrees secs calls)
      (counted-Adds c (counters secs calls))
