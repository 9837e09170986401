-- ===== src/Observability/Totals.antt =====
-- `IndexerMetrics` of crates/observability/src/lib.rs after any number of batches that succeeded.
use rust_ethereum_indexer.Prelude.{
  ℕ, ◌+◌, ◌-◌, ◌%◌, max, ◌≡◌, refl, ap, ◌∙◌, List, [], ◌∷◌, map, arith, u64_mod,
}
use rust_ethereum_indexer.Observability.Throughput.{Bucket, record_batch, wrapping_add}
use rust_ethereum_indexer.Observability.Metrics.{
  BatchMetrics, IndexerMetrics, new, record_tip_lag, set_checkpoint, record_duplicate_inserts,
  record_batch_success,
}
use rust_ethereum_indexer.Observability.Snapshot.{snapshot}
use rust_ethereum_indexer.Observability.Rates.{InTime, replay, since, reach, snapshot-since}

-- What a batch does to the numbers of a snapshot, on whichever lane.
record Counted (now : ℕ) (b : BatchMetrics) (m m' : IndexerMetrics) : Type 0 where
  throughput : m'.throughput ≡ (record_batch m.throughput now b.blocks b.events).0
  successful : m'.successful_blocks ≡ wrapping_add m.successful_blocks b.blocks
  duplicates : m'.duplicate_inserts % u64_mod ≡ wrapping_add m.duplicate_inserts b.duplicate_events
  failed : m'.failed_blocks ≡ m.failed_blocks

record_batch_success-Counted :
    (now : ℕ) (b : BatchMetrics) (m : IndexerMetrics)
    → Counted now b m (record_batch_success now b m)
unfolding record_batch_success record_tip_lag set_checkpoint record_duplicate_inserts
record_batch_success-Counted now b m = record {
  throughput = ground arith;
  successful = ground arith;
  duplicates = ground arith;
  failed = ground arith;
}

-- A batch, and the time of day at which it was recorded.
abbrev pub Entry : Type 0
Entry = ℕ × BatchMetrics

-- The counters after the batches, the latest first.
unfoldable pub recorded : ℕ → List Entry → IndexerMetrics
recorded window_secs [] = new window_secs
recorded window_secs ((now, b) ∷ history) =
    record_batch_success now b (recorded window_secs history)

abbrev pub bucket_of : Entry → Bucket
bucket_of (now, b) = record { second = now; blocks = b.blocks; events = b.events }

abbrev pub sum_of : (BatchMetrics → ℕ) → List Entry → ℕ
sum_of f [] = 0
sum_of f ((now, b) ∷ history) = f b + sum_of f history

counted :
    (window_secs now : ℕ) (b : BatchMetrics) (history : List Entry)
    → Counted now b (recorded window_secs history) (recorded window_secs ((now, b) ∷ history))
unfolding recorded
counted window_secs now b history =
    record_batch_success-Counted now b (recorded window_secs history)

recorded_rates :
    (window_secs : ℕ) (history : List Entry)
    → (recorded window_secs history).throughput ≡ replay (max window_secs 1) (map bucket_of history)
unfolding recorded replay new
recorded_rates window_secs [] = refl
recorded_rates window_secs ((now, b) ∷ history) =
    (counted window_secs now b history).throughput
    ∙ ap (λ r. (record_batch r now b.blocks b.events).0) (recorded_rates window_secs history)

recorded_totals :
    (window_secs : ℕ) (history : List Entry)
    → ((recorded window_secs history).successful_blocks ≡ sum_of (λ b. b.blocks) history % u64_mod)
      × ((recorded window_secs history).duplicate_inserts % u64_mod
          ≡ sum_of (λ b. b.duplicate_events) history % u64_mod)
unfolding recorded new
recorded_totals window_secs [] = (refl, refl)
recorded_totals window_secs ((now, b) ∷ history) =
    let (blocks, duplicates) = recorded_totals window_secs history in
    let step = counted window_secs now b history in
    (omega (arith, step.successful), omega (arith, step.duplicates))

-- On a clock that does not run backwards, after any batches that succeeded on either lane: a
-- snapshot of the metrics counts the blocks and the events of the batches of the last `window_secs`
-- seconds, and all blocks and all duplicates since the start, modulo 2 ^ 64.
pub snapshot-recorded :
    (window_secs now : ℕ) (history : List Entry)
    → InTime now (map bucket_of history)
    → ((snapshot now (recorded window_secs history)).1.blocks_per_second.numerator
        ≡ since (λ b. b.blocks) (now - reach (max window_secs 1)) (map bucket_of history) % u64_mod)
      × ((snapshot now (recorded window_secs history)).1.events_per_second.numerator
          ≡ since (λ b. b.events) (now - reach (max window_secs 1)) (map bucket_of history)
            % u64_mod)
      × ((snapshot now (recorded window_secs history)).1.successful_blocks
          ≡ sum_of (λ b. b.blocks) history % u64_mod)
      × ((snapshot now (recorded window_secs history)).1.duplicate_inserts % u64_mod
          ≡ sum_of (λ b. b.duplicate_events) history % u64_mod)
unfolding snapshot
snapshot-recorded window_secs now history times =
    let rolling = snapshot-since (max window_secs 1) (map bucket_of history) now times in
    let totals = recorded_totals window_secs history in
    rw (recorded_rates window_secs history) (rolling.0, rolling.1, totals.0, totals.1)
