-- ===== src/Examples/Throughput.antt =====
-- The rolling throughput after three batches.
use rust_ethereum_indexer.Prelude.{◌≡◌, ◌%◌, List, [], ◌∷◌, arith, u64_mod}
use rust_ethereum_indexer.Observability.Throughput.{Bucket, snapshot}
use rust_ethereum_indexer.Observability.Rates.{replay, since, snapshot-since}
use rust_ethereum_indexer.Observability.Metrics.{BatchMetrics}
use rust_ethereum_indexer.Observability.Snapshot
use rust_ethereum_indexer.Observability.Totals.{Entry, recorded, snapshot-recorded}

-- The latest first; two are of the same second.
abbrev three_batches : List Bucket
three_batches =
    record { second = 107; blocks = 5; events = 50 }
    ∷ record { second = 104; blocks = 3; events = 30 }
    ∷ record { second = 104; blocks = 2; events = 20 }
    ∷ []

snapshot-since_example :
    ((snapshot (replay 5 three_batches) 110).1.blocks_per_second.numerator
      ≡ since (λ b. b.blocks) 106 three_batches % u64_mod)
    × ((snapshot (replay 5 three_batches) 110).1.events_per_second.numerator
        ≡ since (λ b. b.events) 106 three_batches % u64_mod)
snapshot-since_example =
    snapshot-since 5 three_batches 110 (omega arith, (omega arith, (omega arith, tt)))

abbrev hot_batch : BatchMetrics
hot_batch = record {
  lane = "hot";
  start_block = 11;
  end_block = 15;
  latest_block = 15;
  checkpoint = 15;
  blocks = 5;
  events = 50;
  tx_count = 40;
  duplicate_events = 2;
  tip_lag_blocks = 0;
  avg_ingestion_delay_secs = record { numerator = 60; denominator = 5 };
  max_ingestion_delay_secs = 20;
  block_fetch_duration = 10;
  log_fetch_duration = 10;
  decode_duration = 10;
  db_commit_duration = 10;
  total_duration = 40;
}

abbrev two_entries : List Entry
two_entries = (107, hot_batch) ∷ (90, record hot_batch { lane = "finalized" }) ∷ []

-- Over 60 seconds both count, over 5 only the later one.
snapshot-recorded_example :
    ((Snapshot.snapshot 108 (recorded 5 two_entries)).1.blocks_per_second.numerator ≡ 5)
    × ((Snapshot.snapshot 108 (recorded 5 two_entries)).1.events_per_second.numerator ≡ 50)
    × ((Snapshot.snapshot 108 (recorded 5 two_entries)).1.successful_blocks ≡ 10)
    × ((Snapshot.snapshot 108 (recorded 5 two_entries)).1.duplicate_inserts % u64_mod ≡ 4)
snapshot-recorded_example = snapshot-recorded 5 108 two_entries (omega arith, (omega arith, tt))
