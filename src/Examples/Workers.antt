-- ===== src/Examples/Workers.antt =====
-- The theorems on the two workers, on the chain of the fixtures.
use rust_ethereum_indexer.Prelude.{refl, arith}
use rust_ethereum_indexer.Storage.Tables.{migrated, select_hash}
use rust_ethereum_indexer.Ingestion.Workers.{run_backfill, run_live}
use rust_ethereum_indexer.Ingestion.Finalized.{IsFinalized}
use rust_ethereum_indexer.Ingestion.Backfill.{Confirms}
use rust_ethereum_indexer.Ingestion.BackfillRun.{run_backfill-IsFinalized}
use rust_ethereum_indexer.Ingestion.Hot.{IsHot}
use rust_ethereum_indexer.Ingestion.Live.{Heads}
use rust_ethereum_indexer.Ingestion.LiveRun.{run_live-IsHot}
use rust_ethereum_indexer.Ingestion.Writes.{LiveWrites, FinalizedWrites, SameFinalized}
use rust_ethereum_indexer.Ingestion.Trace.{
  BackfillStep, LiveStep, Trace, run_backfill-Trace, run_live-Trace,
}
use rust_ethereum_indexer.Ingestion.BlockZero.{run_backfill-migrated}
use rust_ethereum_indexer.Examples.Fixtures.{small_chain, live_chain, small_engine, fresh_world}

small_chain-Confirms : Confirms small_chain small_engine 3
small_chain-Confirms = record {
  confirmed = λ t n e. ground arith;
  room = omega arith;
  alone = λ t d. LiveWrites.prune_hot t d;
}

migrated-IsFinalized : IsFinalized 1 3 migrated
unfolding select_hash
migrated-IsFinalized = record {
  cp = 0;
  checkpoint = refl;
  below = omega arith;
  stored_all = λ n lo hi. absurd (omega arith);
  bounded = λ z h e. ground arith;
  aligned = tt;
  integrity = tt;
  unique = tt;
}

run_backfill-IsFinalized_example :
    IsFinalized 1 3 (run_backfill small_chain small_engine 4 1 fresh_world).1.host.database
run_backfill-IsFinalized_example =
    run_backfill-IsFinalized small_chain small_engine 1 3 (omega arith) small_chain-Confirms 4
      fresh_world migrated-IsFinalized

run_backfill-migrated_example :
    SameFinalized migrated (run_backfill small_chain small_engine 4 0 fresh_world).1.host.database
run_backfill-migrated_example =
    run_backfill-migrated small_chain small_engine (λ t d. LiveWrites.prune_hot t d) 4 fresh_world
      (record { transfers = refl; blocks = refl; checkpoint = refl })

live_chain-Heads : Heads live_chain 5
live_chain-Heads = record {
  heads = λ t n e. ground arith;
  room = omega arith;
  alone = λ t d. FinalizedWrites.rollback 2 d (omega arith);
}

migrated-IsHot : IsHot 5 migrated
unfolding select_hash
migrated-IsHot = record {
  cp = 0;
  checkpoint = refl;
  below = omega arith;
  bounded = λ z h e. ground arith;
  aligned = tt;
  integrity = tt;
  unique = tt;
}

run_live-IsHot_example : IsHot 5 (run_live live_chain small_engine 4 1 fresh_world).1.host.database
run_live-IsHot_example =
    run_live-IsHot live_chain small_engine 5 live_chain-Heads 4 1 fresh_world migrated-IsHot

run_backfill-Trace_example :
    Trace
      (BackfillStep small_chain small_engine 1 3)
      migrated
      (run_backfill small_chain small_engine 4 1 fresh_world).1.host.database
run_backfill-Trace_example =
    run_backfill-Trace small_chain small_engine 1 3 (omega arith) small_chain-Confirms 4 fresh_world
      migrated-IsFinalized

run_live-Trace_example :
    Trace
      (LiveStep live_chain small_engine 1 5)
      migrated
      (run_live live_chain small_engine 4 1 fresh_world).1.host.database
run_live-Trace_example =
    run_live-Trace live_chain small_engine 1 5 live_chain-Heads 4 fresh_world migrated-IsHot
