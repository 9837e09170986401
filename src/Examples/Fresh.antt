-- ===== src/Examples/Fresh.antt =====
-- `run_live` from a block that was reorganised, on a provider that fails now and then.
use rust_ethereum_indexer.Prelude.{◌≡◌, refl, some, Bytes, arith, ℤ, pos, ==ℤ→eq}
use rust_ethereum_indexer.Storage.Tables.{select_hash}
use rust_ethereum_indexer.Ingestion.Workers.{run_live}
use rust_ethereum_indexer.Ingestion.Hot.{IsHot, StoredBelow}
use rust_ethereum_indexer.Ingestion.Live.{Heads}
use rust_ethereum_indexer.Ingestion.Writes.{FinalizedWrites}
use rust_ethereum_indexer.Ingestion.Serving.{IsServing}
use rust_ethereum_indexer.Ingestion.HotCalls.{HotOnBelow}
use rust_ethereum_indexer.Ingestion.LiveFresh.{Fresh, run_live-Fresh}
use rust_ethereum_indexer.Examples.Fixtures.{serving_live, small_engine, split_world}
use rust_ethereum_indexer.Examples.Convergence.{small_headers, heads_respond, logs-Wanted}

serving_live-Heads : Heads serving_live 5
serving_live-Heads = record {
  heads = λ t n e. ground arith;
  room = omega arith;
  alone = λ t d. FinalizedWrites.rollback 2 d (omega arith);
}

serving_live-IsServing : IsServing serving_live small_engine 5 5 small_headers
serving_live-IsServing = record {
  answers = refl;
  heads = heads_respond;
  reached = λ t n e. ground arith;
  blocks = λ n le t. (0, some (small_headers n), omega arith, refl);
  on_chain = λ t n o le e. ground arith;
  logs = λ f t. (0, _, omega arith, refl);
  wanted = logs-Wanted;
}

pub only_four :
    (z : ℤ) (h : Bytes)
    → select_hash z split_world.host.database.hot_indexed_blocks ≡ some h
    → z ≡ pos 4
unfolding select_hash
only_four z h found = ground (arith, ==ℤ→eq (pos 4) z)

pub split_world-IsHot : IsHot 5 split_world.host.database
split_world-IsHot = record {
  cp = 4;
  checkpoint = refl;
  below = omega arith;
  bounded = λ z h found. (4, only_four z h found, omega arith);
  aligned = tt;
  integrity = tt;
  unique = tt;
}

pub split_world-StoredBelow : StoredBelow 6 split_world.host.database
split_world-StoredBelow z h found = (4, only_four z h found, omega arith)

pub split_world-HotOnBelow : HotOnBelow small_headers 3 split_world.host.database
split_world-HotOnBelow n h lt found =
    let four : pos n ≡ pos 4 = only_four (pos n) h found in absurd (ground arith)

run_live-Fresh_example : Fresh small_headers 5 (run_live serving_live small_engine 3 1 split_world)
run_live-Fresh_example =
    run_live-Fresh serving_live small_engine 5 serving_live-Heads 5 small_headers
      serving_live-IsServing 3 1 split_world split_world-IsHot split_world-StoredBelow
      split_world-HotOnBelow (omega arith)
