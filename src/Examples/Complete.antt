-- ===== src/Examples/Complete.antt =====
-- What both workers store of a chain: `run_backfill` of one with a transfer in block 2, and
-- `run_live` of one with a transfer in block 4.
use rust_ethereum_indexer.Prelude.{refl, some, arith, ok}
use rust_ethereum_indexer.Storage.Tables.{select_hash}
use rust_ethereum_indexer.Decoder.Roundtrip.{encode}
use rust_ethereum_indexer.World.{Services}
use rust_ethereum_indexer.Ingestion.Engine.{finalized_validation_start}
use rust_ethereum_indexer.Ingestion.Workers.{run_backfill, run_live}
use rust_ethereum_indexer.Ingestion.ChainLogs.{Reports, Exact}
use rust_ethereum_indexer.Ingestion.FinalizedFaithful.{FinalizedFaithful}
use rust_ethereum_indexer.Ingestion.HotFaithful.{HotFaithful}
use rust_ethereum_indexer.Ingestion.HotComplete.{
  ShowsChain, run_live-IsFaithful, run_live-ShowsChain,
}
use rust_ethereum_indexer.Examples.Logs.{logs_at, range_logs, logs_at-Reports, range_logs-Wanted}
use rust_ethereum_indexer.Ingestion.Live.{Heads}
use rust_ethereum_indexer.Ingestion.Writes.{FinalizedWrites}
use rust_ethereum_indexer.Ingestion.Serving.{IsServing}
use rust_ethereum_indexer.Examples.Fresh.{
  split_world-IsHot, split_world-StoredBelow, split_world-HotOnBelow,
}
use rust_ethereum_indexer.Ingestion.Complete.{run_backfill-IsFaithful, run_backfill-Exact}
use rust_ethereum_indexer.Examples.Fixtures.{
  serving_chain, serving_live, split_world, small_engine, forked_world,
}
use rust_ethereum_indexer.Examples.Convergence.{
  small_headers, heads_respond, serving_chain-IsServing, serving_chain-Confirms,
  forked_world-IsFinalized, forked_world-OnBelow,
}

serving_chain-Reports : Reports serving_chain small_engine 3 small_headers (logs_at 2)
unfolding encode
serving_chain-Reports = logs_at-Reports serving_chain 2 3 refl refl

-- Block 1 is stored under a hash that the chain no longer has.
forked_world-IsFaithful : FinalizedFaithful small_headers (logs_at 2) forked_world.host.database
unfolding select_hash
forked_world-IsFaithful n found = absurd (ground arith)

run_backfill-IsFaithful_example :
    FinalizedFaithful small_headers
      (logs_at 2)
      (run_backfill serving_chain small_engine 3 1 forked_world).1.host.database
run_backfill-IsFaithful_example =
    run_backfill-IsFaithful serving_chain small_engine 1 3 (omega arith) serving_chain-Confirms
      small_headers (logs_at 2) serving_chain-Reports 3 forked_world forked_world-IsFinalized
      forked_world-IsFaithful

run_backfill-Exact_example :
    Exact small_headers
      (logs_at 2)
      2
      (run_backfill serving_chain small_engine 4 1
        forked_world).1.host.database.erc20_transfers.rows
unfolding finalized_validation_start
run_backfill-Exact_example =
    run_backfill-Exact serving_chain small_engine 1 3 (omega arith) serving_chain-Confirms
      small_headers (logs_at 2) serving_chain-Reports 5 serving_chain-IsServing 4 1 forked_world
      forked_world-IsFinalized refl forked_world-OnBelow forked_world-IsFaithful (omega arith)
      (omega arith) 2 (omega arith) (omega arith)

-- The provider of the live worker has a log in block 4.
abbrev pub busy_live : Services
busy_live = record serving_live { get_logs = λ f t. ok (range_logs 4 f.from_block f.to_block) }

pub busy_live-Reports : Reports busy_live small_engine 5 small_headers (logs_at 4)
busy_live-Reports = logs_at-Reports busy_live 4 5 refl refl

pub busy_live-Heads : Heads busy_live 5
busy_live-Heads = record {
  heads = λ t n e. ground arith;
  room = omega arith;
  alone = λ t d. FinalizedWrites.rollback 2 d (omega arith);
}

pub busy_live-IsServing : IsServing busy_live small_engine 5 5 small_headers
busy_live-IsServing = record {
  answers = refl;
  heads = heads_respond;
  reached = λ t n e. ground arith;
  blocks = λ n le t. (0, some (small_headers n), omega arith, refl);
  on_chain = λ t n o le e. ground arith;
  logs = λ f t. (0, _, omega arith, refl);
  wanted = λ f t ls e. range_logs-Wanted 4 f ls (ground arith);
}

-- Block 4 is in the hot lane under a hash that the chain no longer has.
split_world-HotFaithful : HotFaithful small_headers (logs_at 4) split_world.host.database
unfolding select_hash
split_world-HotFaithful n found = absurd (ground arith)

run_live-IsFaithful_example :
    HotFaithful small_headers
      (logs_at 4)
      (run_live busy_live small_engine 2 1 split_world).1.host.database
run_live-IsFaithful_example =
    run_live-IsFaithful busy_live small_engine 5 busy_live-Heads small_headers (logs_at 4)
      busy_live-Reports 2 1 split_world split_world-IsHot split_world-HotFaithful

run_live-ShowsChain_example :
    ShowsChain small_headers
      (logs_at 4)
      (run_live busy_live small_engine 3 1 split_world).1.host.database
run_live-ShowsChain_example =
    run_live-ShowsChain busy_live small_engine 5 busy_live-Heads small_headers (logs_at 4)
      busy_live-Reports 5 busy_live-IsServing 3 1 split_world split_world-IsHot
      split_world-StoredBelow split_world-HotOnBelow split_world-HotFaithful (omega arith)
