-- ===== src/Examples/LiveComplete.antt =====
-- What `run_live` makes of a hot lane of two blocks, neither of which the chain still has, while
-- the backfill worker commits blocks below the window.
use rust_ethereum_indexer.Prelude.{ℕ, false, refl, ◌∙◌, ◌≡◌, [], ◌∷◌, arith, pos, as_i64-eq_pos}
use rust_ethereum_indexer.Storage.Tables.{Database, select_hash}
use rust_ethereum_indexer.Storage.Effects.{finalized}
use rust_ethereum_indexer.Storage.Statements.{between}
use rust_ethereum_indexer.Storage.Blocks.{select_hash-delete_blocks}
use rust_ethereum_indexer.Observability.Metrics
use rust_ethereum_indexer.World.{Services, World}
use rust_ethereum_indexer.Ingestion.Engine.{compute_live_start_block}
use rust_ethereum_indexer.Ingestion.Workers.{run_live}
use rust_ethereum_indexer.Ingestion.Serving.{IsServing}
use rust_ethereum_indexer.Ingestion.Hot.{StoredBelow}
use rust_ethereum_indexer.Ingestion.HotCalls.{HotOnBelow}
use rust_ethereum_indexer.Ingestion.Live.{Heads}
use rust_ethereum_indexer.Ingestion.Writes.{FinalizedWrites}
use rust_ethereum_indexer.Ingestion.ChainLogs.{Reports, Exact}
use rust_ethereum_indexer.Ingestion.HotFaithful.{HotFaithful}
use rust_ethereum_indexer.Ingestion.Unbroken.{Unbroken, Spares}
use rust_ethereum_indexer.Ingestion.CaughtUp.{CaughtUp, run_live-CaughtUp}
use rust_ethereum_indexer.Ingestion.LiveComplete.{run_live-Exact}
use rust_ethereum_indexer.Examples.Fixtures.{small_engine}
use rust_ethereum_indexer.Examples.Convergence.{small_headers}
use rust_ethereum_indexer.Examples.Logs.{logs_at, logs_at-Reports}
use rust_ethereum_indexer.Examples.Complete.{busy_live, busy_live-Heads, busy_live-IsServing}
use rust_ethereum_indexer.Examples.Race.{hot_two, hot_two-IsHot}

abbrev calm_live : Services
calm_live = record busy_live { others = λ t d. finalized [] [] 1 2 d }

calm_live-Heads : Heads calm_live 5
calm_live-Heads = record {
  heads = busy_live-Heads.heads;
  room = busy_live-Heads.room;
  alone = λ t d. FinalizedWrites.commit [] [] 1 2 d;
}

calm_live-IsServing : IsServing calm_live small_engine 5 5 small_headers
calm_live-IsServing = record {
  answers = busy_live-IsServing.answers;
  heads = busy_live-IsServing.heads;
  reached = busy_live-IsServing.reached;
  blocks = busy_live-IsServing.blocks;
  on_chain = busy_live-IsServing.on_chain;
  logs = busy_live-IsServing.logs;
  wanted = busy_live-IsServing.wanted;
}

calm_live-Reports : Reports calm_live small_engine 5 small_headers (logs_at 4)
calm_live-Reports = logs_at-Reports calm_live 4 5 refl refl

calm_live-Spares :
    (t : ℕ) (d : Database)
    → Spares (compute_live_start_block small_engine 1 5) d (calm_live.others t d)
unfolding compute_live_start_block finalized
calm_live-Spares t d = record {
  checkpoint = refl;
  blocks = λ n lo.
      let outside : between 1 2 (pos n) ≡ false =
        rw (as_i64-eq_pos 1 (omega arith), as_i64-eq_pos 2 (omega arith)) (ground arith) in
      select_hash-delete_blocks (between 1 2) (pos n) d.hot_indexed_blocks ∙ rw outside refl;
}

abbrev hot_world : World
hot_world = record { host = record { database = hot_two; time = 0 }; metrics = Metrics.new 60 }

hot_two-StoredBelow : StoredBelow 6 hot_two
hot_two-StoredBelow z h found =
    let (n, at, le) = hot_two-IsHot.bounded z h found in (n, at, omega arith)

hot_two-HotOnBelow : HotOnBelow small_headers 3 hot_two
unfolding select_hash
hot_two-HotOnBelow n h lt found = absurd (ground arith)

hot_two-Unbroken : Unbroken (compute_live_start_block small_engine 1 5) hot_two
unfolding select_hash compute_live_start_block
hot_two-Unbroken c at n lo hi = (9 ∷ [], ground arith)

hot_two-HotFaithful : HotFaithful small_headers (logs_at 4) hot_two
unfolding select_hash
hot_two-HotFaithful n found = absurd (ground arith)

run_live-CaughtUp_example :
    CaughtUp small_headers 3 5 (run_live calm_live small_engine 4 1 hot_world)
unfolding compute_live_start_block
run_live-CaughtUp_example =
    run_live-CaughtUp calm_live small_engine 5 calm_live-Heads 5 small_headers calm_live-IsServing 1
      (omega arith) (omega arith) calm_live-Spares 4 hot_world hot_two-IsHot hot_two-StoredBelow
      hot_two-HotOnBelow hot_two-Unbroken (omega arith)

run_live-Exact_example :
    Exact small_headers
      (logs_at 4)
      4
      (run_live calm_live small_engine 4 1 hot_world).1.host.database.hot_erc20_transfers.rows
unfolding compute_live_start_block
run_live-Exact_example =
    run_live-Exact calm_live small_engine 5 calm_live-Heads 5 small_headers calm_live-IsServing 1
      (omega arith) (omega arith) calm_live-Spares (logs_at 4) calm_live-Reports 4 hot_world
      hot_two-IsHot hot_two-StoredBelow hot_two-HotOnBelow hot_two-Unbroken hot_two-HotFaithful
      (omega arith) 4 (omega arith) (omega arith)
