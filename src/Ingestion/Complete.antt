-- ===== src/Ingestion/Complete.antt =====
-- What `run_backfill` of crates/ingestion/src/lib.rs stores of a chain: the transfers of each
-- block.
use rust_ethereum_indexer.Prelude.{ℕ, ◌+◌, ◌-◌, ◌≤◌, ◌<◌, List}
use rust_ethereum_indexer.Decoder.{Log}
use rust_ethereum_indexer.World.{Services, Header, World}
use rust_ethereum_indexer.Ingestion.Engine.{BackfillEngine, finalized_validation_start}
use rust_ethereum_indexer.Ingestion.Workers.{run_backfill}
use rust_ethereum_indexer.Ingestion.Serving.{IsServing}
use rust_ethereum_indexer.Ingestion.Finalized.{IsFinalized}
use rust_ethereum_indexer.Ingestion.Backfill.{Confirms}
use rust_ethereum_indexer.Ingestion.BackfillRun.{run_backfill-Held}
use rust_ethereum_indexer.Ingestion.OnChain.{OnBelow, Checkpoint}
use rust_ethereum_indexer.Ingestion.Convergence.{run_backfill-Synced}
use rust_ethereum_indexer.Ingestion.ChainLogs.{Reports, Exact}
use rust_ethereum_indexer.Ingestion.FinalizedFaithful.{FinalizedFaithful, faithful-Carries}

module _ (sv : Services) (e : BackfillEngine) (start top : ℕ) (positive : 0 < start)
    (limits : Confirms sv e top) (chain : ℕ → Header) (logs_of : ℕ → List Log)
    (reports : Reports sv e top chain logs_of) where
  -- With a start block of at least 1, a provider whose heads, less the confirmation depth, stay
  -- within the bound `top`, and which up to `top`, where it answers, reports the blocks of one
  -- chain and, for a range, exactly the logs of its blocks: however many rounds `run_backfill`
  -- makes, whichever requests to PostgreSQL or to the provider fail, if the reply to a commit is
  -- lost, and whichever of its transactions the live worker commits in between: from a lane in
  -- order, it keeps that the rows of each block that is stored under its hash on the chain are
  -- those of the block's ERC-20 transfers.
  pub run_backfill-IsFaithful :
      (rounds : ℕ) (w : World)
      → IsFinalized start top w.host.database
      → FinalizedFaithful chain logs_of w.host.database
      → FinalizedFaithful chain logs_of (run_backfill sv e rounds start w).1.host.database
  run_backfill-IsFaithful rounds w inv f =
      (run_backfill-Held sv e start top positive limits
        (faithful-Carries sv e start top limits chain logs_of reports) rounds w (inv, f)).1

  -- While PostgreSQL answers besides, and the provider fails no request more than `max_retries`
  -- times in a row: from a lane in order whose blocks below the window that is checked are on the
  -- chain, and whose blocks on the chain have the rows of their transfers, after one round more
  -- than there are blocks from the start block to the goal (`latest`, which no head is below, less
  -- the confirmation depth), the finalized lane has, for each of these blocks, the rows of its
  -- ERC-20 transfers and no others.
  pub run_backfill-Exact :
      (latest : ℕ)
      → IsServing sv e top latest chain
      → (rounds cp : ℕ) (w : World) → IsFinalized start top w.host.database
      → Checkpoint cp w.host.database
      → OnBelow chain (finalized_validation_start e start cp) w.host.database
      → FinalizedFaithful chain logs_of w.host.database
      → latest - e.confirmation_depth + 2 ≤ start + rounds
      → 0 < rounds
      → (n : ℕ) → start ≤ n
      → n ≤ latest - e.confirmation_depth
      → Exact chain logs_of n
          (run_backfill sv e rounds start w).1.host.database.erc20_transfers.rows
  run_backfill-Exact latest serving rounds cp w inv at on f enough some_round n lo hi =
      let synced =
        run_backfill-Synced sv e start top positive limits latest chain serving rounds cp w inv at
          on enough some_round in
      run_backfill-IsFaithful rounds w inv f n (synced.complete n lo hi)
