-- ===== src/Ingestion/LiveComplete.antt =====
-- What `run_live` of crates/ingestion/src/lib.rs shows of the last blocks of a chain: all of their
-- transfers.
use rust_ethereum_indexer.Prelude.{ℕ, suc, ◌-◌, ◌≤◌, ◌<◌, max, List}
use rust_ethereum_indexer.Storage.Tables.{Database}
use rust_ethereum_indexer.Decoder.{Log}
use rust_ethereum_indexer.World.{Services, World, Header}
use rust_ethereum_indexer.Ingestion.Engine.{BackfillEngine, compute_live_start_block}
use rust_ethereum_indexer.Ingestion.Workers.{run_live}
use rust_ethereum_indexer.Ingestion.Serving.{IsServing}
use rust_ethereum_indexer.Ingestion.Hot.{IsHot, StoredBelow}
use rust_ethereum_indexer.Ingestion.Live.{Heads}
use rust_ethereum_indexer.Ingestion.HotCalls.{HotOnBelow}
use rust_ethereum_indexer.Ingestion.ChainLogs.{Reports, Exact}
use rust_ethereum_indexer.Ingestion.HotFaithful.{HotFaithful}
use rust_ethereum_indexer.Ingestion.HotComplete.{run_live-IsFaithful}
use rust_ethereum_indexer.Ingestion.Unbroken.{Unbroken, Spares}
use rust_ethereum_indexer.Ingestion.CaughtUp.{run_live-CaughtUp}

module _ (sv : Services) (e : BackfillEngine) (top : ℕ) (limits : Heads sv top) (latest : ℕ)
    (chain : ℕ → Header) (serving : IsServing sv e top latest chain) (start : ℕ)
    (begun : start ≤ latest) (positive : 0 < compute_live_start_block e start top)
    (spares : (t : ℕ) (d : Database)
      → Spares (compute_live_start_block e start top) d (sv.others t d))
    (logs_of : ℕ → List Log) (reports : Reports sv e top chain logs_of) where
  -- With heads from `latest` to `top`: while PostgreSQL answers, the provider fails no request more
  -- than `max_retries` times in a row and reports the blocks of one chain up to `top` and exactly
  -- the logs of the asked range, and the backfill worker leaves the live checkpoint and, from the
  -- window of `top` on, the hot lane alone: from a hot lane in order that has every block from that
  -- window up to its checkpoint, none above `latest`, hashes that differ from those of the chain
  -- only in the window below `top` that is checked, and whose blocks on the chain have the rows of
  -- their transfers, after one round more than there are blocks from the window of `latest` up to
  -- `latest`, the hot lane has, for each block from the window of `top` up to `latest`, the rows of
  -- its ERC-20 transfers and no others. The window of a head is that of compute_live_start_block;
  -- it does not start with block 0, and the start block is not above `latest`.
  pub run_live-Exact :
      (rounds : ℕ) (w : World)
      → IsHot top w.host.database
      → StoredBelow (suc latest) w.host.database
      → HotOnBelow chain (max (top - (max e.reorg_lookback 1 - 1)) start) w.host.database
      → Unbroken (compute_live_start_block e start top) w.host.database
      → HotFaithful chain logs_of w.host.database
      → suc latest - compute_live_start_block e start latest < rounds
      → (n : ℕ) → compute_live_start_block e start top ≤ n
      → n ≤ latest
      → Exact chain logs_of n
          (run_live sv e rounds start w).1.host.database.hot_erc20_transfers.rows
  run_live-Exact rounds w inv below on whole faithful many n lo hi =
      let caught =
        run_live-CaughtUp sv e top limits latest chain serving start begun positive spares rounds w
          inv below on whole many in
      run_live-IsFaithful sv e top limits chain logs_of reports rounds start w inv faithful n
        (caught.stored n lo hi)
