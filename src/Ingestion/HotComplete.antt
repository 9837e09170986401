-- ===== src/Ingestion/HotComplete.antt =====
-- What `run_live` of crates/ingestion/src/lib.rs shows of a chain: the transfers of each block that
-- it stores.
use rust_ethereum_indexer.Prelude.{
  ℕ, suc, ◌-◌, ◌<◌, max, ◌≡◌, ap, ◌∙◌, some, List, Bytes, pos, In, All-In,
}
use mathlib.Core.Path.{subst}
use rust_ethereum_indexer.Storage.Tables.{Database, Transfer, select_hash}
use rust_ethereum_indexer.Decoder.{Log}
use rust_ethereum_indexer.World.{Services, Header, World}
use rust_ethereum_indexer.Ingestion.Engine.{BackfillEngine}
use rust_ethereum_indexer.Ingestion.Workers.{run_live}
use rust_ethereum_indexer.Ingestion.Serving.{IsServing}
use rust_ethereum_indexer.Ingestion.Finalized.{Refers}
use rust_ethereum_indexer.Ingestion.Hot.{IsHot, StoredBelow}
use rust_ethereum_indexer.Ingestion.Live.{Heads}
use rust_ethereum_indexer.Ingestion.LiveRun.{run_live-Held}
use rust_ethereum_indexer.Ingestion.HotCalls.{HotOnBelow, HotOnChain}
use rust_ethereum_indexer.Ingestion.LiveFresh.{run_live-Fresh}
use rust_ethereum_indexer.Ingestion.ChainLogs.{IsTransferAt, Reports, Exact}
use rust_ethereum_indexer.Ingestion.HotFaithful.{HotFaithful, faithful-HotCarries, faithful-Cuts}

-- The hot lane shows the chain: its rows are transfers of the chain, and each block that it stores
-- has all of its own.
pub record ShowsChain (chain : ℕ → Header) (logs_of : ℕ → List Log) (d : Database) : Type 0 where
  pub only :
      (r : Transfer)
      → In r d.hot_erc20_transfers.rows
      → (n : ℕ) × (r.block_number ≡ pos n) × IsTransferAt chain logs_of n r
  pub all :
      (n : ℕ) (h : Bytes)
      → select_hash (pos n) d.hot_indexed_blocks ≡ some h
      → Exact chain logs_of n d.hot_erc20_transfers.rows

module _ (chain : ℕ → Header) (logs_of : ℕ → List Log) (top : ℕ) (d : Database) (inv : IsHot top d)
    (on : HotOnChain chain d) (f : HotFaithful chain logs_of d) where
  rows_of_block :
      (n : ℕ) (h : Bytes)
      → select_hash (pos n) d.hot_indexed_blocks ≡ some h
      → Exact chain logs_of n d.hot_erc20_transfers.rows
  rows_of_block n h found = f n (found ∙ ap some (on n h found))

  row_shown :
      (r : Transfer)
      → In r d.hot_erc20_transfers.rows
      → (n : ℕ) × (r.block_number ≡ pos n) × IsTransferAt chain logs_of n r
  row_shown r at =
      let refers =
        All-In (Refers d.hot_indexed_blocks) d.hot_erc20_transfers.rows r inv.integrity at in
      let (n, same, small) = inv.bounded r.block_number r.block_hash refers in
      let found : select_hash (pos n) d.hot_indexed_blocks ≡ some r.block_hash =
        subst (λ z. select_hash z d.hot_indexed_blocks ≡ some r.block_hash) same refers in
      (n, same, (rows_of_block n r.block_hash found r).0 at same)

module _ (sv : Services) (e : BackfillEngine) (top : ℕ) (limits : Heads sv top) (chain : ℕ → Header)
    (logs_of : ℕ → List Log) (reports : Reports sv e top chain logs_of) where
  -- With a provider whose heads stay within the bound `top`, and which up to `top`, where it
  -- answers, reports the blocks of one chain and, for a range, exactly the logs of its blocks:
  -- however many rounds `run_live` makes, whichever requests to PostgreSQL or to the provider fail,
  -- if the reply to a commit is lost, and whichever of its transactions the backfill worker commits
  -- in between (rollbacks from no block beyond `top`): from a hot lane in order, it keeps that the
  -- rows of each block that is stored under its hash on the chain are those of the block's ERC-20
  -- transfers.
  pub run_live-IsFaithful :
      (rounds start : ℕ) (w : World)
      → IsHot top w.host.database
      → HotFaithful chain logs_of w.host.database
      → HotFaithful chain logs_of (run_live sv e rounds start w).1.host.database
  run_live-IsFaithful rounds start w inv f =
      (run_live-Held sv e top limits (faithful-HotCarries sv e top limits chain logs_of reports)
        start (faithful-Cuts sv e start top chain logs_of) rounds w (inv, f)).1

  -- While PostgreSQL answers besides, the provider fails no request more than `max_retries` times
  -- in a row, and no head is below `latest`: from a hot lane in order, with no block above
  -- `latest`, with hashes that differ from those of the chain only in the window below `top` that
  -- is checked, and whose blocks on the chain have the rows of their transfers, after any number of
  -- rounds but none every row of the hot lane is a transfer of the chain, and each block that is
  -- stored in it has the rows of its transfers and no others.
  pub run_live-ShowsChain :
      (latest : ℕ)
      → IsServing sv e top latest chain
      → (rounds start : ℕ) (w : World) → IsHot top w.host.database
      → StoredBelow (suc latest) w.host.database
      → HotOnBelow chain (max (top - (max e.reorg_lookback 1 - 1)) start) w.host.database
      → HotFaithful chain logs_of w.host.database
      → 0 < rounds
      → ShowsChain chain logs_of (run_live sv e rounds start w).1.host.database
  run_live-ShowsChain latest serving rounds start w inv below on f some_round =
      let fresh =
        run_live-Fresh sv e top limits latest chain serving rounds start w inv below on
          some_round in
      let shown = run_live-IsFaithful rounds start w inv f in
      let after = (run_live sv e rounds start w).1.host.database in
      record {
        only = row_shown chain logs_of top after fresh.ordered fresh.on_chain shown;
        all = rows_of_block chain logs_of top after fresh.ordered fresh.on_chain shown;
      }
