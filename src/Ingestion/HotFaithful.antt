-- ===== src/Ingestion/HotFaithful.antt =====
-- The condition that the hot lane shows the transfers of the chain goes along with the invariant of
-- `run_live`.
use rust_ethereum_indexer.Prelude.{ℕ, List, leb_ℤ, ltb_ℤ, as_i64}
use rust_ethereum_indexer.Storage.Tables.{Database, delete_transfers}
use rust_ethereum_indexer.Storage.Statements.{between}
use rust_ethereum_indexer.Storage.Inserts.{stored}
use rust_ethereum_indexer.Storage.Effects.{heated, hot_rolled_back, pruned, finalized, rolled_back}
use rust_ethereum_indexer.Decoder.{Log}
use rust_ethereum_indexer.World.{Services, Header}
use rust_ethereum_indexer.Ingestion.Engine.{BackfillEngine, compute_live_start_block}
use rust_ethereum_indexer.Ingestion.Writes.{FinalizedWrites}
use rust_ethereum_indexer.Ingestion.Live.{Heads, HotCarries, Cuts}
use rust_ethereum_indexer.Ingestion.ChainLogs.{Reports, IsFaithful}
use rust_ethereum_indexer.Ingestion.Faithful.{deleted-IsFaithful}
use rust_ethereum_indexer.Ingestion.FaithfulBatch.{grown-IsFaithful}

abbrev pub HotFaithful : (ℕ → Header) → (ℕ → List Log) → Database → Type 0
HotFaithful chain logs_of d =
    IsFaithful chain logs_of d.hot_indexed_blocks d.hot_erc20_transfers.rows

module _ (chain : ℕ → Header) (logs_of : ℕ → List Log) where
  abbrev Shows : Database → Type 0
  Shows = HotFaithful chain logs_of

  pruned-Faithful : (n : ℕ) (d : Database) → Shows d → Shows (pruned n d)
  unfolding pruned delete_transfers
  pruned-Faithful n d f =
      deleted-IsFaithful chain logs_of (λ z. ltb_ℤ z (as_i64 n)) d.hot_indexed_blocks
        d.hot_erc20_transfers.rows f

  hot_rolled_back-Faithful : (n : ℕ) (d : Database) → Shows d → Shows (hot_rolled_back n d)
  unfolding hot_rolled_back delete_transfers
  hot_rolled_back-Faithful n d f =
      deleted-IsFaithful chain logs_of (leb_ℤ (as_i64 n)) d.hot_indexed_blocks
        d.hot_erc20_transfers.rows f

  -- The backfill worker removes from the hot lane whole blocks only.
  FinalizedWrites-Faithful :
      {top : ℕ} {d d' : Database} → FinalizedWrites top d d' → Shows d → Shows d'
  unfolding finalized rolled_back delete_transfers
  FinalizedWrites-Faithful (FinalizedWrites.idle d) f = f
  FinalizedWrites-Faithful (FinalizedWrites.commit rs bs s c d) f =
      deleted-IsFaithful chain logs_of (between s c) d.hot_indexed_blocks d.hot_erc20_transfers.rows
        f
  FinalizedWrites-Faithful (FinalizedWrites.rollback n d small) f = hot_rolled_back-Faithful n d f
  FinalizedWrites-Faithful (FinalizedWrites.and_then a b) f =
      let first = FinalizedWrites-Faithful a f in FinalizedWrites-Faithful b first

module _ (sv : Services) (e : BackfillEngine) (top : ℕ) (limits : Heads sv top) (chain : ℕ → Header)
    (logs_of : ℕ → List Log) (reports : Reports sv e top chain logs_of) where
  pub faithful-HotCarries : HotCarries sv e top (HotFaithful chain logs_of)
  unfolding heated stored
  faithful-HotCarries = record {
    kept = λ t d inv f. FinalizedWrites-Faithful chain logs_of (limits.alone t d) f;
    back = λ n d inv small differs f. hot_rolled_back-Faithful chain logs_of n d f;
    grown = λ s c p built d inv below le small f.
        grown-IsFaithful sv e top limits.room chain logs_of reports s c p built le small
          d.hot_indexed_blocks d.hot_erc20_transfers.rows inv.integrity below f;
  }

pub faithful-Cuts :
    (sv : Services) (e : BackfillEngine) (start top : ℕ) (chain : ℕ → Header)
    (logs_of : ℕ → List Log)
    → Cuts sv e start top (HotFaithful chain logs_of)
faithful-Cuts sv e start top chain logs_of t latest d replied inv f =
    pruned-Faithful chain logs_of (compute_live_start_block e start latest) d f
