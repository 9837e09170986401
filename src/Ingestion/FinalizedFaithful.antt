-- ===== src/Ingestion/FinalizedFaithful.antt =====
-- The condition that the finalized lane shows the transfers of the chain goes along with the
-- invariant of `run_backfill`.
use rust_ethereum_indexer.Prelude.{ℕ, arith, List, leb_ℤ, as_i64}
use rust_ethereum_indexer.Storage.Tables.{Database, delete_transfers}
use rust_ethereum_indexer.Storage.Inserts.{stored}
use rust_ethereum_indexer.Storage.Effects.{finalized, rolled_back}
use rust_ethereum_indexer.Decoder.{Log}
use rust_ethereum_indexer.World.{Services, Header}
use rust_ethereum_indexer.Ingestion.Engine.{BackfillEngine}
use rust_ethereum_indexer.Ingestion.Writes.{SameFinalized, LiveWrites-SameFinalized}
use rust_ethereum_indexer.Ingestion.Backfill.{Confirms, Carries}
use rust_ethereum_indexer.Ingestion.ChainLogs.{Reports, IsFaithful}
use rust_ethereum_indexer.Ingestion.Faithful.{deleted-IsFaithful}
use rust_ethereum_indexer.Ingestion.FaithfulBatch.{grown-IsFaithful}

abbrev pub FinalizedFaithful : (ℕ → Header) → (ℕ → List Log) → Database → Type 0
FinalizedFaithful chain logs_of d = IsFaithful chain logs_of d.indexed_blocks d.erc20_transfers.rows

module _ (chain : ℕ → Header) (logs_of : ℕ → List Log) where
  moved :
      (d d' : Database)
      → SameFinalized d d'
      → FinalizedFaithful chain logs_of d
      → FinalizedFaithful chain logs_of d'
  moved d d' same f = rw (same.transfers, same.blocks) f

  rolled_back-Faithful :
      (n : ℕ) (d : Database)
      → FinalizedFaithful chain logs_of d
      → FinalizedFaithful chain logs_of (rolled_back n d)
  unfolding rolled_back delete_transfers
  rolled_back-Faithful n d f =
      deleted-IsFaithful chain logs_of (leb_ℤ (as_i64 n)) d.indexed_blocks d.erc20_transfers.rows f

module _ (sv : Services) (e : BackfillEngine) (start top : ℕ) (limits : Confirms sv e top)
    (chain : ℕ → Header) (logs_of : ℕ → List Log) (reports : Reports sv e top chain logs_of) where
  pub faithful-Carries : Carries sv e start top (FinalizedFaithful chain logs_of)
  unfolding finalized stored
  faithful-Carries = record {
    kept = λ t d f. moved chain logs_of d _ (LiveWrites-SameFinalized (limits.alone t d)) f;
    back = λ n d inv lo hi differs f. rolled_back-Faithful chain logs_of n d f;
    grown = λ s c p built d inv next le small f.
        grown-IsFaithful sv e top limits.room chain logs_of reports s c p built le small
          d.indexed_blocks d.erc20_transfers.rows inv.integrity
          (λ z h found. let (n, at, lo, hi) = inv.bounded z h found in (n, at, omega arith)) f;
  }
