-- ===== src/Ingestion/Writes.antt =====
-- What the workers write: the transactions of crates/storage/src/lib.rs that `run_backfill` and
-- `run_live` of crates/ingestion/src/lib.rs commit, and what each leaves to the other.
use rust_ethereum_indexer.Prelude.{
  ℕ, ◌+◌, ◌*◌, ◌≤◌, ◌<◌, ◌≡◌, refl, ◌∙◌, some, List, Bytes, ℤ, i64_limit,
}
use rust_ethereum_indexer.Storage.Tables.{Transfer, Database, select_hash, delete_transfers}
use rust_ethereum_indexer.Storage.Statements.{block_partition_size}
use rust_ethereum_indexer.Storage.Rows.{keep_if-UniqueKeys}
use rust_ethereum_indexer.Storage.Effects.{finalized, rolled_back, heated, hot_rolled_back, pruned}
use rust_ethereum_indexer.Ingestion.Finalized.{IsFinalized}
use rust_ethereum_indexer.Ingestion.Hot.{IsHot, hot_rolled_back-IsHot, deleted-Refers, kept_by}

-- Some transactions of `run_live`.
pub data LiveWrites : Database → Database → Type 0 where
  idle : (d : Database) → LiveWrites d d
  commit_hot :
      (rs : List Transfer) (bs : List (ℕ × Bytes)) (c : ℕ) (d : Database)
      → LiveWrites d (heated rs bs c d)
  rollback_hot : (n : ℕ) (d : Database) → LiveWrites d (hot_rolled_back n d)
  prune_hot : (n : ℕ) (d : Database) → LiveWrites d (pruned n d)
  and_then : {d d' d'' : Database} → LiveWrites d d' → LiveWrites d' d'' → LiveWrites d d''

-- Some transactions of `run_backfill`; it rolls back from no block beyond `top`.
pub data FinalizedWrites (top : ℕ) : Database → Database → Type 0 where
  idle : (d : Database) → FinalizedWrites top d d
  commit :
      (rs : List Transfer) (bs : List (ℕ × Bytes)) (s c : ℕ) (d : Database)
      → FinalizedWrites top d (finalized rs bs s c d)
  rollback : (n : ℕ) (d : Database) → n ≤ top → FinalizedWrites top d (rolled_back n d)
  and_then :
      {d d' d'' : Database}
      → FinalizedWrites top d d'
      → FinalizedWrites top d' d''
      → FinalizedWrites top d d''

-- The finalized lane of the two databases is the same.
pub record SameFinalized (d d' : Database) : Type 0 where
  pub transfers : d'.erc20_transfers ≡ d.erc20_transfers
  pub blocks : d'.indexed_blocks ≡ d.indexed_blocks
  pub checkpoint : d'.indexer_checkpoint ≡ d.indexer_checkpoint

-- `run_live` leaves the finalized lane alone.
pub LiveWrites-SameFinalized : {d d' : Database} → LiveWrites d d' → SameFinalized d d'
unfolding heated hot_rolled_back pruned
LiveWrites-SameFinalized (idle d) = record { transfers = refl; blocks = refl; checkpoint = refl }
LiveWrites-SameFinalized (commit_hot rs bs c d) = record {
  transfers = refl;
  blocks = refl;
  checkpoint = refl;
}
LiveWrites-SameFinalized (rollback_hot n d) = record {
  transfers = refl;
  blocks = refl;
  checkpoint = refl;
}
LiveWrites-SameFinalized (prune_hot n d) = record {
  transfers = refl;
  blocks = refl;
  checkpoint = refl;
}
LiveWrites-SameFinalized (and_then a b) =
    let s = LiveWrites-SameFinalized a in
    let t = LiveWrites-SameFinalized b in
    record {
      transfers = t.transfers ∙ s.transfers;
      blocks = t.blocks ∙ s.blocks;
      checkpoint = t.checkpoint ∙ s.checkpoint;
    }

-- The invariant is about the finalized lane alone.
pub IsFinalized-moved :
    {start top : ℕ} {d d' : Database}
    → SameFinalized d d'
    → (inv : IsFinalized start top d) → (inv' : IsFinalized start top d') × (inv.cp ≡ inv'.cp)
IsFinalized-moved same inv = (
  record {
    cp = inv.cp;
    checkpoint = same.checkpoint ∙ inv.checkpoint;
    below = inv.below;
    stored_all = rw same.blocks inv.stored_all;
    bounded = rw same.blocks inv.bounded;
    aligned = rw same.transfers inv.aligned;
    integrity = rw (same.transfers, same.blocks) inv.integrity;
    unique = rw same.transfers inv.unique;
  },
  refl,
)

-- No block is stored in the hot lane of the second database that is not in that of the first.
abbrev pub AddsNone : Database → Database → Type 0
AddsNone d d' =
    (z : ℤ) (h : Bytes)
    → select_hash z d'.hot_indexed_blocks ≡ some h
    → select_hash z d.hot_indexed_blocks ≡ some h

-- `run_backfill` stores nothing in the hot lane.
pub FinalizedWrites-AddsNone :
    {top : ℕ} {d d' : Database} → FinalizedWrites top d d' → AddsNone d d'
unfolding finalized rolled_back
FinalizedWrites-AddsNone (idle d) z h found = found
FinalizedWrites-AddsNone (commit rs bs s c d) z h found =
    (kept_by _ d.hot_indexed_blocks z h found).0
FinalizedWrites-AddsNone (rollback n d small) z h found =
    (kept_by _ d.hot_indexed_blocks z h found).0
FinalizedWrites-AddsNone (and_then a b) z h found =
    let later = FinalizedWrites-AddsNone b z h found in FinalizedWrites-AddsNone a z h later

module _ {top : ℕ} (room : top + 2 * block_partition_size < i64_limit) where
  committed-IsHot :
      (rs : List Transfer) (bs : List (ℕ × Bytes)) (s c : ℕ) (d : Database)
      → IsHot top d
      → IsHot top (finalized rs bs s c d)
  unfolding finalized delete_transfers
  committed-IsHot rs bs s c d inv = record {
    cp = inv.cp;
    checkpoint = inv.checkpoint;
    below = inv.below;
    bounded = λ z h found. inv.bounded z h (kept_by _ d.hot_indexed_blocks z h found).0;
    aligned = inv.aligned;
    integrity = deleted-Refers _ d.hot_indexed_blocks d.hot_erc20_transfers.rows inv.integrity;
    unique = keep_if-UniqueKeys _ d.hot_erc20_transfers.rows inv.unique;
  }

  rolled_back-IsHot : (n : ℕ) (d : Database) → n ≤ top → IsHot top d → IsHot top (rolled_back n d)
  unfolding rolled_back
  rolled_back-IsHot n d small inv =
      let hot = hot_rolled_back-IsHot top room n d inv small in
      record {
        cp = hot.cp;
        checkpoint = hot.checkpoint;
        below = hot.below;
        bounded = hot.bounded;
        aligned = hot.aligned;
        integrity = hot.integrity;
        unique = hot.unique;
      }

  -- `run_backfill` keeps the hot lane in order.
  pub FinalizedWrites-IsHot :
      {d d' : Database} → FinalizedWrites top d d' → IsHot top d → IsHot top d'
  FinalizedWrites-IsHot (idle d) inv = inv
  FinalizedWrites-IsHot (commit rs bs s c d) inv = committed-IsHot rs bs s c d inv
  FinalizedWrites-IsHot (rollback n d small) inv = rolled_back-IsHot n d small inv
  FinalizedWrites-IsHot (and_then a b) inv =
      let first = FinalizedWrites-IsHot a inv in FinalizedWrites-IsHot b first
