-- ===== src/Ingestion/HotCalls.antt =====
-- The calls of crates/storage/src/lib.rs that `run_live` makes, on a server that answers; and what
-- it means that the hashes in the hot lane are those of the chain.
use mathlib.Core.Path.{subst}
use rust_ethereum_indexer.Prelude.{
  ℕ, ◌<◌, ◌≡◌, refl, some, Bytes, arith, pos, leb_ℤ, as_i64, as_i64-eq_pos, i64_limit,
}
use rust_ethereum_indexer.Storage.Tables.{Database, select_hash}
use rust_ethereum_indexer.Storage.Session.{reliable}
use rust_ethereum_indexer.Storage.Statements.{get_block_hash_from_table}
use rust_ethereum_indexer.Storage.Calls.{
  get_hot_block_hash, rollback_hot_tx, rollback_hot_from_block, prune_tx, prune_hot_before_block,
}
use rust_ethereum_indexer.Storage.Outcome.{Ends, Ends-execute, Ends-transaction}
use rust_ethereum_indexer.Storage.Effects.{
  hot_rolled_back, pruned, rollback_hot_tx-hot_rolled_back, prune_tx-pruned,
}
use rust_ethereum_indexer.World.{Services, Header, on_host}
use rust_ethereum_indexer.Ingestion.Keeps.{Triple}
use rust_ethereum_indexer.Ingestion.Total.{Never, Triple-ends}
use rust_ethereum_indexer.Ingestion.Hot.{kept_by}
use rust_ethereum_indexer.Ingestion.Writes.{AddsNone}

-- The hashes in the hot lane of the blocks below `b` are those of the chain; those of all blocks
-- are.
abbrev pub HotOnBelow : (ℕ → Header) → ℕ → Database → Type 0
HotOnBelow chain b d =
    (n : ℕ) (h : Bytes)
    → n < b
    → select_hash (pos n) d.hot_indexed_blocks ≡ some h
    → h ≡ (chain n).hash

abbrev pub HotOnChain : (ℕ → Header) → Database → Type 0
HotOnChain chain d =
    (n : ℕ) (h : Bytes) → select_hash (pos n) d.hot_indexed_blocks ≡ some h → h ≡ (chain n).hash

pub pruned-AddsNone : (n : ℕ) (d : Database) → AddsNone d (pruned n d)
unfolding pruned
pruned-AddsNone n d z h found = (kept_by _ d.hot_indexed_blocks z h found).0

pub hot_rolled_back-AddsNone : (n : ℕ) (d : Database) → AddsNone d (hot_rolled_back n d)
unfolding hot_rolled_back
hot_rolled_back-AddsNone n d z h found = (kept_by _ d.hot_indexed_blocks z h found).0

-- A rollback leaves the blocks below it.
pub hot_rolled_back_below :
    (n m : ℕ) (h : Bytes) (d : Database)
    → n < i64_limit
    → select_hash (pos m) (hot_rolled_back n d).hot_indexed_blocks ≡ some h
    → m < n
unfolding hot_rolled_back
hot_rolled_back_below n m h d small found =
    let early = (kept_by (leb_ℤ (as_i64 n)) d.hot_indexed_blocks (pos m) h found).1 in
    let cast = as_i64-eq_pos n small in ground (arith, early, cast)

module _ (sv : Services) (answers : sv.answer ≡ reliable) where
  pub get_hot_block_hash-serves :
      {P : Database → Type 0} (n : ℕ)
      → ((t : ℕ) (d : Database) → P d → P (sv.others t d))
      → Triple P
          (on_host sv.others (get_hot_block_hash sv.answer n))
          (λ o d. (o ≡ select_hash (as_i64 n) d.hot_indexed_blocks) × P d)
          Never
  unfolding get_hot_block_hash get_block_hash_from_table
  get_hot_block_hash-serves n kept =
      rw answers
        (Triple-ends sv.others _ kept λ h p. (_, h.database, Ends-execute _ h _ _ refl, (refl, p)))

  pub rollback_hot-serves :
      {P Q : Database → Type 0} (n : ℕ)
      → ((t : ℕ) (d : Database) → P d → P (sv.others t d))
      → ((d : Database) → P d → Q (hot_rolled_back n d))
      → Triple P (on_host sv.others (rollback_hot_from_block sv.answer n)) (λ _. Q) Never
  unfolding rollback_hot_from_block
  rollback_hot-serves n kept back = rw answers (
      Triple-ends sv.others _ kept λ h p. (
        tt,
        hot_rolled_back n h.database,
        Ends-transaction (rollback_hot_tx reliable n) h tt _ (λ h' e.
            subst (λ d. Ends (rollback_hot_tx reliable n h') tt (hot_rolled_back n d)) e
              (rollback_hot_tx-hot_rolled_back n h')),
        back h.database p,
      ))

  pub prune_hot-serves :
      {P Q : Database → Type 0} (n : ℕ)
      → ((t : ℕ) (d : Database) → P d → P (sv.others t d))
      → ((d : Database) → P d → Q (pruned n d))
      → Triple P (on_host sv.others (prune_hot_before_block sv.answer n)) (λ _. Q) Never
  unfolding prune_hot_before_block
  prune_hot-serves n kept back = rw answers (
      Triple-ends sv.others _ kept λ h p. (
        tt,
        pruned n h.database,
        Ends-transaction (prune_tx reliable n) h tt _ (λ h' e.
            subst (λ d. Ends (prune_tx reliable n h') tt (pruned n d)) e (prune_tx-pruned n h')),
        back h.database p,
      ))
