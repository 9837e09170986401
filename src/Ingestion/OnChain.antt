-- ===== src/Ingestion/OnChain.antt =====
-- The calls of crates/storage/src/lib.rs that `run_backfill` makes, on a server that answers; and
-- what it means that the stored hashes are those of the chain.
use mathlib.Core.Path.{subst}
use rust_ethereum_indexer.Prelude.{
  ℕ, ◌<◌, true, ◌≡◌, refl, sym, ap, ◌∙◌, Option, none, some, Bytes, bytes_eq_refl, bytes_eq→eq,
  arith, pos, as_i64,
}
use rust_ethereum_indexer.Storage.Tables.{Database, select_hash}
use rust_ethereum_indexer.Storage.Session.{reliable}
use rust_ethereum_indexer.Storage.Statements.{get_block_hash_from_table}
use rust_ethereum_indexer.Storage.Calls.{get_block_hash, rollback_tx, rollback_from_block}
use rust_ethereum_indexer.Storage.Outcome.{Ends, Ends-execute, Ends-transaction}
use rust_ethereum_indexer.Storage.Effects.{rolled_back, rollback_tx-rolled_back}
use rust_ethereum_indexer.World.{Services, Header, on_host}
use rust_ethereum_indexer.Ingestion.Engine.{is_valid}
use rust_ethereum_indexer.Ingestion.Keeps.{Triple}
use rust_ethereum_indexer.Ingestion.Total.{Triple-ends}
use rust_ethereum_indexer.Ingestion.Writes.{SameFinalized}

-- The stored hashes of the blocks below `b` are those of the chain; those of all blocks are.
abbrev pub OnBelow : (ℕ → Header) → ℕ → Database → Type 0
OnBelow chain b d =
    (n : ℕ) (h : Bytes) → n < b → select_hash (pos n) d.indexed_blocks ≡ some h → h ≡ (chain n).hash

abbrev pub OnChain : (ℕ → Header) → Database → Type 0
OnChain chain d =
    (n : ℕ) (h : Bytes) → select_hash (pos n) d.indexed_blocks ≡ some h → h ≡ (chain n).hash

-- Both are about the finalized lane alone.
pub OnBelow-moved :
    (chain : ℕ → Header) (b : ℕ) (d d' : Database)
    → SameFinalized d d'
    → OnBelow chain b d
    → OnBelow chain b d'
OnBelow-moved chain b d d' same on n h lt found =
    on n h lt (ap (λ bs. select_hash (pos n) bs) (sym same.blocks) ∙ found)

pub OnChain-moved :
    (chain : ℕ → Header) (d d' : Database) → SameFinalized d d' → OnChain chain d → OnChain chain d'
OnChain-moved chain d d' same on n h found =
    on n h (ap (λ bs. select_hash (pos n) bs) (sym same.blocks) ∙ found)

-- A block that is accepted is stored under the hash of the chain.
pub accepted : (o : Option Bytes) (hash : Bytes) → is_valid o hash ≡ true → o ≡ some hash
accepted none hash e = absurd (ground arith)
accepted (some stored) hash e = ap some (bytes_eq→eq stored hash e)

pub valid : (o : Option Bytes) (hash : Bytes) → o ≡ some hash → is_valid o hash ≡ true
valid o hash e = rw e (bytes_eq_refl hash)

module _ {E : Database → Type 0} (sv : Services) (answers : sv.answer ≡ reliable) where
  pub get_block_hash-serves :
      {P : Database → Type 0} (n : ℕ)
      → ((t : ℕ) (d : Database) → P d → P (sv.others t d))
      → Triple P
          (on_host sv.others (get_block_hash sv.answer n))
          (λ o d. (o ≡ select_hash (as_i64 n) d.indexed_blocks) × P d)
          E
  unfolding get_block_hash get_block_hash_from_table
  get_block_hash-serves n kept =
      rw answers
        (Triple-ends sv.others _ kept λ h p. (_, h.database, Ends-execute _ h _ _ refl, (refl, p)))

  pub rollback_from_block-serves :
      {P Q : Database → Type 0} (n : ℕ)
      → ((t : ℕ) (d : Database) → P d → P (sv.others t d))
      → ((d : Database) → P d → Q (rolled_back n d))
      → Triple P (on_host sv.others (rollback_from_block sv.answer n)) (λ _. Q) E
  unfolding rollback_from_block
  rollback_from_block-serves n kept back = rw answers (
      Triple-ends sv.others _ kept λ h p. (
        tt,
        rolled_back n h.database,
        Ends-transaction (rollback_tx reliable n) h tt _ (λ h' e.
            subst (λ d. Ends (rollback_tx reliable n h') tt (rolled_back n d)) e
              (rollback_tx-rolled_back n h')),
        back h.database p,
      ))

-- The checkpoint is `c`.
abbrev pub Checkpoint : ℕ → Database → Type 0
Checkpoint c d = d.indexer_checkpoint ≡ some (pos c)
