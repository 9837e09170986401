-- ===== src/Storage/Statements.antt =====
-- crates/storage/src/lib.rs: the private functions on a transaction, lines 223 to 439.
use rust_ethereum_indexer.Prelude.{
  ℕ, zero, suc, ◌+◌, ◌*◌, ◌/◌, Bool, true, false, ◌&&◌, Option, none, some, List, [], ◌∷◌, Bytes, ℤ,
  pos, negsuc, pos_part, neg_part, leb_ℤ, as_i64, add_i64, if◌then◌else◌, Result, ok, err,
  row_not_found, Exec, pure, ◌>>◌, map,
}
use mathlib.Core.Option
use rust_ethereum_indexer.Storage.Tables.{
  Transfer, TransfersTable, BlockRow, Database, Partition, TransfersName, BlocksName, transfers_of,
  blocks_of, with_transfers, with_blocks, delete_transfers, delete_blocks, insert_transfers,
  select_hash, insert_blocks, create_partition,
}
use rust_ethereum_indexer.Storage.Session.{Answer, Host, Statement, execute}

abbrev pub block_partition_size : ℕ
block_partition_size = 100_000

-- A statement that reads a value, and statements that write a table or fail.
abbrev pub reads : {A : Type 0} → (Database → A) → Statement A
reads f db = ok (f db, db)

abbrev pub writes : (Database → Database) → Statement (Unit {0})
writes f db = ok (tt, f db)

abbrev pub store_transfers :
    TransfersName → Database → Result (ℕ × TransfersTable) → Result (ℕ × Database)
store_transfers name db (ok (n, t)) = ok (n, with_transfers name t db)
store_transfers name db (err e) = err e

abbrev pub store_blocks :
    BlocksName → Database → Result (List BlockRow) → Result (Unit {0} × Database)
store_blocks name db (ok t) = ok (tt, with_blocks name t db)
store_blocks name db (err e) = err e

abbrev pub store_partition :
    TransfersName → Database → Result TransfersTable → Result (Unit {0} × Database)
store_partition name db (ok t) = ok (tt, with_transfers name t db)
store_partition name db (err e) = err e

-- `fetch_one` on the row `id = 1`
abbrev pub one_row : Option ℤ → Database → Result (ℤ × Database)
one_row none db = err row_not_found
one_row (some z) db = ok (z, db)

abbrev pub min_ℤ : ℤ → ℤ → ℤ
min_ℤ a b = if leb_ℤ a b then a else b

abbrev pub max_ℤ : ℤ → ℤ → ℤ
max_ℤ a b = if leb_ℤ a b then b else a

-- `.iter().map(|record| record.block_number).min()` of a list that is not empty, and `.max()`
unfoldable pub min_block : Transfer → List Transfer → ℤ
min_block r [] = r.block_number
min_block r (r' ∷ rs) = min_ℤ r.block_number (min_block r' rs)

unfoldable pub max_block : Transfer → List Transfer → ℤ
max_block r [] = r.block_number
max_block r (r' ∷ rs) = max_ℤ r.block_number (max_block r' rs)

abbrev negated : ℕ → ℤ
negated zero = pos 0
negated (suc n) = negsuc n

-- (z / BLOCK_PARTITION_SIZE) * BLOCK_PARTITION_SIZE; `/` on `i64` rounds towards 0.
unfoldable pub partition_start_of : ℤ → ℤ
partition_start_of (pos n) = pos (n / block_partition_size * block_partition_size)
partition_start_of (negsuc n) = negated (suc n / block_partition_size * block_partition_size)

abbrev pub partition_from : ℤ → Partition
partition_from start = record { start = start; stop = add_i64 start (pos block_partition_size) }

-- The rounds that the loop over the partitions can make, and one more.
unfoldable pub partition_rounds : ℤ → ℤ → ℕ
partition_rounds first last = suc (suc ((pos_part last + neg_part first) / block_partition_size))

-- BETWEEN $1 AND $2
abbrev pub between : ℕ → ℕ → ℤ → Bool
between a b z = leb_ℤ (as_i64 a) z && leb_ℤ z (as_i64 b)

module _ (answer : ℕ → Answer) where
  -- while partition_start <= last_partition_start { …; partition_start += BLOCK_PARTITION_SIZE }
  unfoldable pub create_partitions : ℕ → TransfersName → ℤ → ℤ → Exec Host (Unit {0})
  create_partitions zero name start last = pure tt
  create_partitions (suc fuel) name start last = elim (leb_ℤ start last) [
    | true ↦ do
      execute answer (λ db.
          store_partition name db (create_partition (partition_from start) (transfers_of name db)))
      create_partitions fuel name (add_i64 start (pos block_partition_size)) last
    | false ↦ pure tt
  ]

  unfoldable pub ensure_partitions_for_range_tx : TransfersName → ℤ → ℤ → Exec Host (Unit {0})
  unfolding create_partitions
  ensure_partitions_for_range_tx name start_block end_block =
      create_partitions
        (partition_rounds (partition_start_of start_block) (partition_start_of end_block)) name
        (partition_start_of start_block) (partition_start_of end_block)

  unfoldable pub insert_transfers_into_tx : TransfersName → List Transfer → Exec Host ℕ
  insert_transfers_into_tx name [] = pure 0
  insert_transfers_into_tx name (r ∷ rs) = do
    ensure_partitions_for_range_tx name (min_block r rs) (max_block r rs)
    execute answer
        (λ db. store_transfers name db (insert_transfers (r ∷ rs) (transfers_of name db)))

  unfoldable pub insert_blocks_into_tx : BlocksName → List (ℕ × Bytes) → Exec Host (Unit {0})
  insert_blocks_into_tx name [] = pure tt
  insert_blocks_into_tx name (b ∷ bs) = execute answer (λ db.
      store_blocks name db
        (insert_blocks (map (λ p. (as_i64 p.0, p.1)) (b ∷ bs)) (blocks_of name db)))

  -- DELETE … WHERE block_number >= $1, from both tables of a lane
  unfoldable pub delete_range_from_lane_tx : TransfersName → BlocksName → ℕ → Exec Host (Unit {0})
  delete_range_from_lane_tx transfers_table blocks_table from_block = do
    execute answer (
        writes (λ db.
          with_transfers transfers_table
            (delete_transfers (leb_ℤ (as_i64 from_block)) (transfers_of transfers_table db)) db))
    execute answer (
        writes (λ db.
          with_blocks blocks_table
            (delete_blocks (leb_ℤ (as_i64 from_block)) (blocks_of blocks_table db)) db))

  -- DELETE … WHERE block_number BETWEEN $1 AND $2
  unfoldable pub delete_range_between_blocks_tx :
      TransfersName → BlocksName → ℕ → ℕ → Exec Host (Unit {0})
  delete_range_between_blocks_tx transfers_table blocks_table start_block end_block = do
    execute answer (
        writes (λ db.
          with_transfers transfers_table
            (delete_transfers (between start_block end_block) (transfers_of transfers_table db))
            db))
    execute answer (
        writes (λ db.
          with_blocks blocks_table
            (delete_blocks (between start_block end_block) (blocks_of blocks_table db)) db))

  -- UPDATE … SET last_processed_block = $1 WHERE id = 1
  unfoldable pub update_checkpoint_tx : ℕ → Exec Host (Unit {0})
  update_checkpoint_tx checkpoint = execute answer (
      writes (λ db. record db {
        indexer_checkpoint = Option.map (λ _. as_i64 checkpoint) db.indexer_checkpoint;
      }))

  unfoldable pub update_live_checkpoint_tx : ℕ → Exec Host (Unit {0})
  update_live_checkpoint_tx checkpoint = execute answer (
      writes (λ db. record db {
        live_indexer_checkpoint = Option.map (λ _. as_i64 checkpoint) db.live_indexer_checkpoint;
      }))

  unfoldable pub get_block_hash_from_table : BlocksName → ℕ → Exec Host (Option Bytes)
  get_block_hash_from_table name block_number =
      execute answer (reads (λ db. select_hash (as_i64 block_number) (blocks_of name db)))
