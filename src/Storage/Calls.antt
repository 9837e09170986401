-- ===== src/Storage/Calls.antt =====
-- crates/storage/src/lib.rs: the functions that the other crates call, lines 15 to 221.
use rust_ethereum_indexer.Prelude.{
  ℕ, ◌-◌, Option, List, [], ◌∷◌, Bytes, length, leb_ℤ, ltb_ℤ, as_i64, as_u64, if◌then◌else◌, Exec,
  pure, ◌>>=◌, ◌>>◌, map, keep_if,
}
use rust_ethereum_indexer.Storage.Tables.{
  Transfer, BlockRow, cold_transfers_table, hot_transfers_table, cold_blocks_table,
  hot_blocks_table, delete_transfers, delete_blocks,
}
use rust_ethereum_indexer.Storage.Session.{Answer, Host, execute, transaction}
use rust_ethereum_indexer.Storage.Statements.{
  reads, writes, one_row, between, insert_transfers_into_tx, insert_blocks_into_tx,
  delete_range_from_lane_tx, delete_range_between_blocks_tx, update_checkpoint_tx,
  update_live_checkpoint_tx, get_block_hash_from_table,
}

pub record CommitStats : Type 0 where
  pub attempted_transfers : ℕ
  pub inserted_transfers : ℕ
  pub duplicate_transfers : ℕ
  pub block_rows : ℕ

abbrev pub commit_stats : List Transfer → List (ℕ × Bytes) → ℕ → CommitStats
commit_stats transfer_records indexed_blocks inserted_transfers = record {
  attempted_transfers = length transfer_records;
  inserted_transfers = inserted_transfers;
  duplicate_transfers = length transfer_records - inserted_transfers;
  block_rows = length indexed_blocks;
}

-- ORDER BY block_number ASC
unfoldable pub insert_by_number : BlockRow → List BlockRow → List BlockRow
insert_by_number r [] = r ∷ []
insert_by_number r (q ∷ rows) =
    let rest = insert_by_number r rows in if leb_ℤ r.0 q.0 then r ∷ q ∷ rows else q ∷ rest

unfoldable pub order_by_number : List BlockRow → List BlockRow
unfolding insert_by_number
order_by_number [] = []
order_by_number (r ∷ rows) = insert_by_number r (order_by_number rows)

module _ (answer : ℕ → Answer) where
  unfoldable pub get_checkpoint : Exec Host ℕ
  get_checkpoint = do
    last ← execute answer (λ db. one_row db.indexer_checkpoint db)
    pure (as_u64 last)

  unfoldable pub get_live_checkpoint : Exec Host ℕ
  get_live_checkpoint = do
    last ← execute answer (λ db. one_row db.live_indexer_checkpoint db)
    pure (as_u64 last)

  unfoldable pub get_block_hash : ℕ → Exec Host (Option Bytes)
  get_block_hash = get_block_hash_from_table answer cold_blocks_table

  unfoldable pub get_hot_block_hash : ℕ → Exec Host (Option Bytes)
  get_hot_block_hash = get_block_hash_from_table answer hot_blocks_table

  unfoldable pub list_hot_block_numbers : ℕ → ℕ → Exec Host (List ℕ)
  list_hot_block_numbers start_block end_block = do
    rows ← execute answer (
        reads (λ db.
          order_by_number (keep_if (λ r. between start_block end_block r.0) db.hot_indexed_blocks)))
    pure (map (λ r. as_u64 r.0) rows)

  unfoldable pub list_hot_blocks : Exec Host (List (ℕ × Bytes))
  list_hot_blocks = do
    rows ← execute answer (reads (λ db. order_by_number db.hot_indexed_blocks))
    pure (map (λ r. (as_u64 r.0, r.1)) rows)

  unfoldable pub finalized_range_tx : List Transfer → List (ℕ × Bytes) → ℕ → ℕ → Exec Host ℕ
  finalized_range_tx transfer_records indexed_blocks start_block checkpoint = do
    inserted_transfers ← insert_transfers_into_tx answer cold_transfers_table transfer_records
    insert_blocks_into_tx answer cold_blocks_table indexed_blocks
    delete_range_between_blocks_tx answer hot_transfers_table hot_blocks_table start_block
        checkpoint
    update_checkpoint_tx answer checkpoint
    pure inserted_transfers

  unfoldable pub commit_finalized_range :
      List Transfer → List (ℕ × Bytes) → ℕ → ℕ → Exec Host CommitStats
  commit_finalized_range transfer_records indexed_blocks start_block checkpoint = do
    inserted_transfers ←
        transaction answer
          (finalized_range_tx transfer_records indexed_blocks start_block checkpoint)
    pure (commit_stats transfer_records indexed_blocks inserted_transfers)

  unfoldable pub hot_range_tx : List Transfer → List (ℕ × Bytes) → ℕ → Exec Host ℕ
  hot_range_tx transfer_records indexed_blocks checkpoint = do
    inserted_transfers ← insert_transfers_into_tx answer hot_transfers_table transfer_records
    insert_blocks_into_tx answer hot_blocks_table indexed_blocks
    update_live_checkpoint_tx answer checkpoint
    pure inserted_transfers

  unfoldable pub commit_hot_range : List Transfer → List (ℕ × Bytes) → ℕ → Exec Host CommitStats
  commit_hot_range transfer_records indexed_blocks checkpoint = do
    inserted_transfers ←
        transaction answer (hot_range_tx transfer_records indexed_blocks checkpoint)
    pure (commit_stats transfer_records indexed_blocks inserted_transfers)

  unfoldable pub rollback_tx : ℕ → Exec Host (Unit {0})
  rollback_tx block_number = do
    delete_range_from_lane_tx answer cold_transfers_table cold_blocks_table block_number
    delete_range_from_lane_tx answer hot_transfers_table hot_blocks_table block_number
    update_checkpoint_tx answer (block_number - 1)
    update_live_checkpoint_tx answer (block_number - 1)

  unfoldable pub rollback_from_block : ℕ → Exec Host (Unit {0})
  rollback_from_block block_number = transaction answer (rollback_tx block_number)

  unfoldable pub rollback_hot_tx : ℕ → Exec Host (Unit {0})
  rollback_hot_tx block_number = do
    delete_range_from_lane_tx answer hot_transfers_table hot_blocks_table block_number
    update_live_checkpoint_tx answer (block_number - 1)

  unfoldable pub rollback_hot_from_block : ℕ → Exec Host (Unit {0})
  rollback_hot_from_block block_number = transaction answer (rollback_hot_tx block_number)

  unfoldable pub prune_tx : ℕ → Exec Host (Unit {0})
  prune_tx before_block = do
    execute answer (
        writes (λ db. record db {
          hot_erc20_transfers =
              delete_transfers (λ z. ltb_ℤ z (as_i64 before_block)) db.hot_erc20_transfers;
        }))
    execute answer (
        writes (λ db. record db {
          hot_indexed_blocks =
              delete_blocks (λ z. ltb_ℤ z (as_i64 before_block)) db.hot_indexed_blocks;
        }))

  unfoldable pub prune_hot_before_block : ℕ → Exec Host (Unit {0})
  prune_hot_before_block before_block = transaction answer (prune_tx before_block)
