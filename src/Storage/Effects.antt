-- ===== src/Storage/Effects.antt =====
-- crates/storage: the database that each writing function leaves when its transaction commits.
use mathlib.Core.Option
use rust_ethereum_indexer.Prelude.{
  ℕ, ◌+◌, ◌*◌, ◌-◌, ◌<◌, false, ◌≡◌, refl, ap, ◌∙◌, List, [], ◌∷◌, Bytes, map, leb_ℤ, ltb_ℤ, as_i64,
  i64_limit, All, pure, ◌>>=◌, ◌>>◌,
}
use rust_ethereum_indexer.Storage.Tables.{
  Transfer, BlockRow, Database, BlocksName, cold_transfers_table, hot_transfers_table,
  cold_blocks_table, hot_blocks_table, blocks_of, with_blocks, delete_transfers, delete_blocks,
  upsert_all, repeats, insert_missing, insert_blocks,
}
use rust_ethereum_indexer.Storage.Session.{Host, reliable, execute}
use rust_ethereum_indexer.Storage.Statements.{
  block_partition_size, between, insert_blocks_into_tx, delete_range_from_lane_tx,
  delete_range_between_blocks_tx, update_checkpoint_tx, update_live_checkpoint_tx,
}
use rust_ethereum_indexer.Storage.Calls.{
  finalized_range_tx, hot_range_tx, rollback_tx, rollback_hot_tx, prune_tx,
}
use rust_ethereum_indexer.Storage.Outcome.{Ends, Ends-bind, Ends-execute, Ends-pure}
use rust_ethereum_indexer.Storage.Partitions.{IsAligned}
use rust_ethereum_indexer.Storage.Inserts.{stored, insert_transfers_into_tx-stored}
use rust_ethereum_indexer.Storage.Ranges.{Within}

-- The blocks as the statement binds them.
abbrev pub bound_blocks : List (ℕ × Bytes) → List BlockRow
bound_blocks = map (λ p. (as_i64 p.0, p.1))

unfoldable pub finalized : List Transfer → List (ℕ × Bytes) → ℕ → ℕ → Database → Database
finalized records blocks start_block checkpoint db = record db {
  erc20_transfers = stored records db.erc20_transfers;
  indexed_blocks = upsert_all db.indexed_blocks (bound_blocks blocks);
  indexer_checkpoint = Option.map (λ _. as_i64 checkpoint) db.indexer_checkpoint;
  hot_erc20_transfers = delete_transfers (between start_block checkpoint) db.hot_erc20_transfers;
  hot_indexed_blocks = delete_blocks (between start_block checkpoint) db.hot_indexed_blocks;
}

unfoldable pub heated : List Transfer → List (ℕ × Bytes) → ℕ → Database → Database
heated records blocks checkpoint db = record db {
  hot_erc20_transfers = stored records db.hot_erc20_transfers;
  hot_indexed_blocks = upsert_all db.hot_indexed_blocks (bound_blocks blocks);
  live_indexer_checkpoint = Option.map (λ _. as_i64 checkpoint) db.live_indexer_checkpoint;
}

unfoldable pub hot_rolled_back : ℕ → Database → Database
hot_rolled_back n db = record db {
  hot_erc20_transfers = delete_transfers (leb_ℤ (as_i64 n)) db.hot_erc20_transfers;
  hot_indexed_blocks = delete_blocks (leb_ℤ (as_i64 n)) db.hot_indexed_blocks;
  live_indexer_checkpoint = Option.map (λ _. as_i64 (n - 1)) db.live_indexer_checkpoint;
}

unfoldable pub rolled_back : ℕ → Database → Database
unfolding hot_rolled_back
rolled_back n db = record (hot_rolled_back n db) {
  erc20_transfers = delete_transfers (leb_ℤ (as_i64 n)) db.erc20_transfers;
  indexed_blocks = delete_blocks (leb_ℤ (as_i64 n)) db.indexed_blocks;
  indexer_checkpoint = Option.map (λ _. as_i64 (n - 1)) db.indexer_checkpoint;
}

unfoldable pub pruned : ℕ → Database → Database
pruned n db = record db {
  hot_erc20_transfers = delete_transfers (λ z. ltb_ℤ z (as_i64 n)) db.hot_erc20_transfers;
  hot_indexed_blocks = delete_blocks (λ z. ltb_ℤ z (as_i64 n)) db.hot_indexed_blocks;
}

module _ (n : ℕ) (h : Host) where
  pub rollback_tx-rolled_back : Ends (rollback_tx reliable n h) tt (rolled_back n h.database)
  unfolding rollback_tx rolled_back execute delete_range_from_lane_tx update_checkpoint_tx
      update_live_checkpoint_tx ◌>>=◌
  rollback_tx-rolled_back = record { result = refl; database = refl }

  pub rollback_hot_tx-hot_rolled_back :
      Ends (rollback_hot_tx reliable n h) tt (hot_rolled_back n h.database)
  unfolding rollback_hot_tx hot_rolled_back execute delete_range_from_lane_tx
      update_live_checkpoint_tx ◌>>=◌
  rollback_hot_tx-hot_rolled_back = record { result = refl; database = refl }

  pub prune_tx-pruned : Ends (prune_tx reliable n h) tt (pruned n h.database)
  unfolding prune_tx pruned execute ◌>>=◌
  prune_tx-pruned = record { result = refl; database = refl }

insert_blocks-Ends :
    (name : BlocksName) (blocks : List (ℕ × Bytes)) (h : Host)
    → repeats (bound_blocks blocks) ≡ false
    → Ends
        (insert_blocks_into_tx reliable name blocks h)
        tt
        (with_blocks name (upsert_all (blocks_of name h.database) (bound_blocks blocks)) h.database)
unfolding insert_blocks_into_tx insert_blocks upsert_all
insert_blocks-Ends cold_blocks_table [] h e = Ends-pure tt h
insert_blocks-Ends hot_blocks_table [] h e = Ends-pure tt h
insert_blocks-Ends cold_blocks_table (b ∷ bs) h e = Ends-execute _ h _ _ (rw e refl)
insert_blocks-Ends hot_blocks_table (b ∷ bs) h e = Ends-execute _ h _ _ (rw e refl)

-- What follows the inserts in `commit_finalized_range`, and in `commit_hot_range`.
abbrev promoted : ℕ → ℕ → Database → Database
promoted start_block checkpoint db = record db {
  indexer_checkpoint = Option.map (λ _. as_i64 checkpoint) db.indexer_checkpoint;
  hot_erc20_transfers = delete_transfers (between start_block checkpoint) db.hot_erc20_transfers;
  hot_indexed_blocks = delete_blocks (between start_block checkpoint) db.hot_indexed_blocks;
}

abbrev followed : ℕ → Database → Database
followed checkpoint db = record db {
  live_indexer_checkpoint = Option.map (λ _. as_i64 checkpoint) db.live_indexer_checkpoint;
}

finalized_tail :
    (s c n : ℕ) (h : Host)
    → Ends
        ((delete_range_between_blocks_tx reliable hot_transfers_table hot_blocks_table s c
            >> (update_checkpoint_tx reliable c >> pure n))
          h)
        n
        (promoted s c h.database)
unfolding execute delete_range_between_blocks_tx update_checkpoint_tx ◌>>=◌
finalized_tail s c n h = record { result = refl; database = refl }

hot_tail :
    (c n : ℕ) (h : Host)
    → Ends ((update_live_checkpoint_tx reliable c >> pure n) h) n (followed c h.database)
unfolding execute update_live_checkpoint_tx ◌>>=◌
hot_tail c n h = record { result = refl; database = refl }

module _ (lo hi : ℕ) (records : List Transfer) (blocks : List (ℕ × Bytes))
    (room : hi + 2 * block_partition_size < i64_limit) (within : All (Within lo hi) records)
    (distinct : repeats (bound_blocks blocks) ≡ false) (h : Host) where
  pub finalized_range_tx-finalized :
      (start_block checkpoint : ℕ)
      → All IsAligned h.database.erc20_transfers.partitions
      → Ends
          (finalized_range_tx reliable records blocks start_block checkpoint h)
          (insert_missing records h.database.erc20_transfers.rows).0
          (finalized records blocks start_block checkpoint h.database)
  unfolding finalized_range_tx finalized
  finalized_range_tx-finalized s c al =
      Ends-bind _ _ h _ _ _ _
        (insert_transfers_into_tx-stored lo hi room cold_transfers_table records h within al)
        λ h₁ e₁.
          Ends-bind _ _ h₁ _ _ _ _ (insert_blocks-Ends cold_blocks_table blocks h₁ distinct)
            λ h₂ e₂.
              rw
                (← ap (promoted s c) (
                  e₂
                  ∙ ap
                      (λ d.
                        with_blocks cold_blocks_table
                          (upsert_all (blocks_of cold_blocks_table d) (bound_blocks blocks)) d)
                      e₁))
                (finalized_tail s c _ h₂)

  pub hot_range_tx-heated :
      (checkpoint : ℕ)
      → All IsAligned h.database.hot_erc20_transfers.partitions
      → Ends
          (hot_range_tx reliable records blocks checkpoint h)
          (insert_missing records h.database.hot_erc20_transfers.rows).0
          (heated records blocks checkpoint h.database)
  unfolding hot_range_tx heated
  hot_range_tx-heated c al =
      Ends-bind _ _ h _ _ _ _
        (insert_transfers_into_tx-stored lo hi room hot_transfers_table records h within al)
        λ h₁ e₁.
          Ends-bind _ _ h₁ _ _ _ _ (insert_blocks-Ends hot_blocks_table blocks h₁ distinct) λ h₂ e₂.
            rw
              (← ap (followed c) (
                e₂
                ∙ ap
                    (λ d.
                      with_blocks hot_blocks_table
                        (upsert_all (blocks_of hot_blocks_table d) (bound_blocks blocks)) d)
                    e₁))
              (hot_tail c _ h₂)
