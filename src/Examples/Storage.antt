-- ===== src/Examples/Storage.antt =====
-- The theorems on the storage crate, on the database that the migrations leave.
use rust_ethereum_indexer.Prelude.{
  pos, negsuc, ◌+◌, ◌*◌, ◌<◌, false, ◌≡◌, refl, [], ◌∷◌, arith, as_i64, any_of, All, i64_limit,
}
use rust_ethereum_indexer.Storage.Tables.{cold_transfers_table, migrated, repeats, insert_missing}
use rust_ethereum_indexer.Storage.Session.{reliable}
use rust_ethereum_indexer.Storage.Statements.{
  block_partition_size, create_partitions, partition_rounds,
}
use rust_ethereum_indexer.Storage.Loop.{create_partitions-rounds}
use rust_ethereum_indexer.Storage.Calls.{
  commit_stats, rollback_from_block, rollback_hot_from_block, prune_hot_before_block,
  commit_finalized_range, commit_hot_range,
}
use rust_ethereum_indexer.Storage.Ranges.{Within}
use rust_ethereum_indexer.Storage.Effects.{
  bound_blocks, finalized, heated, rolled_back, hot_rolled_back, pruned,
}
use rust_ethereum_indexer.Storage.Atomic.{
  Settles, rollback_from_block-Settles, rollback_hot_from_block-Settles,
  prune_hot_before_block-Settles, commit_finalized_range-Settles, commit_hot_range-Settles,
}
use rust_ethereum_indexer.Storage.Replay.{IsReplay, commit_finalized_range-IsReplay}
use rust_ethereum_indexer.Examples.Fixtures.{flaky, empty_host, transfer_two, blocks_two}

room_two : 2 + 2 * block_partition_size < i64_limit
room_two = omega arith

transfers_two-Within : All (Within 1 2) (transfer_two ∷ [])
transfers_two-Within = ((2, refl, omega arith, omega arith), tt)

distinct_two : repeats (bound_blocks blocks_two) ≡ false
unfolding repeats as_i64 any_of
distinct_two = refl

rollback_from_block-Settles_example :
    Settles (rollback_from_block flaky 2 empty_host) migrated tt (rolled_back 2 migrated)
rollback_from_block-Settles_example = rollback_from_block-Settles flaky 2 empty_host

rollback_hot_from_block-Settles_example :
    Settles (rollback_hot_from_block flaky 2 empty_host) migrated tt (hot_rolled_back 2 migrated)
rollback_hot_from_block-Settles_example = rollback_hot_from_block-Settles flaky 2 empty_host

prune_hot_before_block-Settles_example :
    Settles (prune_hot_before_block flaky 2 empty_host) migrated tt (pruned 2 migrated)
prune_hot_before_block-Settles_example = prune_hot_before_block-Settles flaky 2 empty_host

commit_finalized_range-Settles_example :
    Settles
      (commit_finalized_range flaky (transfer_two ∷ []) blocks_two 1 2 empty_host)
      migrated
      (commit_stats (transfer_two ∷ []) blocks_two (insert_missing (transfer_two ∷ []) []).0)
      (finalized (transfer_two ∷ []) blocks_two 1 2 migrated)
commit_finalized_range-Settles_example =
    commit_finalized_range-Settles flaky 1 2 (transfer_two ∷ []) blocks_two room_two
      transfers_two-Within distinct_two empty_host 1 2 tt

commit_hot_range-Settles_example :
    Settles
      (commit_hot_range flaky (transfer_two ∷ []) blocks_two 2 empty_host)
      migrated
      (commit_stats (transfer_two ∷ []) blocks_two (insert_missing (transfer_two ∷ []) []).0)
      (heated (transfer_two ∷ []) blocks_two 2 migrated)
commit_hot_range-Settles_example =
    commit_hot_range-Settles flaky 1 2 (transfer_two ∷ []) blocks_two room_two transfers_two-Within
      distinct_two empty_host 2 tt

commit_finalized_range-IsReplay_example :
    IsReplay
      (transfer_two ∷ [])
      blocks_two
      migrated
      (commit_finalized_range reliable (transfer_two ∷ []) blocks_two 1 2 empty_host)
      (commit_finalized_range reliable
        (transfer_two ∷ [])
        blocks_two
        1
        2
        (commit_finalized_range reliable (transfer_two ∷ []) blocks_two 1 2 empty_host).1)
commit_finalized_range-IsReplay_example =
    commit_finalized_range-IsReplay 1 2 (transfer_two ∷ []) blocks_two room_two transfers_two-Within
      distinct_two 1 2 empty_host tt

create_partitions-rounds_example :
    create_partitions flaky
      (partition_rounds (negsuc 99_999) (pos 300_000) + 7)
      cold_transfers_table
      (negsuc 99_999)
      (pos 300_000)
    ≡ create_partitions flaky
        (partition_rounds (negsuc 99_999) (pos 300_000))
        cold_transfers_table
        (negsuc 99_999)
        (pos 300_000)
create_partitions-rounds_example =
    create_partitions-rounds flaky cold_transfers_table (pos 300_000) (omega arith) (negsuc 99_999)
      7 (omega arith)
