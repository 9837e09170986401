-- ===== src/Storage/Atomic.antt =====
-- crates/storage over a server that fails: the five functions that write are all or nothing.
use mathlib.Core.Path.{subst}
use rust_ethereum_indexer.Prelude.{
  ℕ, ◌+◌, ◌*◌, ◌<◌, false, ◌≡◌, refl, ◌∙◌, ◌⊎◌, inl, inr, List, Bytes, arith, i64_limit, All, ok,
  err, Result, Exec, pure, continue, ◌>>=◌,
}
use rust_ethereum_indexer.Storage.Tables.{Transfer, Database, repeats, insert_missing}
use rust_ethereum_indexer.Storage.Session.{Answer, Host, reliable, transaction}
use rust_ethereum_indexer.Storage.Statements.{block_partition_size}
use rust_ethereum_indexer.Storage.Calls.{
  commit_stats, finalized_range_tx, hot_range_tx, rollback_tx, rollback_hot_tx, prune_tx,
  commit_finalized_range, commit_hot_range, rollback_from_block, rollback_hot_from_block,
  prune_hot_before_block,
}
use rust_ethereum_indexer.Storage.Outcome.{Ends, Ends-transaction}
use rust_ethereum_indexer.Storage.Faults.{Agrees, Agrees-transaction, transaction_atomic}
use rust_ethereum_indexer.Storage.Partitions.{IsAligned}
use rust_ethereum_indexer.Storage.Ranges.{Within}
use rust_ethereum_indexer.Storage.Effects.{
  bound_blocks, finalized, heated, rolled_back, hot_rolled_back, pruned, rollback_tx-rolled_back,
  rollback_hot_tx-hot_rolled_back, prune_tx-pruned, finalized_range_tx-finalized,
  hot_range_tx-heated,
}
use rust_ethereum_indexer.Storage.Agreement.{
  Agrees-rollback_tx, Agrees-rollback_hot_tx, Agrees-prune_tx, Agrees-finalized_range_tx,
  Agrees-hot_range_tx,
}

-- A call from the database `before`: it leaves that or `after`, and where it returns a value, this
-- is `a` and the database is `after`.
pub record Settles {A : Type 0} (r : Result A × Host) (before : Database) (a : A) (after : Database)
    : Type 0 where
  pub whole : (r.1.database ≡ before) ⊎ (r.1.database ≡ after)
  pub success : (b : A) → r.0 ≡ ok b → (b ≡ a) × (r.1.database ≡ after)

-- The value that a call returns is computed from that of its transaction.
Settles-map :
    {A B : Type 0} (m : Exec Host A) (f : A → B) (h : Host) (before : Database) (a : A)
    (after : Database)
    → Settles (m h) before a after
    → Settles ((m >>= λ x. pure (f x)) h) before (f a) after
unfolding ◌>>=◌
Settles-map {A} {B} m f h before a after s = go (m h) s
  where
    go :
        (r : Result A × Host)
        → Settles r before a after
        → Settles (continue r.0 (λ x. pure {S = Host} (f x)) r.1) before (f a) after
    go (ok x, h') t = record { whole = t.whole; success = λ b e. ground (arith, t.success x refl) }
    go (err c, h') t = record { whole = t.whole; success = λ b e. ground arith }

module _ (answer : ℕ → Answer) where
  Settles-transaction :
      {A : Type 0} (body body' : Exec Host A) (h : Host) (a : A) (after : Database)
      → Agrees body body'
      → ((h' : Host) → h'.database ≡ h.database → Ends (body' h') a after)
      → Settles (transaction answer body h) h.database a after
  Settles-transaction {A} body body' h a after agrees ends = record {
    whole = whole (transaction_atomic answer body body' agrees h);
    success = λ b e.
        ground
          (arith, (Agrees-transaction answer body body' agrees).at h b e, end.result, end.database);
  }
    where
      end : Ends (transaction reliable body' h) a after
      end = Ends-transaction body' h a after ends

      whole :
          ((transaction answer body h).1.database ≡ h.database)
            ⊎ ((transaction answer body h).1.database ≡ (transaction reliable body' h).1.database)
          → ((transaction answer body h).1.database ≡ h.database)
            ⊎ ((transaction answer body h).1.database ≡ after)
      whole (inl e) = inl e
      whole (inr e) = inr (e ∙ end.database)

  module _ (n : ℕ) (h : Host) where
    -- Whichever requests fail, and if the reply to the commit is lost: the database is afterwards
    -- the old one, or the one without the blocks from `n` on in both lanes and with both
    -- checkpoints right below `n`; and the latter where the call succeeds.
    pub rollback_from_block-Settles :
        Settles (rollback_from_block answer n h) h.database tt (rolled_back n h.database)
    unfolding rollback_from_block
    rollback_from_block-Settles =
        Settles-transaction (rollback_tx answer n) (rollback_tx reliable n) h tt _
          (Agrees-rollback_tx answer n)
          (λ h' e.
            subst (λ d. Ends (rollback_tx reliable n h') tt (rolled_back n d)) e
              (rollback_tx-rolled_back n h'))

    -- Likewise for the hot lane alone: the old database, or the one without its blocks from `n` on
    -- and with the live checkpoint right below `n`; and the latter where the call succeeds.
    pub rollback_hot_from_block-Settles :
        Settles (rollback_hot_from_block answer n h) h.database tt (hot_rolled_back n h.database)
    unfolding rollback_hot_from_block
    rollback_hot_from_block-Settles =
        Settles-transaction (rollback_hot_tx answer n) (rollback_hot_tx reliable n) h tt _
          (Agrees-rollback_hot_tx answer n)
          (λ h' e.
            subst (λ d. Ends (rollback_hot_tx reliable n h') tt (hot_rolled_back n d)) e
              (rollback_hot_tx-hot_rolled_back n h'))

    -- The old database, or the one without the blocks of the hot lane below `n`; and the latter
    -- where the call succeeds.
    pub prune_hot_before_block-Settles :
        Settles (prune_hot_before_block answer n h) h.database tt (pruned n h.database)
    unfolding prune_hot_before_block
    prune_hot_before_block-Settles =
        Settles-transaction (prune_tx answer n) (prune_tx reliable n) h tt _
          (Agrees-prune_tx answer n)
          (λ h' e.
            subst (λ d. Ends (prune_tx reliable n h') tt (pruned n d)) e (prune_tx-pruned n h'))

  -- The blocks and the transfers of a range, as the ingestion hands them over: the blocks are
  -- distinct, and the transfers lie between `lo` and `hi`.
  module _ (lo hi : ℕ) (records : List Transfer) (blocks : List (ℕ × Bytes))
      (room : hi + 2 * block_partition_size < i64_limit) (within : All (Within lo hi) records)
      (distinct : repeats (bound_blocks blocks) ≡ false) (h : Host) where
    finalized_tx-Settles :
        (s c : ℕ)
        → All IsAligned h.database.erc20_transfers.partitions
        → Settles
            (transaction answer (finalized_range_tx answer records blocks s c) h)
            h.database
            (insert_missing records h.database.erc20_transfers.rows).0
            (finalized records blocks s c h.database)
    finalized_tx-Settles s c al =
        Settles-transaction (finalized_range_tx answer records blocks s c)
          (finalized_range_tx reliable records blocks s c) h _ _
          (Agrees-finalized_range_tx answer records blocks s c)
          (λ h' e.
            subst
              (λ d.
                All IsAligned d.erc20_transfers.partitions
                → Ends (finalized_range_tx reliable records blocks s c h')
                    (insert_missing records d.erc20_transfers.rows).0
                    (finalized records blocks s c d))
              e (finalized_range_tx-finalized lo hi records blocks room within distinct h' s c) al)

    hot_tx-Settles :
        (c : ℕ)
        → All IsAligned h.database.hot_erc20_transfers.partitions
        → Settles
            (transaction answer (hot_range_tx answer records blocks c) h)
            h.database
            (insert_missing records h.database.hot_erc20_transfers.rows).0
            (heated records blocks c h.database)
    hot_tx-Settles c al =
        Settles-transaction (hot_range_tx answer records blocks c)
          (hot_range_tx reliable records blocks c) h _ _
          (Agrees-hot_range_tx answer records blocks c)
          (λ h' e.
            subst
              (λ d.
                All IsAligned d.hot_erc20_transfers.partitions
                → Ends (hot_range_tx reliable records blocks c h')
                    (insert_missing records d.hot_erc20_transfers.rows).0
                    (heated records blocks c d))
              e (hot_range_tx-heated lo hi records blocks room within distinct h' c) al)

    -- For distinct blocks, transfers between `lo` and `hi`, room in an `i64`, and aligned
    -- partitions: whichever requests fail, and if the reply to the commit is lost: the database is
    -- afterwards the old one, or the one with the new transfers and blocks in the finalized lane,
    -- without the blocks from `s` to `c` in the hot lane, and with the checkpoint `c`. Where the
    -- call succeeds it is the latter, and the statistics count the transfers that were not there.
    pub commit_finalized_range-Settles :
        (s c : ℕ)
        → All IsAligned h.database.erc20_transfers.partitions
        → Settles
            (commit_finalized_range answer records blocks s c h)
            h.database
            (commit_stats records blocks (insert_missing records h.database.erc20_transfers.rows).0)
            (finalized records blocks s c h.database)
    unfolding commit_finalized_range
    commit_finalized_range-Settles s c al =
        Settles-map _ (commit_stats records blocks) h _ _ _ (finalized_tx-Settles s c al)

    -- Under the same conditions, for the hot lane: the old database, or the one with the new
    -- transfers and blocks in it and with the live checkpoint `c`; where the call succeeds it is
    -- the latter, and the statistics count the transfers that were not there.
    pub commit_hot_range-Settles :
        (c : ℕ)
        → All IsAligned h.database.hot_erc20_transfers.partitions
        → Settles
            (commit_hot_range answer records blocks c h)
            h.database
            (commit_stats records blocks
              (insert_missing records h.database.hot_erc20_transfers.rows).0)
            (heated records blocks c h.database)
    unfolding commit_hot_range
    commit_hot_range-Settles c al =
        Settles-map _ (commit_stats records blocks) h _ _ _ (hot_tx-Settles c al)
