-- ===== src/Storage/Creation.antt =====
-- The loop of `ensure_partitions_for_range_tx` on a server that answers: it ends with the whole
-- range covered.
use rust_ethereum_indexer.Prelude.{
  ℕ, zero, suc, ◌+◌, ◌*◌, ◌≤◌, ◌<◌, true, false, ◌≡◌, refl, ap, ◌∙◌, sym, arith, pos, i64_limit,
  add_i64, leb_ℤ, All, ok, pure, ◌>>=◌,
}
use rust_ethereum_indexer.Storage.Tables.{
  TransfersTable, Database, TransfersName, cold_transfers_table, hot_transfers_table, transfers_of,
  with_transfers, create_partition,
}
use rust_ethereum_indexer.Storage.Session.{Host, execute, reliable, tick}
use rust_ethereum_indexer.Storage.Statements.{block_partition_size, create_partitions}
use rust_ethereum_indexer.Storage.Outcome.{Ends}
use rust_ethereum_indexer.Storage.Partitions.{
  IsAligned, slot, added, opened, partition_from-IsSlot, create_partition-added, added-IsAligned,
  add_i64-pos,
}

pub transfers_of-with_transfers :
    (name : TransfersName) (t : TransfersTable) (db : Database)
    → transfers_of name (with_transfers name t db) ≡ t
transfers_of-with_transfers cold_transfers_table t db = refl
transfers_of-with_transfers hot_transfers_table t db = refl

pub with_transfers-with_transfers :
    (name : TransfersName) (t u : TransfersTable) (db : Database)
    → with_transfers name t (with_transfers name u db) ≡ with_transfers name t db
with_transfers-with_transfers cold_transfers_table t u db = refl
with_transfers-with_transfers hot_transfers_table t u db = refl

pub with_transfers-transfers_of :
    (name : TransfersName) (db : Database) → with_transfers name (transfers_of name db) db ≡ db
with_transfers-transfers_of cold_transfers_table db = refl
with_transfers-transfers_of hot_transfers_table db = refl

module _ (name : TransfersName) where
  -- One round of the loop.
  create_round :
      (fuel k l : ℕ) (h : Host)
      → k ≤ l
      → (k + 1) * block_partition_size < i64_limit
      → All IsAligned (transfers_of name h.database).partitions
      → create_partitions reliable
          (suc fuel)
          name
          (pos (k * block_partition_size))
          (pos (l * block_partition_size))
          h
        ≡ create_partitions reliable fuel name
            (pos (suc k * block_partition_size))
            (pos (l * block_partition_size))
            (record (tick h) {
              database =
                  with_transfers name (added (slot k) (transfers_of name h.database)) h.database;
            })
  unfolding create_partitions execute ◌>>=◌
  create_round fuel k l h le room al =
      let e : add_i64 (pos (k * block_partition_size)) (pos block_partition_size)
          ≡ pos (suc k * block_partition_size) =
        add_i64-pos (k * block_partition_size) block_partition_size (omega arith)
        ∙ ap pos (omega arith) in
      let c : leb_ℤ (pos (k * block_partition_size)) (pos (l * block_partition_size)) ≡ true =
        ground arith in
      let made : create_partition (slot k) (transfers_of name h.database)
          ≡ ok (added (slot k) (transfers_of name h.database)) =
        create_partition-added k (slot k) (partition_from-IsSlot k (omega arith))
          (transfers_of name h.database) al in
      rw (c, create_partitions, made) (rw e refl)

  create_stop :
      (fuel k l : ℕ) (h : Host)
      → l < k
      → create_partitions reliable
          (suc fuel)
          name
          (pos (k * block_partition_size))
          (pos (l * block_partition_size))
          h
        ≡ (ok tt, h)
  unfolding create_partitions pure
  create_stop fuel k l h lt = rw (stop, create_partitions) refl
    where
      stop : leb_ℤ (pos (k * block_partition_size)) (pos (l * block_partition_size)) ≡ false
      stop = ground arith

  pub create_partitions-opened :
      (fuel rounds k l : ℕ) (h : Host)
      → k + rounds ≡ suc l
      → rounds < fuel
      → suc l * block_partition_size < i64_limit
      → All IsAligned (transfers_of name h.database).partitions
      → Ends
          (create_partitions reliable fuel name
            (pos (k * block_partition_size))
            (pos (l * block_partition_size))
            h)
          tt
          (with_transfers name (opened rounds k (transfers_of name h.database)) h.database)
  unfolding opened
  create_partitions-opened zero rounds k l h e f room al = absurd (omega arith)
  create_partitions-opened (suc fuel) zero k l h e f room al =
      rw (create_stop fuel k l h (omega arith))
        (record { result = refl; database = sym (with_transfers-transfers_of name h.database) })
  create_partitions-opened (suc fuel) (suc rounds) k l h e f room al =
      let rest =
        create_partitions-opened fuel rounds (suc k) l next (omega arith) (omega arith) room
          aligned in
      rw (create_round fuel k l h (omega arith) (omega arith) al) (record {
        result = rest.result;
        database =
            rest.database
            ∙ with_transfers-with_transfers name _ _ h.database
            ∙ ap (λ t. with_transfers name (opened rounds (suc k) t) h.database) here;
      })
    where
      t' : TransfersTable
      t' = added (slot k) (transfers_of name h.database)

      next : Host
      next = record (tick h) { database = with_transfers name t' h.database }

      here : transfers_of name next.database ≡ t'
      here = transfers_of-with_transfers name t' h.database

      aligned : All IsAligned (transfers_of name next.database).partitions
      aligned = rw here (
          added-IsAligned k (slot k) (partition_from-IsSlot k (omega arith))
            (transfers_of name h.database) al)
