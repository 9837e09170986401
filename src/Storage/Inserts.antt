-- ===== src/Storage/Inserts.antt =====
-- The INSERT statements on a server that answers: no row is refused for want of a partition.
use rust_ethereum_indexer.Prelude.{
  ℕ, suc, ◌+◌, ◌*◌, ◌/◌, ◌-◌, ◌≤◌, ◌<◌, false, not, ◌≡◌, refl, List, [], ◌∷◌, arith, ℤ, pos,
  pos_part, i64_limit, any_of, All, ok,
}
use rust_ethereum_indexer.Storage.Tables.{
  TransfersTable, Transfer, Database, TransfersName, cold_transfers_table, hot_transfers_table,
  transfers_of, with_transfers, routed, insert_missing, insert_transfers,
}
use rust_ethereum_indexer.Storage.Session.{Host, execute, reliable}
use rust_ethereum_indexer.Storage.Statements.{
  store_transfers, block_partition_size, partition_start_of, partition_rounds, min_block, max_block,
  ensure_partitions_for_range_tx, insert_transfers_into_tx,
}
use rust_ethereum_indexer.Storage.Outcome.{Ends, Ends-bind, Ends-execute, Ends-pure}
use rust_ethereum_indexer.Storage.Partitions.{
  IsAligned, opened, opened_holds, opened-IsAligned, rows-opened,
}
use rust_ethereum_indexer.Storage.Creation.{with_transfers-transfers_of, create_partitions-opened}
use rust_ethereum_indexer.Storage.Ranges.{Within, Spans, spans}

abbrev slot_of : ℤ → ℕ
slot_of z = pos_part z / block_partition_size

-- The table once the loop has run for the rows.
unfoldable pub opened_for : List Transfer → TransfersTable → TransfersTable
opened_for [] t = t
opened_for (r ∷ rs) t =
    opened (suc (slot_of (max_block r rs)) - slot_of (min_block r rs)) (slot_of (min_block r rs)) t

-- The table once the rows are in.
unfoldable pub stored : List Transfer → TransfersTable → TransfersTable
unfolding opened_for
stored rs t = record (opened_for rs t) { rows = (insert_missing rs t.rows).1 }

routed-All :
    (lo hi k rounds : ℕ) (t : TransfersTable) (rs : List Transfer)
    → (k + rounds) * block_partition_size < i64_limit
    → k * block_partition_size ≤ lo
    → hi < (k + rounds) * block_partition_size
    → All (Within lo hi) rs
    → any_of (λ r. not (routed (opened rounds k t).partitions r)) rs ≡ false
unfolding any_of routed
routed-All lo hi k rounds t [] fits l g h = refl
routed-All lo hi k rounds t (r ∷ rs) fits l g h =
    rw (h.0.1, opened_holds rounds k h.0.0 t fits (omega (arith, h.0.2)) (omega (arith, h.0.3)))
      (routed-All lo hi k rounds t rs fits l g h.1)

-- The INSERT itself, on a table whose partitions hold every row.
insert-store :
    (name : TransfersName) (rs : List Transfer) (t : TransfersTable) (rows : List Transfer)
    (db db' : Database)
    → db' ≡ with_transfers name t db
    → t.rows ≡ rows
    → any_of (λ r. not (routed t.partitions r)) rs ≡ false
    → store_transfers name db' (insert_transfers rs (transfers_of name db'))
      ≡ ok (
        (insert_missing rs rows).0,
        with_transfers name (record t { rows = (insert_missing rs rows).1 }) db,
      )
unfolding insert_transfers
insert-store cold_transfers_table rs t rows db db' e p q = rw (e, q, ← p) refl
insert-store hot_transfers_table rs t rows db db' e p q = rw (e, q, ← p) refl

module _ (lo hi : ℕ) (room : hi + 2 * block_partition_size < i64_limit) where
  opened_for-routed :
      (r : Transfer) (rs : List Transfer) (t : TransfersTable)
      → Spans lo hi r rs
      → any_of (λ q. not (routed (opened_for (r ∷ rs) t).partitions q)) (r ∷ rs) ≡ false
  unfolding opened_for
  opened_for-routed r rs t s =
      let le : s.least ≤ s.greatest = s.le_all in
      let top : s.greatest ≤ hi = s.le_hi in
      rw (s.min_eq, s.max_eq)
        (routed-All s.least s.greatest (s.least / block_partition_size)
          (suc (s.greatest / block_partition_size) - s.least / block_partition_size) t (r ∷ rs)
          (omega arith) (omega arith) (omega arith) s.within)

  module _ (name : TransfersName) where
    ensure-opened :
        (a b : ℕ) (h : Host)
        → a ≤ b
        → b ≤ hi
        → All IsAligned (transfers_of name h.database).partitions
        → Ends (ensure_partitions_for_range_tx reliable name (pos a) (pos b) h) tt (
            with_transfers name
              (opened
                (suc (b / block_partition_size) - a / block_partition_size)
                (a / block_partition_size)
                (transfers_of name h.database))
              h.database)
    unfolding ensure_partitions_for_range_tx partition_start_of partition_rounds
    ensure-opened a b h le top al =
        create_partitions-opened name
          (partition_rounds (partition_start_of (pos a)) (partition_start_of (pos b)))
          (suc (b / block_partition_size) - a / block_partition_size) (a / block_partition_size)
          (b / block_partition_size) h (omega arith) (omega arith) (omega arith) al

    insert_some :
        (r : Transfer) (rs : List Transfer) (h : Host)
        → All IsAligned (transfers_of name h.database).partitions
        → Spans lo hi r rs
        → Ends
            (insert_transfers_into_tx reliable name (r ∷ rs) h)
            (insert_missing (r ∷ rs) (transfers_of name h.database).rows).0
            (with_transfers name (stored (r ∷ rs) (transfers_of name h.database)) h.database)
    unfolding insert_transfers_into_tx stored
    insert_some r rs h al s =
        Ends-bind (ensure_partitions_for_range_tx reliable name (min_block r rs) (max_block r rs))
          (λ _.
            execute reliable
              (λ db. store_transfers name db (insert_transfers (r ∷ rs) (transfers_of name db))))
          h tt _ (with_transfers name t h.database) _
          (rw (s.min_eq, s.max_eq) (ensure-opened s.least s.greatest h s.le_all s.le_hi al))
          (λ h' e. Ends-execute _ h' _ _ (
            insert-store name (r ∷ rs) t (transfers_of name h.database).rows h.database h'.database
              e (rows-opened _ _ (transfers_of name h.database)) (opened_for-routed r rs _ s)))
      where
        t : TransfersTable
        t = opened_for (r ∷ rs) (transfers_of name h.database)

    -- The rows go in, and no error is possible but a refusal of the server.
    pub insert_transfers_into_tx-stored :
        (rs : List Transfer) (h : Host)
        → All (Within lo hi) rs
        → All IsAligned (transfers_of name h.database).partitions
        → Ends
            (insert_transfers_into_tx reliable name rs h)
            (insert_missing rs (transfers_of name h.database).rows).0
            (with_transfers name (stored rs (transfers_of name h.database)) h.database)
    unfolding insert_transfers_into_tx stored insert_missing
    insert_transfers_into_tx-stored [] h w al =
        rw (with_transfers-transfers_of name h.database) (Ends-pure 0 h)
    insert_transfers_into_tx-stored (r ∷ rs) h w al = insert_some r rs h al (spans lo hi r rs w)

-- The partitions stay aligned.
pub stored-IsAligned :
    (lo hi : ℕ) (rs : List Transfer) (t : TransfersTable)
    → hi + 2 * block_partition_size < i64_limit
    → All (Within lo hi) rs
    → All IsAligned t.partitions
    → All IsAligned (stored rs t).partitions
unfolding stored
stored-IsAligned lo hi [] t room w al = al
stored-IsAligned lo hi (r ∷ rs) t room w al =
    let s = spans lo hi r rs w in
    let le : s.least ≤ s.greatest = s.le_all in
    let top : s.greatest ≤ hi = s.le_hi in
    rw (s.min_eq, s.max_eq) (opened-IsAligned _ _ t (omega arith) al)

pub rows-stored :
    (rs : List Transfer) (t : TransfersTable) → (stored rs t).rows ≡ (insert_missing rs t.rows).1
unfolding stored
rows-stored rs t = refl
