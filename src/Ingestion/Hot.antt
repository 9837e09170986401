-- ===== src/Ingestion/Hot.antt =====
-- The hot lane: what holds of it between two transactions of `run_live`, and that a prune, a
-- rollback and a commit keep it.

use rust_ethereum_indexer.Prelude.{
  All-keep_if, All-map, All-and, keep_if_passes, ℕ, ◌+◌, ◌-◌, ◌*◌, ◌≤◌, ◌<◌, Bool, true, false, not,
  ◌≡◌, refl, sym, ◌∙◌, some, List, Bytes, arith, length, All, ℤ, pos, leb_ℤ, as_i64, as_i64-eq_pos,
  i64_limit, keep_if, Option-cases, inl, inr,
}
use rust_ethereum_indexer.Storage.Tables.{
  Transfer, BlockRow, Database, select_hash, delete_blocks, delete_transfers, upsert_all, repeats,
}
use rust_ethereum_indexer.Storage.Statements.{block_partition_size}
use rust_ethereum_indexer.Storage.Blocks.{
  or_else, select_hash-delete_blocks, select_hash-upsert_all,
}
use rust_ethereum_indexer.Storage.Rows.{
  All-insert_missing, UniqueKeys, insert_missing-UniqueKeys, keep_if-UniqueKeys,
}
use rust_ethereum_indexer.Storage.Partitions.{IsAligned}
use rust_ethereum_indexer.Storage.Inserts.{stored, stored-IsAligned}
use rust_ethereum_indexer.Storage.Ranges.{Within}
use rust_ethereum_indexer.Storage.Effects.{bound_blocks, heated, hot_rolled_back, pruned}
use rust_ethereum_indexer.Rpc.Client.{BlockMetadata}
use rust_ethereum_indexer.Ingestion.Payload.{indexed_blocks_of}
use rust_ethereum_indexer.Ingestion.Gather.{
  FromBlocks, Numbered, get_collected-select_hash, select_hash-within, repeats-Numbered,
}
use rust_ethereum_indexer.Ingestion.Finalized.{Refers}

-- The stored blocks of the hot lane are below `s`.
abbrev pub StoredBelow : ℕ → Database → Type 0
StoredBelow s d =
    (z : ℤ) (h : Bytes)
    → select_hash z d.hot_indexed_blocks ≡ some h
    → (n : ℕ) × (z ≡ pos n) × (n < s)

-- No block beyond the checkpoint is stored, and the checkpoint is not beyond `top`; the transfers
-- refer to stored blocks; the keys are unique.
pub record IsHot (top : ℕ) (db : Database) : Type 0 where
  pub cp : ℕ
  pub checkpoint : db.live_indexer_checkpoint ≡ some (pos cp)
  pub below : cp ≤ top
  pub bounded :
      (z : ℤ) (h : Bytes)
      → select_hash z db.hot_indexed_blocks ≡ some h
      → (n : ℕ) × (z ≡ pos n) × (n ≤ cp)
  pub aligned : All IsAligned db.hot_erc20_transfers.partitions
  pub integrity : All (Refers db.hot_indexed_blocks) db.hot_erc20_transfers.rows
  pub unique : UniqueKeys db.hot_erc20_transfers.rows

-- Deleting by one test from both tables keeps the references.
module _ (test : ℤ → Bool) (blocks : List BlockRow) where
  Refers-delete :
      (r : Transfer)
      → Refers blocks r × (not (test r.block_number) ≡ true)
      → Refers (delete_blocks test blocks) r
  Refers-delete r h = ground (arith, h.0, h.1, select_hash-delete_blocks test r.block_number blocks)

  pub deleted-Refers :
      (rows : List Transfer)
      → All (Refers blocks) rows
      → All (Refers (delete_blocks test blocks)) (keep_if (λ r. not (test r.block_number)) rows)
  deleted-Refers rows h =
      All-map _ _ (keep_if _ rows) Refers-delete
        (All-and _ _ _ (All-keep_if _ _ rows h) (keep_if_passes _ rows))

  pub kept_by :
      (z : ℤ) (h : Bytes)
      → select_hash z (delete_blocks test blocks) ≡ some h
      → (select_hash z blocks ≡ some h) × (test z ≡ false)
  kept_by z h found = ground (arith, found, select_hash-delete_blocks test z blocks)

module _ (top : ℕ) (room : top + 2 * block_partition_size < i64_limit) where
  module _ (n : ℕ) (db : Database) (inv : IsHot top db) where
    pub pruned-IsHot : IsHot top (pruned n db)
    unfolding pruned delete_transfers
    pruned-IsHot = record {
      cp = inv.cp;
      checkpoint = inv.checkpoint;
      below = inv.below;
      bounded = λ z h found. inv.bounded z h (kept_by _ db.hot_indexed_blocks z h found).0;
      aligned = inv.aligned;
      integrity = deleted-Refers _ db.hot_indexed_blocks db.hot_erc20_transfers.rows inv.integrity;
      unique = keep_if-UniqueKeys _ db.hot_erc20_transfers.rows inv.unique;
    }

    lower :
        (z : ℤ)
        → n ≤ top
        → ((m : ℕ) × (z ≡ pos m) × (m ≤ inv.cp))
        → leb_ℤ (as_i64 n) z ≡ false
        → (m : ℕ) × (z ≡ pos m) × (m ≤ n - 1)
    lower z small (m, at, hi) h = (m, at, ground (arith, as_i64-eq_pos n (omega arith)))

    pub hot_rolled_back-IsHot : n ≤ top → IsHot top (hot_rolled_back n db)
    unfolding hot_rolled_back delete_transfers
    hot_rolled_back-IsHot small = record {
      cp = n - 1;
      checkpoint = rw (inv.checkpoint, as_i64-eq_pos (n - 1) (omega arith)) refl;
      below = omega arith;
      bounded = λ z h found.
          let (kept, early) = kept_by _ db.hot_indexed_blocks z h found in
          lower z small (inv.bounded z h kept) early;
      aligned = inv.aligned;
      integrity = deleted-Refers _ db.hot_indexed_blocks db.hot_erc20_transfers.rows inv.integrity;
      unique = keep_if-UniqueKeys _ db.hot_erc20_transfers.rows inv.unique;
    }

  -- A commit of the blocks from `s` to `c`, beyond the checkpoint.
  module _ (s c : ℕ) (bs : List BlockMetadata) (rs : List Transfer) (db : Database)
      (inv : IsHot top db) (below_s : StoredBelow s db) (s_le_c : s ≤ c) (c_le_top : c ≤ top)
      (numbered : Numbered s bs) (counted : s + length bs ≡ c + 1)
      (from_blocks : All (FromBlocks bs) rs) where
    fits : s + length bs ≤ i64_limit
    fits = omega arith

    abbrev fresh_rows : List BlockRow
    fresh_rows = bound_blocks (indexed_blocks_of bs)

    distinct : repeats fresh_rows ≡ false
    distinct = repeats-Numbered s bs numbered fits

    lookup_after :
        (z : ℤ)
        → select_hash z (upsert_all db.hot_indexed_blocks fresh_rows)
          ≡ or_else (select_hash z fresh_rows) (select_hash z db.hot_indexed_blocks)
    lookup_after z = select_hash-upsert_all z db.hot_indexed_blocks fresh_rows distinct

    record_of :
        (r : Transfer)
        → FromBlocks bs r
        → Within s c r × Refers (upsert_all db.hot_indexed_blocks fresh_rows) r
    record_of r f =
        let (lo, hi, found) =
          get_collected-select_hash s bs f.number r.block_hash numbered fits f.hash_eq in
        let at : r.block_number ≡ pos f.number =
          f.number_eq ∙ as_i64-eq_pos f.number (omega arith) in
        ((f.number, at, lo, omega arith), rw (at, lookup_after (pos f.number), found) refl)

    old_kept :
        (z : ℤ) (h : Bytes)
        → select_hash z db.hot_indexed_blocks ≡ some h
        → select_hash z (upsert_all db.hot_indexed_blocks fresh_rows) ≡ some h
    old_kept z h found =
        let (n, at, hi) = below_s z h found in
        elim (Option-cases (select_hash z fresh_rows)) [
          | inl none_new ↦ rw (lookup_after z, none_new) found
          | inr (h', is_new) ↦
              let (m, at', lo', hi') = select_hash-within s bs z h' numbered fits is_new in
              absurd (same_number n m (sym at ∙ at') (omega arith))
        ]
      where
        same_number : (n m : ℕ) → pos n ≡ pos m → n < m → ⊥
        same_number n m e lt = ground arith

    bounded_after :
        (z : ℤ) (h : Bytes)
        → select_hash z (upsert_all db.hot_indexed_blocks fresh_rows) ≡ some h
        → (n : ℕ) × (z ≡ pos n) × (n ≤ c)
    bounded_after z h found = elim (Option-cases (select_hash z fresh_rows)) [
      | inl none_new ↦
          let (n, at, hi) = below_s z h (ground (arith, lookup_after z)) in (n, at, omega arith)
      | inr (h', is_new) ↦
          let (m, at, lo, hi) = select_hash-within s bs z h' numbered fits is_new in
          (m, at, omega arith)
    ]

    pub hot-Within : All (Within s c) rs
    hot-Within = All-map (FromBlocks bs) (Within s c) rs (λ r f. (record_of r f).0) from_blocks

    pub heated-IsHot : IsHot top (heated rs (indexed_blocks_of bs) c db)
    unfolding heated stored
    heated-IsHot = record {
      cp = c;
      checkpoint = rw (inv.checkpoint, as_i64-eq_pos c (omega arith)) refl;
      below = c_le_top;
      bounded = bounded_after;
      aligned = stored-IsAligned s c rs db.hot_erc20_transfers (omega arith) hot-Within inv.aligned;
      integrity =
          All-insert_missing _ rs db.hot_erc20_transfers.rows
            (All-map (FromBlocks bs) _ rs (λ r f. (record_of r f).1) from_blocks)
            (All-map _ _ db.hot_erc20_transfers.rows (λ r h. old_kept r.block_number r.block_hash h)
              inv.integrity);
      unique = insert_missing-UniqueKeys rs db.hot_erc20_transfers.rows inv.unique;
    }
