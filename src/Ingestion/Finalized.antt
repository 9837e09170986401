-- ===== src/Ingestion/Finalized.antt =====
-- The finalized lane: what holds of the database between two transactions of `run_backfill`, and
-- that a rollback and a commit keep it.

use native.Mathlib.Decide.{dec_lt}
use rust_ethereum_indexer.Prelude.{
  All-keep_if, All-map, All-and, keep_if_passes, ℕ, ◌+◌, ◌-◌, ◌*◌, ◌≤◌, ◌<◌, max, true, false, not,
  ◌≡◌, refl, sym, ◌∙◌, some, List, Bytes, arith, length, All, ℤ, pos, leb_ℤ, as_i64, as_i64-eq_pos,
  i64_limit, keep_if, Option-cases, inl, inr,
}
use rust_ethereum_indexer.Storage.Tables.{
  Transfer, BlockRow, Database, select_hash, delete_blocks, delete_transfers, upsert_all, repeats,
}
use rust_ethereum_indexer.Storage.Statements.{block_partition_size}
use rust_ethereum_indexer.Storage.Blocks.{
  or_else, select_hash-delete_blocks, select_hash-upsert_all,
}
use rust_ethereum_indexer.Storage.Rows.{
  All-insert_missing, UniqueKeys, insert_missing-UniqueKeys, keep_if-UniqueKeys,
}
use rust_ethereum_indexer.Storage.Partitions.{IsAligned}
use rust_ethereum_indexer.Storage.Inserts.{stored, stored-IsAligned}
use rust_ethereum_indexer.Storage.Ranges.{Within}
use rust_ethereum_indexer.Storage.Effects.{bound_blocks, finalized, rolled_back}
use rust_ethereum_indexer.Rpc.Client.{BlockMetadata}
use rust_ethereum_indexer.Ingestion.Payload.{indexed_blocks_of}
use rust_ethereum_indexer.Ingestion.Gather.{
  FromBlocks, Numbered, get_collected-select_hash, select_hash-within, select_hash-stored,
  repeats-Numbered,
}

-- Each row names a block of the table, under the hash that the table has for it.
abbrev pub Refers : List BlockRow → Transfer → Type 0
Refers blocks r = select_hash r.block_number blocks ≡ some r.block_hash

-- The blocks from `start` to the checkpoint are stored, and no others; the checkpoint is not
-- beyond `top`; the transfers refer to stored blocks; the keys are unique.
pub record IsFinalized (start top : ℕ) (db : Database) : Type 0 where
  pub cp : ℕ
  pub checkpoint : db.indexer_checkpoint ≡ some (pos cp)
  pub below : cp ≤ top
  pub stored_all :
      (n : ℕ) → start ≤ n → n ≤ cp → (h : Bytes) × (select_hash (pos n) db.indexed_blocks ≡ some h)
  pub bounded :
      (z : ℤ) (h : Bytes)
      → select_hash z db.indexed_blocks ≡ some h
      → (n : ℕ) × (z ≡ pos n) × (start ≤ n) × (n ≤ cp)
  pub aligned : All IsAligned db.erc20_transfers.partitions
  pub integrity : All (Refers db.indexed_blocks) db.erc20_transfers.rows
  pub unique : UniqueKeys db.erc20_transfers.rows

module _ (start top : ℕ) (room : top + 2 * block_partition_size < i64_limit) where
  module _ (n : ℕ) (db : Database) (inv : IsFinalized start top db) (at_most : n ≤ inv.cp) where
    cut : (z : ℤ) → leb_ℤ (as_i64 n) z ≡ leb_ℤ (pos n) z
    cut z = let b : inv.cp ≤ top = inv.below in rw (as_i64-eq_pos n (omega arith)) refl

    Refers-rolled_back :
        (r : Transfer)
        → Refers db.indexed_blocks r × (not (leb_ℤ (as_i64 n) r.block_number) ≡ true)
        → Refers (delete_blocks (leb_ℤ (as_i64 n)) db.indexed_blocks) r
    Refers-rolled_back r h = ground (
      arith,
      h.0,
      h.1,
      select_hash-delete_blocks (leb_ℤ (as_i64 n)) r.block_number db.indexed_blocks,
    )

    pub survives :
        (z : ℤ) (h : Bytes)
        → select_hash z (delete_blocks (leb_ℤ (as_i64 n)) db.indexed_blocks) ≡ some h
        → (select_hash z db.indexed_blocks ≡ some h) × (leb_ℤ (pos n) z ≡ false)
    survives z h found =
        ground
          (arith, found, cut z, select_hash-delete_blocks (leb_ℤ (as_i64 n)) z db.indexed_blocks)

    lower :
        (z : ℤ)
        → ((m : ℕ) × (z ≡ pos m) × (start ≤ m) × (m ≤ inv.cp))
        → leb_ℤ (pos n) z ≡ false
        → (m : ℕ) × (z ≡ pos m) × (start ≤ m) × (m ≤ n - 1)
    lower z (m, at, lo, hi) h = (m, at, lo, ground arith)

    -- A rollback from a block that the checkpoint has reached.
    pub rolled_back-IsFinalized : 0 < n → start ≤ n → IsFinalized start top (rolled_back n db)
    unfolding rolled_back delete_transfers
    rolled_back-IsFinalized positive from = record {
      cp = n - 1;
      checkpoint = rw (inv.checkpoint, as_i64-eq_pos (n - 1) (omega (arith, inv.below))) refl;
      below = omega (arith, inv.below);
      stored_all = λ m lo hi.
          let (h, found) = inv.stored_all m lo (omega arith) in
          (
            h,
            ground (
              arith,
              found,
              cut (pos m),
              select_hash-delete_blocks (leb_ℤ (as_i64 n)) (pos m) db.indexed_blocks,
            ),
          );
      bounded = λ z h found.
          let (kept, early) = survives z h found in lower z (inv.bounded z h kept) early;
      aligned = inv.aligned;
      integrity = All-map _ _ (keep_if _ db.erc20_transfers.rows) Refers-rolled_back (
          All-and _ _ _ (All-keep_if _ _ db.erc20_transfers.rows inv.integrity)
            (keep_if_passes _ db.erc20_transfers.rows));
      unique = keep_if-UniqueKeys _ db.erc20_transfers.rows inv.unique;
    }

  -- A commit of the blocks from `s` to `c`, right after the checkpoint.
  module _ (s c : ℕ) (bs : List BlockMetadata) (rs : List Transfer) (db : Database)
      (inv : IsFinalized start top db) (next : s ≡ max (inv.cp + 1) start) (s_le_c : s ≤ c)
      (c_le_top : c ≤ top) (numbered : Numbered s bs) (counted : s + length bs ≡ c + 1)
      (from_blocks : All (FromBlocks bs) rs) where
    fits : s + length bs ≤ i64_limit
    fits = omega arith

    abbrev new : List BlockRow
    new = bound_blocks (indexed_blocks_of bs)

    distinct : repeats new ≡ false
    distinct = repeats-Numbered s bs numbered fits

    lookup_after :
        (z : ℤ)
        → select_hash z (upsert_all db.indexed_blocks new)
          ≡ or_else (select_hash z new) (select_hash z db.indexed_blocks)
    lookup_after z = select_hash-upsert_all z db.indexed_blocks new distinct

    -- A row of the payload lies in the range and refers to a new block.
    record_of :
        (r : Transfer)
        → FromBlocks bs r
        → Within s c r × Refers (upsert_all db.indexed_blocks new) r
    record_of r f =
        let (lo, hi, found) =
          get_collected-select_hash s bs f.number r.block_hash numbered fits f.hash_eq in
        let at : r.block_number ≡ pos f.number =
          f.number_eq ∙ as_i64-eq_pos f.number (omega arith) in
        ((f.number, at, lo, omega arith), rw (at, lookup_after (pos f.number), found) refl)

    -- A block that was stored is below the new ones.
    old_kept :
        (z : ℤ) (h : Bytes)
        → select_hash z db.indexed_blocks ≡ some h
        → select_hash z (upsert_all db.indexed_blocks new) ≡ some h
    old_kept z h found =
        let (n, at, lo, hi) = inv.bounded z h found in
        elim (Option-cases (select_hash z new)) [
          | inl none_new ↦ rw (lookup_after z, none_new) found
          | inr (h', is_new) ↦
              let (m, at', lo', hi') = select_hash-within s bs z h' numbered fits is_new in
              absurd (same_number n m (sym at ∙ at') (omega arith))
        ]
      where
        same_number : (n m : ℕ) → pos n ≡ pos m → n < m → ⊥
        same_number n m e lt = ground arith

    stored_after :
        (n : ℕ)
        → start ≤ n
        → n ≤ c
        → (h : Bytes) × (select_hash (pos n) (upsert_all db.indexed_blocks new) ≡ some h)
    stored_after n lo hi = elim (dec_lt n s) [
      | yes before ↦
          let (h, found) = inv.stored_all n lo (omega arith) in (h, old_kept (pos n) h found)
      | no after ↦
          let (h, found) = select_hash-stored s bs n numbered fits (omega arith) (omega arith) in
          (h, rw (lookup_after (pos n), found) refl)
    ]

    bounded_after :
        (z : ℤ) (h : Bytes)
        → select_hash z (upsert_all db.indexed_blocks new) ≡ some h
        → (n : ℕ) × (z ≡ pos n) × (start ≤ n) × (n ≤ c)
    bounded_after z h found = elim (Option-cases (select_hash z new)) [
      | inl none_new ↦
          let (n, at, lo, hi) = inv.bounded z h (ground (arith, lookup_after z)) in
          (n, at, lo, omega arith)
      | inr (h', is_new) ↦
          let (m, at, lo, hi) = select_hash-within s bs z h' numbered fits is_new in
          (m, at, omega arith, omega arith)
    ]

    pub records-Within : All (Within s c) rs
    records-Within = All-map (FromBlocks bs) (Within s c) rs (λ r f. (record_of r f).0) from_blocks

    pub finalized-IsFinalized : IsFinalized start top (finalized rs (indexed_blocks_of bs) s c db)
    unfolding finalized stored
    finalized-IsFinalized = record {
      cp = c;
      checkpoint = rw (inv.checkpoint, as_i64-eq_pos c (omega arith)) refl;
      below = c_le_top;
      stored_all = stored_after;
      bounded = bounded_after;
      aligned = stored-IsAligned s c rs db.erc20_transfers (omega arith) records-Within inv.aligned;
      integrity =
          All-insert_missing _ rs db.erc20_transfers.rows
            (All-map (FromBlocks bs) _ rs (λ r f. (record_of r f).1) from_blocks)
            (All-map _ _ db.erc20_transfers.rows (λ r h. old_kept r.block_number r.block_hash h)
              inv.integrity);
      unique = insert_missing-UniqueKeys rs db.erc20_transfers.rows inv.unique;
    }
