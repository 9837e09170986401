-- ===== src/Storage/Tables.antt =====
-- crates/storage/src/models.rs and migrations/*.sql: the rows, the tables with their primary keys
-- and partitions, and what one SQL statement of the crate does to them.
use rust_ethereum_indexer.Prelude.{
  ℕ, suc, Bool, true, false, ◌&&◌, ◌||◌, not, Option, none, some, List, [], ◌∷◌, Bytes, bytes_eq, ℤ,
  pos, ◌==ℤ◌, leb_ℤ, ltb_ℤ, if◌then◌else◌, keep_if, any_of, Result, ok, err, no_partition,
  second_update, invalid_statement,
}

-- `Erc20TransferRecord`, and a row of either transfers table
pub record Transfer : Type 0 where
  pub block_number : ℤ
  pub block_hash : Bytes
  pub txn_hash : Bytes
  pub log_index : ℤ
  pub contract_address : Bytes
  pub from_address : Bytes
  pub to_address : Bytes
  pub value : ℕ
  pub timestamp : ℤ

-- FOR VALUES FROM (start) TO (stop)
pub record Partition : Type 0 where
  pub start : ℤ
  pub stop : ℤ

pub record TransfersTable : Type 0 where
  pub partitions : List Partition
  pub rows : List Transfer

-- (block_number, block_hash)
abbrev pub BlockRow : Type 0
BlockRow = ℤ × Bytes

-- A checkpoint table holds its row `id = 1`, or no such row.
pub record Database : Type 0 where
  pub erc20_transfers : TransfersTable
  pub indexed_blocks : List BlockRow
  pub indexer_checkpoint : Option ℤ
  pub hot_erc20_transfers : TransfersTable
  pub hot_indexed_blocks : List BlockRow
  pub live_indexer_checkpoint : Option ℤ

-- The database that the migrations leave.
abbrev pub migrated : Database
migrated = record {
  erc20_transfers = record { partitions = []; rows = [] };
  indexed_blocks = [];
  indexer_checkpoint = some (pos 0);
  hot_erc20_transfers = record { partitions = []; rows = [] };
  hot_indexed_blocks = [];
  live_indexer_checkpoint = some (pos 0);
}

pub data TransfersName : Type 0 where
  cold_transfers_table hot_transfers_table : TransfersName

pub data BlocksName : Type 0 where
  cold_blocks_table hot_blocks_table : BlocksName

abbrev pub transfers_of : TransfersName → Database → TransfersTable
transfers_of cold_transfers_table db = db.erc20_transfers
transfers_of hot_transfers_table db = db.hot_erc20_transfers

abbrev pub blocks_of : BlocksName → Database → List BlockRow
blocks_of cold_blocks_table db = db.indexed_blocks
blocks_of hot_blocks_table db = db.hot_indexed_blocks

abbrev pub with_transfers : TransfersName → TransfersTable → Database → Database
with_transfers cold_transfers_table t db = record db { erc20_transfers = t }
with_transfers hot_transfers_table t db = record db { hot_erc20_transfers = t }

abbrev pub with_blocks : BlocksName → List BlockRow → Database → Database
with_blocks cold_blocks_table t db = record db { indexed_blocks = t }
with_blocks hot_blocks_table t db = record db { hot_indexed_blocks = t }

-- DELETE FROM a transfers table WHERE a test on block_number
unfoldable pub delete_transfers : (ℤ → Bool) → TransfersTable → TransfersTable
delete_transfers test t = record t { rows = keep_if (λ r. not (test r.block_number)) t.rows }

-- DELETE FROM a blocks table WHERE a test on block_number
unfoldable pub delete_blocks : (ℤ → Bool) → List BlockRow → List BlockRow
delete_blocks test = keep_if (λ r. not (test r.0))

-- PRIMARY KEY (txn_hash, log_index, block_number)
unfoldable pub same_key : Transfer → Transfer → Bool
same_key a b =
    bytes_eq a.txn_hash b.txn_hash
    && a.log_index ==ℤ b.log_index
    && a.block_number ==ℤ b.block_number

unfoldable pub has_key : Transfer → List Transfer → Bool
unfolding same_key
has_key r rows = any_of (same_key r) rows

unfoldable pub in_partition : ℤ → Partition → Bool
in_partition z p = leb_ℤ p.start z && ltb_ℤ z p.stop

unfoldable pub routed : List Partition → Transfer → Bool
unfolding in_partition
routed ps r = any_of (in_partition r.block_number) ps

-- ON CONFLICT (txn_hash, log_index, block_number) DO NOTHING: the rows afterwards, and how many of
-- the given ones are new.
unfoldable pub insert_missing : List Transfer → List Transfer → ℕ × List Transfer
insert_missing [] rows = (0, rows)
insert_missing (r ∷ rs) rows = elim (has_key r rows) [
  | true ↦ insert_missing rs rows
  | false ↦ let (n, rows') = insert_missing rs (r ∷ rows) in (suc n, rows')
]

-- INSERT INTO a transfers table; a row that no partition holds is an error.
unfoldable pub insert_transfers : List Transfer → TransfersTable → Result (ℕ × TransfersTable)
insert_transfers rs t =
    let (n, rows) = insert_missing rs t.rows in
    if any_of (λ r. not (routed t.partitions r)) rs
    then err no_partition
    else ok (n, record t { rows = rows })

-- SELECT block_hash … WHERE block_number = $1, `fetch_optional`
unfoldable pub select_hash : ℤ → List BlockRow → Option Bytes
select_hash z [] = none
select_hash z ((n, hash) ∷ rows) = if n ==ℤ z then some hash else select_hash z rows

unfoldable pub upsert : List BlockRow → ℤ → Bytes → List BlockRow
upsert [] z hash = (z, hash) ∷ []
upsert ((n, old) ∷ rows) z hash =
    let rest = upsert rows z hash in if n ==ℤ z then (n, hash) ∷ rows else (n, old) ∷ rest

unfoldable pub upsert_all : List BlockRow → List BlockRow → List BlockRow
upsert_all rows [] = rows
upsert_all rows ((z, hash) ∷ more) = upsert_all (upsert rows z hash) more

-- Does one command name a block twice? ON CONFLICT DO UPDATE refuses that.
unfoldable pub repeats : List BlockRow → Bool
repeats [] = false
repeats ((z, _) ∷ more) = any_of (λ r. r.0 ==ℤ z) more || repeats more

-- INSERT INTO a blocks table … ON CONFLICT (block_number) DO UPDATE SET block_hash
unfoldable pub insert_blocks : List BlockRow → List BlockRow → Result (List BlockRow)
insert_blocks new rows = if repeats new then err second_update else ok (upsert_all rows new)

-- The name `{table}_p{start}_{stop}` determines the bounds; two partitions must not overlap.
unfoldable pub same_bounds : Partition → Partition → Bool
same_bounds p q = p.start ==ℤ q.start && p.stop ==ℤ q.stop

unfoldable pub overlaps : Partition → Partition → Bool
overlaps p q = ltb_ℤ p.start q.stop && ltb_ℤ q.start p.stop

-- CREATE TABLE IF NOT EXISTS … PARTITION OF … FOR VALUES FROM (start) TO (stop). A minus sign makes
-- the unquoted name a syntax error.
unfoldable pub create_partition : Partition → TransfersTable → Result TransfersTable
unfolding same_bounds overlaps
create_partition p t =
    if ltb_ℤ p.start (pos 0) || ltb_ℤ p.stop (pos 0)
    then err invalid_statement
    else if any_of (same_bounds p) t.partitions
    then ok t
    else if leb_ℤ p.stop p.start || any_of (overlaps p) t.partitions
    then err invalid_statement
    else ok (record t { partitions = p ∷ t.partitions })
