-- ===== src/Ingestion/Payload.antt =====
-- crates/ingestion/src/lib.rs, lines 30 to 45 and 384 to 441: the records of a range of blocks.
use rust_ethereum_indexer.Prelude.{
  ℕ, ◌-◌, ◌%◌, ◌^◌, Option, none, some, List, [], ◌∷◌, ◌++◌, Bytes, bytes_eq, length, ◌==◌, ltb,
  if◌then◌else◌, map, any_of, ℤ, pos, negsuc, as_i64, Result, ok, missing_field,
}
use rust_ethereum_indexer.Prelude.Results.{◌>>=◌, ok_or}
use rust_ethereum_indexer.Storage.Tables.{Transfer}
use rust_ethereum_indexer.Decoder.{Log, Erc20TransferEvent, decode_erc20_transfer}
use rust_ethereum_indexer.Rpc.Client.{BlockMetadata}

pub record RangePayload : Type 0 where
  pub transfer_records : List Transfer
  pub indexed_blocks : List (ℕ × Bytes)
  pub block_metadata : List BlockMetadata
  pub tx_count : ℕ

-- `HashMap::get` on a map that is collected from pairs: of equal keys the last one counts.
unfoldable pub get_collected {ℓ} : {A : Type ℓ} → ℕ → List (ℕ × A) → Option A
get_collected k [] = none
get_collected k ((j, a) ∷ rest) = elim (get_collected k rest) [
  | some b ↦ some b
  | none ↦ if j == k then some a else none
]

-- `HashSet::insert`
unfoldable pub insert_hash : List Bytes → Bytes → List Bytes
insert_hash seen hash = if any_of (bytes_eq hash) seen then seen else hash ∷ seen

-- `n as i32` on a `u64`: the low 32 bits, read in two's complement.
unfoldable pub as_i32 : ℕ → ℤ
as_i32 n = let m = n % 2 ^ 32 in if ltb m (2 ^ 31) then pos m else negsuc (2 ^ 32 - 1 - m)

abbrev pub block_hashes : List BlockMetadata → List (ℕ × Bytes)
block_hashes = map (λ b. (b.number, b.hash))

abbrev pub block_timestamps : List BlockMetadata → List (ℕ × ℤ)
block_timestamps = map (λ b. (b.number, as_i64 b.timestamp))

-- `Erc20TransferRecord { … }`, its fields in the order in which the code computes them. The text
-- of a U256 reads back as the same `BigDecimal`.
unfoldable pub transfer_record :
    List BlockMetadata → Log → ℕ → Bytes → Erc20TransferEvent → Result Transfer
transfer_record blocks log block_number txn_hash event = do
  block_hash ← ok_or (get_collected block_number (block_hashes blocks)) (missing_field "block_hash")
  log_index ← ok_or log.log_index (missing_field "log_index")
  timestamp ←
      ok_or (get_collected block_number (block_timestamps blocks)) (missing_field "timestamp")
  ok (record {
    block_number = as_i64 block_number;
    block_hash = block_hash;
    txn_hash = txn_hash;
    log_index = as_i32 log_index;
    contract_address = log.address;
    from_address = event.from;
    to_address = event.to;
    value = event.value;
    timestamp = timestamp;
  })

-- What the loop over the logs has gathered: `transfer_records` and `unique_transactions`.
pub record Gathered : Type 0 where
  pub records : List Transfer
  pub unique_transactions : List Bytes

-- The body of `if let Some(erc20_transfer_event) = decode_erc20_transfer(&log)`
unfoldable pub gather_event :
    List BlockMetadata → Log → ℕ → Gathered → Option Erc20TransferEvent → Result Gathered
gather_event blocks log block_number g none = ok g
gather_event blocks log block_number g (some event) = do
  txn_hash ← ok_or log.transaction_hash (missing_field "transaction_hash")
  r ← transfer_record blocks log block_number txn_hash event
  ok (record {
    records = g.records ++ r ∷ [];
    unique_transactions = insert_hash g.unique_transactions txn_hash;
  })

unfoldable pub gather_log : List BlockMetadata → Log → Gathered → Result Gathered
gather_log blocks log g = do
  block_number ← ok_or log.block_number (missing_field "block_number")
  gather_event blocks log block_number g (decode_erc20_transfer log)

-- for log in logs { … }
unfoldable pub gather : List BlockMetadata → List Log → Gathered → Result Gathered
gather blocks [] g = ok g
gather blocks (log ∷ logs) g = do g' ← gather_log blocks log g; gather blocks logs g'

abbrev pub indexed_blocks_of : List BlockMetadata → List (ℕ × Bytes)
indexed_blocks_of = map (λ b. (b.number, b.hash))

abbrev pub payload_of : List BlockMetadata → Gathered → RangePayload
payload_of blocks g = record {
  transfer_records = g.records;
  indexed_blocks = indexed_blocks_of blocks;
  block_metadata = blocks;
  tx_count = length g.unique_transactions;
}
