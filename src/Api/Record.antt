-- ===== src/Api/Record.antt =====
-- crates/api/src/schema.rs, lines 11 to 23, 213 to 227 and 271 to 289: a row as the API prints it.
use rust_ethereum_indexer.Prelude.{
  ℕ, ◌+◌, ◌/◌, ◌%◌, [], ◌∷◌, Bytes, Text, length, ltb, ◌==◌, if◌then◌else◌, ℤ, Result, ok, err,
  rejected,
}
use rust_ethereum_indexer.Prelude.Results.{◌>>=◌}
use rust_ethereum_indexer.Storage.Tables.{Transfer}

-- `Erc20TransferEventRecord`
pub record EventRecord : Type 0 where
  pub block_number : ℤ
  pub block_hash : Text
  pub txn_hash : Text
  pub log_index : ℤ
  pub contract_address : Text
  pub from_address : Text
  pub to_address : Text
  pub value : Text
  pub timestamp : ℤ

abbrev pub hex_digit : ℕ → ℕ
hex_digit n = if ltb n 10 then b'0' + n else 87 + n

-- `{byte:02x}`, for each byte
abbrev pub hex_bytes : Bytes → Text
hex_bytes [] = []
hex_bytes (b ∷ bs) = hex_digit (b / 16) ∷ hex_digit (b % 16) ∷ hex_bytes bs

-- `fixed_hex`: alloy's `{:#x}` of fixed bytes
module _ (fixed_hex : Bytes → Text) where
  -- `Address::from_slice` panics where the bytes are not 20; this ends the request, like an error.
  unfoldable pub format_address : Bytes → Result Text
  format_address bytes =
      if length bytes == 20 then ok (fixed_hex bytes) else err (rejected "slice length is not 20")

  unfoldable pub format_hash : Bytes → Text
  format_hash bytes = if length bytes == 32 then fixed_hex bytes else b'0' ∷ b'x' ∷ hex_bytes bytes

  -- `Erc20TransferEventRecord::from`; `numeric_text` is PostgreSQL's text of a NUMERIC.
  unfoldable pub record_of : (ℕ → Text) → Transfer → Result EventRecord
  unfolding format_hash format_address
  record_of numeric_text row = do
    contract_address ← format_address row.contract_address
    from_address ← format_address row.from_address
    to_address ← format_address row.to_address
    ok (record {
      block_number = row.block_number;
      block_hash = format_hash row.block_hash;
      txn_hash = format_hash row.txn_hash;
      log_index = row.log_index;
      contract_address = contract_address;
      from_address = from_address;
      to_address = to_address;
      value = numeric_text row.value;
      timestamp = row.timestamp;
    })
