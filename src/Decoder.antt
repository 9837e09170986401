-- ===== src/Decoder.antt =====
-- crates/decoder/src/lib.rs: the ERC-20 Transfer event of a log.
pub mod Roundtrip
use rust_ethereum_indexer.Prelude.{
  ℕ, zero, suc, ◌+◌, ◌*◌, Bool, true, false, not, Option, none, some, List, [], ◌∷◌, Bytes,
  bytes_eq, length, ◌==◌, if◌then◌else◌, drop,
}

-- alloy's `Log`, as far as the program reads it; a topic is a `B256`.
pub record Log : Type 0 where
  pub topics : List Bytes
  pub payload : Bytes
  pub address : Bytes
  pub block_number : Option ℕ
  pub transaction_hash : Option Bytes
  pub log_index : Option ℕ

pub record Erc20TransferEvent : Type 0 where
  pub from : Bytes
  pub to : Bytes
  pub value : ℕ

abbrev pub erc20_transfer_event_signature : Bytes
erc20_transfer_event_signature =
    0xdd ∷ 0xf2 ∷ 0x52 ∷ 0xad ∷ 0x1b ∷ 0xe2 ∷ 0xc8 ∷ 0x9b ∷ 0x69 ∷ 0xc2 ∷ 0xb0 ∷ 0x68 ∷ 0xfc ∷ 0x37
    ∷ 0x8d ∷ 0xaa ∷ 0x95 ∷ 0x2b ∷ 0xa7 ∷ 0xf1 ∷ 0x63 ∷ 0xc4 ∷ 0xa1 ∷ 0x16 ∷ 0x28 ∷ 0xf5 ∷ 0x5a
    ∷ 0x4d ∷ 0xf5 ∷ 0x23 ∷ 0xb3 ∷ 0xef ∷ []

-- `U256::from_be_slice`
unfoldable pub from_be : ℕ → Bytes → ℕ
from_be acc [] = acc
from_be acc (b ∷ bs) = from_be (acc * 256 + b) bs

unfoldable pub decode_topics : List Bytes → Bytes → Option Erc20TransferEvent
unfolding from_be
decode_topics (signature ∷ from ∷ to ∷ []) payload =
    if not (length payload == 32)
    then none
    else if not (bytes_eq signature erc20_transfer_event_signature)
    then none
    else some (record { from = drop 12 from; to = drop 12 to; value = from_be 0 payload })
decode_topics _ payload = none

-- The test on the number of topics is the pattern.
unfoldable pub decode_erc20_transfer : Log → Option Erc20TransferEvent
unfolding decode_topics
decode_erc20_transfer log = decode_topics log.topics log.payload
