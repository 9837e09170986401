-- ===== src/Ingestion/ChainLogs.antt =====
-- The transfers of a chain, described without the code: the row that belongs to a log, and what a
-- provider reports that serves one chain.
use rust_ethereum_indexer.Prelude.{
  ℕ, ◌≤◌, ◌<◌, ◌^◌, ◌≡◌, refl, none, some, List, [], ◌∷◌, Bytes, pos, as_i64, ok, In,
}
use rust_ethereum_indexer.Storage.Tables.{Transfer, BlockRow, select_hash}
use rust_ethereum_indexer.Decoder.{Log, Erc20TransferEvent, decode_erc20_transfer}
use rust_ethereum_indexer.World.{Services, Header, Filter}
use rust_ethereum_indexer.Rpc.Client.{transfer_filter}
use rust_ethereum_indexer.Ingestion.Payload.{as_i32}
use rust_ethereum_indexer.Ingestion.Engine.{BackfillEngine, address_filter}

-- The filter asks for the logs from block `s` to block `c` whose first topic is the Keccak-256 hash
-- of `Transfer(address,address,uint256)`: those of the contract that the settings name, and of all
-- contracts where they name none.
pub record AsksFor (e : BackfillEngine) (s c : ℕ) (f : Filter) : Type 0 where
  pub event :
      f.event_signature
      ≡ 0xdd ∷ 0xf2 ∷ 0x52 ∷ 0xad ∷ 0x1b ∷ 0xe2 ∷ 0xc8 ∷ 0x9b ∷ 0x69 ∷ 0xc2 ∷ 0xb0 ∷ 0x68 ∷ 0xfc
        ∷ 0x37 ∷ 0x8d ∷ 0xaa ∷ 0x95 ∷ 0x2b ∷ 0xa7 ∷ 0xf1 ∷ 0x63 ∷ 0xc4 ∷ 0xa1 ∷ 0x16 ∷ 0x28 ∷ 0xf5
        ∷ 0x5a ∷ 0x4d ∷ 0xf5 ∷ 0x23 ∷ 0xb3 ∷ 0xef ∷ []
  pub from : f.from_block ≡ s
  pub to : f.to_block ≡ c
  pub any_contract : e.contract_address ≡ [] → f.address ≡ none
  pub one_contract : (b : ℕ) (bs : Bytes) → e.contract_address ≡ b ∷ bs → f.address ≡ some (b ∷ bs)

pub transfer_filter-AsksFor :
    (e : BackfillEngine) (s c : ℕ)
    → AsksFor e s c (transfer_filter s c (address_filter e.contract_address))
transfer_filter-AsksFor e s c = record {
  event = refl;
  from = refl;
  to = refl;
  any_contract = λ h. rw h refl;
  one_contract = λ b bs h. rw h refl;
}

-- `r` is the row of the log, which is one of block `n` with that header.
pub record IsRowOf (header : Header) (n : ℕ) (log : Log) (r : Transfer) : Type 0 where
  pub event : Erc20TransferEvent
  pub decoded : decode_erc20_transfer log ≡ some event
  pub txn_hash : Bytes
  pub transaction_hash : log.transaction_hash ≡ some txn_hash
  pub index : ℕ
  pub log_index : log.log_index ≡ some index
  pub row : r ≡ record {
    block_number = pos n;
    block_hash = header.hash;
    txn_hash = txn_hash;
    log_index = as_i32 index;
    contract_address = log.address;
    from_address = event.from;
    to_address = event.to;
    value = event.value;
    timestamp = as_i64 header.timestamp;
  }

-- `r` is the row of some log of block `n`.
abbrev pub IsTransferAt : (ℕ → Header) → (ℕ → List Log) → ℕ → Transfer → Type 0
IsTransferAt chain logs_of n r = (log : Log) × In log (logs_of n) × IsRowOf (chain n) n log r

-- Up to the block `top` the provider reports the blocks of `chain` and, for such a filter,
-- the logs of `logs_of`, each under the number of its block and an index of its own. It may
-- fail, and order the logs as it likes.
pub record Reports (sv : Services) (e : BackfillEngine) (top : ℕ) (chain : ℕ → Header)
    (logs_of : ℕ → List Log) : Type 0 where
  pub blocks :
      (t n : ℕ) (header : Header)
      → n ≤ top
      → sv.get_block_by_number n t ≡ ok (some header)
      → header ≡ chain n
  pub all_logs :
      (s c : ℕ) (f : Filter) (t : ℕ) (logs : List Log)
      → c ≤ top
      → AsksFor e s c f
      → sv.get_logs f t ≡ ok logs
      → (n : ℕ) (log : Log) → s ≤ n
      → n ≤ c
      → In log (logs_of n)
      → In log logs
  pub only_logs :
      (s c : ℕ) (f : Filter) (t : ℕ) (logs : List Log)
      → c ≤ top
      → AsksFor e s c f
      → sv.get_logs f t ≡ ok logs
      → (log : Log) → In log logs
      → (n : ℕ) × (s ≤ n) × (n ≤ c) × In log (logs_of n)
  pub numbered : (n : ℕ) (log : Log) → In log (logs_of n) → log.block_number ≡ some n
  pub small : (n i : ℕ) (log : Log) → In log (logs_of n) → log.log_index ≡ some i → i < 2 ^ 31
  pub distinct :
      (n i : ℕ) (a b : Log)
      → In a (logs_of n)
      → In b (logs_of n)
      → a.log_index ≡ some i
      → b.log_index ≡ some i
      → a ≡ b

-- The rows of block `n` among these are those of the block's logs.
abbrev pub Exact : (ℕ → Header) → (ℕ → List Log) → ℕ → List Transfer → Type 0
Exact chain logs_of n rows =
    (r : Transfer)
    → (In r rows → r.block_number ≡ pos n → IsTransferAt chain logs_of n r)
      × (IsTransferAt chain logs_of n r → In r rows)

-- So it is, in the two tables of a lane, for each block that is stored under its hash on the chain.
abbrev pub IsFaithful : (ℕ → Header) → (ℕ → List Log) → List BlockRow → List Transfer → Type 0
IsFaithful chain logs_of blocks rows =
    (n : ℕ) → select_hash (pos n) blocks ≡ some (chain n).hash → Exact chain logs_of n rows
