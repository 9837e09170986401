-- ===== src/Rpc/Client.antt =====
-- crates/rpc/src/lib.rs: `RpcClient`. The waits between two attempts are not modelled.
use rust_ethereum_indexer.Prelude.{
  ℕ, zero, suc, ◌+◌, Option, List, Bytes, ltb, if◌then◌else◌, Result, ok, err, rpc, Exec, pure,
  raise, ◌>>=◌, ◌>>◌, true, false,
}
use mathlib.Core.Option
use rust_ethereum_indexer.Observability.Metrics.{record_rpc_result, record_rpc_retry}
use rust_ethereum_indexer.Decoder.{Log, erc20_transfer_event_signature}
use rust_ethereum_indexer.World.{Services, World, Header, Filter, count, ask}

pub record BlockMetadata : Type 0 where
  pub number : ℕ
  pub hash : Bytes
  pub timestamp : ℕ

-- `attempt` has been increased already. A reply that is an error ends the loop once `attempt` is
-- beyond `max_retries`; `retry` is the next round of the loop.
abbrev pub after_attempt : {A : Type 0} → ℕ → ℕ → Exec World A → Result A → Exec World A
after_attempt max_retries attempt retry (ok a) = count (record_rpc_result true) >> pure a
after_attempt max_retries attempt retry (err e) =
    count (record_rpc_result false)
    >> (if ltb max_retries attempt then raise e else count record_rpc_retry >> retry)

-- The reply is a value here, not an exception.
abbrev pub attempt_of : {A : Type 0} → Exec World A → Exec World (Result A)
attempt_of m w = let (r, w') = m w in (ok r, w')

unfoldable pub retry_loop : {A : Type 0} → ℕ → ℕ → ℕ → (ℕ → Result A) → Exec World A
retry_loop zero max_retries attempt operation = raise (rpc 0)
retry_loop (suc fuel) max_retries attempt operation = do
  reply ← attempt_of (ask operation)
  after_attempt max_retries (attempt + 1) (retry_loop fuel max_retries (attempt + 1) operation)
      reply

-- There are `max_retries + 1` attempts at most.
unfoldable pub with_retry : {A : Type 0} → ℕ → (ℕ → Result A) → Exec World A
unfolding retry_loop
with_retry max_retries operation = retry_loop (suc max_retries) max_retries 0 operation

abbrev pub transfer_filter : ℕ → ℕ → Option Bytes → Filter
transfer_filter from_block to_block contract_address = record {
  event_signature = erc20_transfer_event_signature;
  from_block = from_block;
  to_block = to_block;
  address = contract_address;
}

abbrev pub metadata_of : ℕ → Header → BlockMetadata
metadata_of block_number header = record {
  number = block_number;
  hash = header.hash;
  timestamp = header.timestamp;
}

module _ (sv : Services) (max_retries : ℕ) where
  unfoldable pub fetch_erc20_transfer_logs : ℕ → ℕ → Option Bytes → Exec World (List Log)
  fetch_erc20_transfer_logs from_block to_block contract_address =
      with_retry max_retries (sv.get_logs (transfer_filter from_block to_block contract_address))

  unfoldable pub get_latest_block_number : Exec World ℕ
  get_latest_block_number = with_retry max_retries sv.get_block_number

  unfoldable pub get_block_metadata : ℕ → Exec World (Option BlockMetadata)
  get_block_metadata block_number = do
    block ← with_retry max_retries (sv.get_block_by_number block_number)
    pure (Option.map (metadata_of block_number) block)
