-- ===== src/Ingestion/Engine.antt =====
-- crates/ingestion/src/lib.rs: `BackfillEngine`, the windows that its workers check, and the tests
-- on stored hashes.
use rust_ethereum_indexer.Prelude.{
  ℕ, zero, suc, ◌+◌, ◌-◌, max, Bool, false, not, Option, none, some, List, [], ◌∷◌, Bytes, bytes_eq,
  if◌then◌else◌, Error, Exec, pure, raise, ◌>>=◌,
}
use rust_ethereum_indexer.World.{World}
use rust_ethereum_indexer.Rpc.Client.{BlockMetadata}
use rust_ethereum_indexer.Ingestion.Payload.{RangePayload}

-- `BackfillEngine`, with the one field of its `RpcClient` that matters here.
pub record BackfillEngine : Type 0 where
  pub contract_address : Bytes
  pub confirmation_depth : ℕ
  pub reorg_lookback : ℕ
  pub hot_window_size : ℕ
  pub live_start_depth : ℕ
  pub max_retries : ℕ

-- The payload, and the three durations in nanoseconds.
pub record RangeBuild : Type 0 where
  pub payload : RangePayload
  pub block_fetch_duration : ℕ
  pub log_fetch_duration : ℕ
  pub decode_duration : ℕ

-- `count` blocks from `start` on
unfoldable pub numbers_from : ℕ → ℕ → List ℕ
numbers_from start zero = []
numbers_from start (suc n) = start ∷ numbers_from (suc start) n

-- start..=end
abbrev pub inclusive : ℕ → ℕ → List ℕ
inclusive start stop = numbers_from start (suc stop - start)

abbrev pub address_filter : Bytes → Option Bytes
address_filter [] = none
address_filter (b ∷ bs) = some (b ∷ bs)

unfoldable pub compute_live_start_block : BackfillEngine → ℕ → ℕ → ℕ
compute_live_start_block e start_block latest_block =
    let depth = max (max (max e.live_start_depth e.hot_window_size) e.reorg_lookback) 1 in
    max (latest_block - (depth - 1)) start_block

-- The first block that `reconcile_finalized_history` looks at.
unfoldable pub finalized_validation_start : BackfillEngine → ℕ → ℕ → ℕ
finalized_validation_start e start_block checkpoint =
    let lookback = max (max e.reorg_lookback e.confirmation_depth) 1 in
    max (checkpoint - (lookback - 1)) start_block

-- The first block that `reconcile_hot_history` looks at.
unfoldable pub hot_validation_start : BackfillEngine → ℕ → ℕ → ℕ
unfolding compute_live_start_block
hot_validation_start e start_block latest_block =
    max (compute_live_start_block e start_block latest_block)
      (latest_block - (max e.reorg_lookback 1 - 1))

abbrev pub found_or : {A : Type 0} → Error → Option A → Exec World A
found_or e none = raise e
found_or e (some a) = pure a

-- Sum and maximum of the delays, in whole seconds.
unfoldable pub delays : ℕ → List BlockMetadata → ℕ × ℕ
delays now [] = (0, 0)
delays now (b ∷ bs) =
    let (sum, most) = delays now bs in ((now - b.timestamp) + sum, max (now - b.timestamp) most)

-- The stored hash is there and differs; it is there and agrees.
abbrev pub is_conflict : Option Bytes → Bytes → Bool
is_conflict none hash = false
is_conflict (some stored) hash = not (bytes_eq stored hash)

abbrev pub is_valid : Option Bytes → Bytes → Bool
is_valid none hash = false
is_valid (some stored) hash = bytes_eq stored hash

-- The loop that both `process_…_range` functions run before they commit: the first block that
-- `stored_hash` knows under another hash.
unfoldable pub first_conflict :
    (ℕ → Exec World (Option Bytes)) → List (ℕ × Bytes) → Exec World (Option ℕ)
first_conflict stored_hash [] = pure none
first_conflict stored_hash ((block_number, block_hash) ∷ rest) = do
  existing ← stored_hash block_number
  if is_conflict existing block_hash
      then pure (some block_number)
      else first_conflict stored_hash rest
