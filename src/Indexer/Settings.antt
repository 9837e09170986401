-- ===== src/Indexer/Settings.antt =====
-- indexer/src/main.rs, lines 14 to 97 and 122 to 154: `IndexerMode`, the settings that `main` reads
-- from the environment, the engine that it builds, and the workers that it starts.
use Prim.Native.String.{String}
use rust_ethereum_indexer.Prelude.{
  ℕ, Option, none, some, List, [], ◌∷◌, Bytes, bytes_eq, if◌then◌else◌, Text, trim_start, trim,
  codes, to_ascii_lower, to_ascii_lowercase, Result, ok, rejected,
}
use rust_ethereum_indexer.Prelude.Results.{◌>>=◌, ok_or}
use rust_ethereum_indexer.Ingestion.Engine.{BackfillEngine}
use rust_ethereum_indexer.Indexer.Number.{parse_u64}

pub data IndexerMode : Type 0 where
  backfill live hybrid : IndexerMode

abbrev pub unwrap_or : {A : Type 0} → Option A → A → A
unwrap_or none default = default
unwrap_or (some a) default = a

unfoldable pub from_env : Option Text → IndexerMode
unfolding trim_start to_ascii_lower
from_env value =
    let mode = to_ascii_lowercase (trim (unwrap_or value (codes "hybrid"))) in
    if bytes_eq mode (codes "backfill")
    then IndexerMode.backfill
    else if bytes_eq mode (codes "live")
    then IndexerMode.live
    else IndexerMode.hybrid

-- `.and_then(|value| value.parse().ok()).unwrap_or(default)`
abbrev pub number_or : Option Text → ℕ → ℕ
number_or none default = default
number_or (some value) default = unwrap_or (parse_u64 value) default

abbrev pub or_else : Option Text → Option Text → Option Text
or_else none other = other
or_else (some value) other = some value

-- `.map(|value| value.parse::<Address>()).transpose()?.map(…).unwrap_or_default()`
abbrev pub address_or_default : (Text → Option Bytes) → Option Text → Result Bytes
address_or_default address_from_str none = ok []
address_or_default address_from_str (some value) =
    ok_or (address_from_str value) (rejected "Invalid Ethereum address.")

pub record Settings : Type 0 where
  pub rolling_window_secs : ℕ
  pub metrics_log_interval_secs : ℕ
  pub rpc_max_retries : ℕ
  pub rpc_retry_backoff_ms : ℕ
  pub rpc_url : Text
  pub db_url : Text
  pub start_block : ℕ
  pub confirmation_depth : ℕ
  pub reorg_lookback : ℕ
  pub live_poll_interval_secs : ℕ
  pub live_start_depth : ℕ
  pub contract_address : Bytes
  pub indexer_mode : IndexerMode

-- `var` is `std::env::var(…).ok()`; an `expect` that fails ends the program, like an error.
unfoldable pub read_settings : (Text → Option Bytes) → (String → Option Text) → Result Settings
unfolding from_env
read_settings address_from_str var = do
  rpc_url ← ok_or (var "SEPOLIA_RPC_URL") (rejected "RPC_URL env-var not set!")
  db_url ← ok_or (var "DATABASE_URL") (rejected "DATABASE_URL env-var not set!")
  contract_address ← address_or_default address_from_str (var "CONTRACT_ADDRESS")
  ok (record {
    rolling_window_secs = number_or (var "METRICS_ROLLING_WINDOW_SECS") 60;
    metrics_log_interval_secs = number_or (var "METRICS_LOG_INTERVAL_SECS") 15;
    rpc_max_retries = number_or (var "RPC_MAX_RETRIES") 3;
    rpc_retry_backoff_ms = number_or (var "RPC_RETRY_BACKOFF_MS") 500;
    rpc_url = rpc_url;
    db_url = db_url;
    start_block = number_or (var "START_BLOCK") 10463971;
    confirmation_depth = number_or (var "CONFIRMATION_DEPTH") 12;
    reorg_lookback = number_or (var "REORG_LOOKBACK") 24;
    live_poll_interval_secs = number_or (var "LIVE_POLL_INTERVAL_SECS") 5;
    live_start_depth = number_or (or_else (var "LIVE_START_DEPTH") (var "HOT_WINDOW_SIZE")) 256;
    contract_address = contract_address;
    indexer_mode = from_env (var "INDEXER_MODE");
  })

-- `BackfillEngine { … }`
unfoldable pub engine_of : Settings → BackfillEngine
engine_of s = record {
  contract_address = s.contract_address;
  confirmation_depth = s.confirmation_depth;
  reorg_lookback = s.reorg_lookback;
  hot_window_size = s.live_start_depth;
  live_start_depth = s.live_start_depth;
  max_retries = s.rpc_max_retries;
}

pub data Worker : Type 0 where
  backfill_worker live_worker : Worker

-- The workers among the futures of `try_join!`.
unfoldable pub workers : IndexerMode → List Worker
workers IndexerMode.backfill = Worker.backfill_worker ∷ []
workers IndexerMode.live = Worker.live_worker ∷ []
workers IndexerMode.hybrid = Worker.backfill_worker ∷ Worker.live_worker ∷ []
