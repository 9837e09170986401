-- ===== src/Examples/Indexer.antt =====
-- The settings of an environment, and the workers that they start.
use Prim.Native.String.{String}
use text.Mathlib.Text.{◌==◌ as str_eq}
use rust_ethereum_indexer.Prelude.{
  bytes_eq, ◌≡◌, refl, Option, none, some, [], Bytes, Text, codes, to_ascii_lowercase, arith, ok,
  if◌then◌else◌,
}
use rust_ethereum_indexer.Ingestion.Writes.{LiveWrites}
use rust_ethereum_indexer.Ingestion.Backfill.{Confirms}
use rust_ethereum_indexer.Indexer.Number.{parse_u64}
use rust_ethereum_indexer.Indexer.Parse.{Reads}
use rust_ethereum_indexer.Indexer.Settings.{
  IndexerMode, Settings, Worker, from_env, read_settings, engine_of,
}
use rust_ethereum_indexer.Indexer.Start.{InOrder, first_world, run_worker, read_settings-InOrder}
use rust_ethereum_indexer.Indexer.Mode.{from_env_case}
use rust_ethereum_indexer.Examples.Fixtures.{small_chain}

from_env_case_example :
    from_env (some (to_ascii_lowercase (codes " LIVE "))) ≡ from_env (some (codes " LIVE "))
from_env_case_example = from_env_case (codes " LIVE ")

-- A depth that does not fit into 64 bits is passed over.
abbrev sample_env : String → Option Text
sample_env name =
    if str_eq name "SEPOLIA_RPC_URL"
    then some (codes "http://node")
    else if str_eq name "DATABASE_URL"
    then some (codes "postgres://db")
    else if str_eq name "START_BLOCK"
    then some (codes "1")
    else if str_eq name "INDEXER_MODE"
    then some (codes " Backfill ")
    else if str_eq name "HOT_WINDOW_SIZE"
    then some (codes "64")
    else if str_eq name "REORG_LOOKBACK"
    then some (codes "18446744073709551616")
    else none

abbrev no_address : Text → Option Bytes
no_address value = none

abbrev sample_settings : Settings
sample_settings = record {
  rolling_window_secs = 60;
  metrics_log_interval_secs = 15;
  rpc_max_retries = 3;
  rpc_retry_backoff_ms = 500;
  rpc_url = codes "http://node";
  db_url = codes "postgres://db";
  start_block = 1;
  confirmation_depth = 12;
  reorg_lookback = 24;
  live_poll_interval_secs = 5;
  live_start_depth = 64;
  contract_address = [];
  indexer_mode = IndexerMode.backfill;
}

sample_settings_read : read_settings no_address sample_env ≡ ok sample_settings
unfolding read_settings parse_u64 from_env bytes_eq
sample_settings_read = refl

one_apart : (value : Text) → sample_env "START_BLOCK" ≡ some value → ¬ Reads value 0
one_apart value e r =
    let one : codes "1" ≡ value = ground arith in absurd (ground (arith, one, r.number))

sample-Confirms : Confirms small_chain (engine_of sample_settings) 3
unfolding engine_of
sample-Confirms = record {
  confirmed = λ t n e. ground arith;
  room = omega arith;
  alone = λ t d. LiveWrites.prune_hot t d;
}

read_settings-InOrder_example :
    InOrder Worker.backfill_worker sample_settings 3
      (run_worker small_chain sample_settings Worker.backfill_worker 4
        (first_world sample_settings)).1.host.database
read_settings-InOrder_example =
    read_settings-InOrder no_address sample_env small_chain sample_settings Worker.backfill_worker 4
      3 sample_settings_read one_apart sample-Confirms
