-- ===== src/World.antt =====
-- What the workers of the indexer share: the database server, the counters, and the services that
-- the program calls. The services are functions of the number of the request, so that each may
-- answer otherwise at every call.
use rust_ethereum_indexer.Prelude.{ℕ, ◌+◌, Option, List, Bytes, Result, ok, Exec}
use rust_ethereum_indexer.Storage.Tables.{Database}
use rust_ethereum_indexer.Storage.Session.{Answer, Host}
use rust_ethereum_indexer.Observability.Metrics.{IndexerMetrics}
use rust_ethereum_indexer.Decoder.{Log}

-- alloy's block header, as far as the program reads it
pub record Header : Type 0 where
  pub hash : Bytes
  pub timestamp : ℕ

-- alloy's `Filter`, as far as the program sets it
pub record Filter : Type 0 where
  pub event_signature : Bytes
  pub from_block : ℕ
  pub to_block : ℕ
  pub address : Option Bytes

-- PostgreSQL with its other clients, the RPC provider, the clock of the system and the monotonic
-- clock (in nanoseconds).
pub record Services : Type 0 where
  pub answer : ℕ → Answer
  pub others : ℕ → Database → Database
  pub get_block_number : ℕ → Result ℕ
  pub get_block_by_number : ℕ → ℕ → Result (Option Header)
  pub get_logs : Filter → ℕ → Result (List Log)
  pub unix_timestamp_secs : ℕ → ℕ
  pub instant : ℕ → ℕ

-- `time` counts the requests to the server and to the provider.
pub record World : Type 0 where
  pub host : Host
  pub open host use *
  pub metrics : IndexerMetrics

-- A call of the storage crate, after what the other clients of the server have committed since the
-- last one.
unfoldable pub on_host : {A : Type 0} → (ℕ → Database → Database) → Exec Host A → Exec World A
on_host others m w =
    let (r, h) = m (record w.host { database = others w.host.time w.host.database }) in
    (r, record w { host = h })

-- A method of `IndexerMetrics`.
unfoldable pub count : (IndexerMetrics → IndexerMetrics) → Exec World (Unit {0})
count f w = (ok tt, record w { metrics = f w.metrics })

-- One request to the provider.
unfoldable pub ask : {A : Type 0} → (ℕ → Result A) → Exec World A
ask op w = (op w.time, record w { host = record w.host { time = w.time + 1 } })

-- `Instant::now()`, `SystemTime::now()`
unfoldable pub read_clock : (ℕ → ℕ) → Exec World ℕ
read_clock clock w = (ok (clock w.time), w)
