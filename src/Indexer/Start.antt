-- ===== src/Indexer/Start.antt =====
-- indexer/src/main.rs: the workers that `main` starts on a database that the migrations have made.
use Prim.Native.String.{String}
use rust_ethereum_indexer.Prelude.{
  ℕ, zero, suc, ◌<◌, max, Option, none, some, Bytes, Text, ◌≡◌, refl, arith, ok, Exec,
}
use rust_ethereum_indexer.Storage.Tables.{Database, migrated, select_hash}
use rust_ethereum_indexer.Observability.Metrics
use rust_ethereum_indexer.World.{Services, World}
use rust_ethereum_indexer.Ingestion.Workers.{run_backfill, run_live}
use rust_ethereum_indexer.Ingestion.Finalized.{IsFinalized}
use rust_ethereum_indexer.Ingestion.Backfill.{Confirms}
use rust_ethereum_indexer.Ingestion.BackfillRun.{run_backfill-IsFinalized}
use rust_ethereum_indexer.Ingestion.Hot.{IsHot}
use rust_ethereum_indexer.Ingestion.Live.{Heads}
use rust_ethereum_indexer.Ingestion.LiveRun.{run_live-IsHot}
use rust_ethereum_indexer.Indexer.Number.{parse_u64}
use rust_ethereum_indexer.Indexer.Parse.{Reads, parse_u64-Reads}
use rust_ethereum_indexer.Indexer.Settings.{
  Settings, Worker, unwrap_or, number_or, read_settings, engine_of,
}

-- The world of a first start: the database as the migrations leave it, and new metrics.
unfoldable pub first_world : Settings → World
first_world s = record {
  host = record { database = migrated; time = 0 };
  metrics = Metrics.new (max s.rolling_window_secs 1);
}

-- The future of one worker, for its first `rounds` rounds.
unfoldable pub run_worker : Services → Settings → Worker → ℕ → Exec World (Unit {0})
unfolding engine_of
run_worker sv s Worker.backfill_worker rounds = run_backfill sv (engine_of s) rounds s.start_block
run_worker sv s Worker.live_worker rounds = run_live sv (engine_of s) rounds s.start_block

-- What a worker relies on, and what it keeps.
abbrev pub Relies : Worker → Services → Settings → ℕ → Type 0
Relies Worker.backfill_worker sv s top = Confirms sv (engine_of s) top
Relies Worker.live_worker sv s top = Heads sv top

abbrev pub InOrder : Worker → Settings → ℕ → Database → Type 0
InOrder Worker.backfill_worker s top d = IsFinalized s.start_block top d
InOrder Worker.live_worker s top d = IsHot top d

migrated-IsFinalized : (start top : ℕ) → 0 < start → IsFinalized start top migrated
unfolding select_hash
migrated-IsFinalized start top positive = record {
  cp = 0;
  checkpoint = refl;
  below = omega arith;
  stored_all = λ n lo hi. absurd (omega arith);
  bounded = λ z h e. absurd (ground arith);
  aligned = tt;
  integrity = tt;
  unique = tt;
}

migrated-IsHot : (top : ℕ) → IsHot top migrated
unfolding select_hash
migrated-IsHot top = record {
  cp = 0;
  checkpoint = refl;
  below = omega arith;
  bounded = λ z h e. absurd (ground arith);
  aligned = tt;
  integrity = tt;
  unique = tt;
}

run_worker-InOrder :
    (sv : Services) (s : Settings) (worker : Worker) (rounds top : ℕ)
    → 0 < s.start_block
    → Relies worker sv s top
    → InOrder worker s top (run_worker sv s worker rounds (first_world s)).1.host.database
unfolding run_worker first_world
run_worker-InOrder sv s Worker.backfill_worker rounds top positive limits =
    run_backfill-IsFinalized sv (engine_of s) s.start_block top positive limits rounds
      (first_world s) (migrated-IsFinalized s.start_block top positive)
run_worker-InOrder sv s Worker.live_worker rounds top positive limits =
    run_live-IsHot sv (engine_of s) top limits rounds s.start_block (first_world s)
      (migrated-IsHot top)

module _ (address_from_str : Text → Option Bytes) (var : String → Option Text) where
  -- The settings that are read.
  start_block_read :
      (s : Settings)
      → read_settings address_from_str var ≡ ok s
      → s.start_block ≡ number_or (var "START_BLOCK") 10463971
  unfolding read_settings
  start_block_read s e = ground arith

  number_or-positive :
      (o : Option Text) (default : ℕ)
      → 0 < default
      → ((value : Text) → o ≡ some value → ¬ Reads value 0)
      → 0 < number_or o default
  number_or-positive none default pos apart = pos
  number_or-positive (some value) default pos apart = go (parse_u64 value) refl
    where
      go : (o : Option ℕ) → parse_u64 value ≡ o → 0 < unwrap_or o default
      go none e = pos
      go (some zero) e = absurd (apart value refl ((parse_u64-Reads value 0).0 e))
      go (some (suc n)) e = omega arith

  -- Whatever the environment says, but for a START_BLOCK that reads as 0: each worker that is
  -- started on the migrated database keeps its lane in order, for any number of rounds, where its
  -- services stay within the bound `top`.
  pub read_settings-InOrder :
      (sv : Services) (s : Settings) (worker : Worker) (rounds top : ℕ)
      → read_settings address_from_str var ≡ ok s
      → ((value : Text) → var "START_BLOCK" ≡ some value → ¬ Reads value 0)
      → Relies worker sv s top
      → InOrder worker s top (run_worker sv s worker rounds (first_world s)).1.host.database
  read_settings-InOrder sv s worker rounds top read apart limits =
      run_worker-InOrder sv s worker rounds top positive limits
    where
      positive : 0 < s.start_block
      positive =
          let e : s.start_block ≡ number_or (var "START_BLOCK") 10463971 =
            start_block_read s read in
          omega (arith, number_or-positive (var "START_BLOCK") 10463971 (omega arith) apart)
