-- ===== src/Ingestion/Trace.antt =====
-- What each of `run_backfill` and `run_live` of crates/ingestion/src/lib.rs does to the database,
-- as the steps of a relation with guards. A step is one whole transaction of the worker, or what
-- the other clients of the server have committed between two of its requests.
use rust_ethereum_indexer.Prelude.{ℕ, ◌+◌, ◌≤◌, ◌<◌, max, ◌≡◌, ok}
use rust_ethereum_indexer.Storage.Tables.{Database}
use rust_ethereum_indexer.Storage.Effects.{finalized, heated, rolled_back, hot_rolled_back, pruned}
use rust_ethereum_indexer.World.{Services, World}
use rust_ethereum_indexer.Ingestion.Engine.{BackfillEngine, compute_live_start_block}
use rust_ethereum_indexer.Ingestion.Payload.{RangePayload}
use rust_ethereum_indexer.Ingestion.Fetch.{Builds, Differs}
use rust_ethereum_indexer.Ingestion.Workers.{run_backfill, run_live}
use rust_ethereum_indexer.Ingestion.Finalized.{IsFinalized}
use rust_ethereum_indexer.Ingestion.Hot.{IsHot, StoredBelow}
use rust_ethereum_indexer.Ingestion.Backfill.{Confirms, Carries}
use rust_ethereum_indexer.Ingestion.BackfillRun.{run_backfill-Held}
use rust_ethereum_indexer.Ingestion.Live.{Heads, HotCarries, Cuts}
use rust_ethereum_indexer.Ingestion.LiveRun.{run_live-Held}

-- A commit of `run_backfill` is of the range that follows the checkpoint, or that starts with the
-- start block, whole, and with the payload that the provider accounts for: one header for each
-- block, and the transfers of the logs that it reported for the range. A rollback is from a block
-- between the start block and the checkpoint that the provider reported under another hash than the
-- stored one, or that is not stored.
pub data BackfillStep (sv : Services) (e : BackfillEngine) (start top : ℕ)
    : Database → Database → Type 0 where
  others : (t : ℕ) (d : Database) → BackfillStep sv e start top d (sv.others t d)
  commit :
      (s c : ℕ) (p : RangePayload) (d : Database) (inv : IsFinalized start top d)
      → s ≡ max (inv.cp + 1) start
      → s ≤ c
      → c ≤ top
      → Builds sv e s c p
      → BackfillStep sv e start top d (finalized p.transfer_records p.indexed_blocks s c d)
  rollback :
      (n : ℕ) (d : Database) (inv : IsFinalized start top d)
      → start ≤ n
      → n ≤ inv.cp
      → Differs sv n d.indexed_blocks
      → BackfillStep sv e start top d (rolled_back n d)

-- A commit of `run_live` is of a range beyond all blocks of the hot lane, with such a payload; a
-- prune takes what is below the window of a head that the provider has reported.
pub data LiveStep (sv : Services) (e : BackfillEngine) (start top : ℕ)
    : Database → Database → Type 0 where
  others : (t : ℕ) (d : Database) → LiveStep sv e start top d (sv.others t d)
  commit :
      (s c : ℕ) (p : RangePayload) (d : Database)
      → IsHot top d
      → StoredBelow s d
      → s ≤ c
      → c ≤ top
      → Builds sv e s c p
      → LiveStep sv e start top d (heated p.transfer_records p.indexed_blocks c d)
  rollback :
      (n : ℕ) (d : Database)
      → IsHot top d
      → n ≤ top
      → Differs sv n d.hot_indexed_blocks
      → LiveStep sv e start top d (hot_rolled_back n d)
  prune :
      (t latest : ℕ) (d : Database)
      → IsHot top d
      → sv.get_block_number t ≡ ok latest
      → LiveStep sv e start top d (pruned (compute_live_start_block e start latest) d)

-- The databases that some steps lead to.
pub data Trace (Step : Database → Database → Type 0) (d₀ : Database) : Database → Type 0 where
  here : Trace Step d₀ d₀
  next : {d d' : Database} → Trace Step d₀ d → Step d d' → Trace Step d₀ d'

module _ (sv : Services) (e : BackfillEngine) (start top : ℕ) (d₀ : Database) where
  trace-Carries : Carries sv e start top (Trace (BackfillStep sv e start top) d₀)
  trace-Carries = record {
    kept = λ t d so_far. Trace.next so_far (BackfillStep.others t d);
    back = λ n d inv lo hi differs so_far.
        Trace.next so_far (BackfillStep.rollback n d inv lo hi differs);
    grown = λ s c p built d inv next le small so_far.
        Trace.next so_far (BackfillStep.commit s c p d inv next le small built);
  }

  trace-HotCarries : HotCarries sv e top (Trace (LiveStep sv e start top) d₀)
  trace-HotCarries = record {
    kept = λ t d inv so_far. Trace.next so_far (LiveStep.others t d);
    back =
        λ n d inv small differs so_far. Trace.next so_far (LiveStep.rollback n d inv small differs);
    grown = λ s c p built d inv below le small so_far.
        Trace.next so_far (LiveStep.commit s c p d inv below le small built);
  }

  trace-Cuts : Cuts sv e start top (Trace (LiveStep sv e start top) d₀)
  trace-Cuts t latest d replied inv so_far =
      Trace.next so_far (LiveStep.prune t latest d inv replied)

-- With a start block of at least 1, and a provider whose heads, less the confirmation depth, stay
-- within the bound `top`: from a finalized lane in order, however many rounds `run_backfill` makes,
-- whichever requests fail, and whatever the provider reports, the database afterwards is reached by
-- steps that are each what the other clients have committed at a request, or a whole transaction of
-- `run_backfill`: the commit of a whole range of blocks up to `top`, which follows the checkpoint
-- or starts with the start block, with one header of the provider for each block and the transfers
-- of the logs that it reported for the range, for a filter on Transfer events and the contract of
-- the settings; or a rollback from a block between the start block and the checkpoint that is not
-- stored under the hash that the provider reported for it. At each transaction of `run_backfill`
-- the finalized lane is in order.
pub run_backfill-Trace :
    (sv : Services) (e : BackfillEngine) (start top : ℕ)
    → 0 < start
    → Confirms sv e top
    → (rounds : ℕ) (w : World) → IsFinalized start top w.host.database
    → Trace
        (BackfillStep sv e start top)
        w.host.database
        (run_backfill sv e rounds start w).1.host.database
run_backfill-Trace sv e start top positive limits rounds w inv =
    (run_backfill-Held sv e start top positive limits (trace-Carries sv e start top w.host.database)
      rounds w (inv, Trace.here)).1

-- With a provider whose heads stay within the bound `top`: from a hot lane in order, however many
-- rounds `run_live` makes, whichever requests fail, and whatever the provider reports, the database
-- afterwards is reached by steps that are each what the other clients have committed at a request,
-- or a whole transaction of `run_live`: the commit of a whole range of blocks up to `top`, beyond
-- all blocks of the hot lane, with one header of the provider for each block and the transfers of
-- the logs that it reported for the range, for a filter on Transfer events and the contract of the
-- settings; a rollback of the hot lane from a block up to `top` that is not stored under the hash
-- that the provider reported for it; or a prune of the blocks below the window of a head that the
-- provider has reported. At each transaction of `run_live` the hot lane is in order.
pub run_live-Trace :
    (sv : Services) (e : BackfillEngine) (start top : ℕ)
    → Heads sv top
    → (rounds : ℕ) (w : World) → IsHot top w.host.database
    → Trace (LiveStep sv e start top) w.host.database (run_live sv e rounds start w).1.host.database
run_live-Trace sv e start top limits rounds w inv =
    (run_live-Held sv e top limits (trace-HotCarries sv e start top w.host.database) start
      (trace-Cuts sv e start top w.host.database) rounds w (inv, Trace.here)).1
