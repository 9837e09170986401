-- ===== src/Ingestion/Convergence.antt =====
-- Where `run_backfill` of crates/ingestion/src/lib.rs leads while PostgreSQL and the provider
-- serve.
use rust_ethereum_indexer.Prelude.{
  ℕ, zero, suc, ◌+◌, ◌-◌, ◌≤◌, ◌<◌, ◌≡◌, refl, ap, ◌∙◌, some, arith, pos, Result, ok, err,
}
use mathlib.Core.Path.{subst}
use rust_ethereum_indexer.Storage.Tables.{select_hash}
use rust_ethereum_indexer.World.{Services, Header, World}
use rust_ethereum_indexer.Ingestion.Engine.{BackfillEngine, finalized_validation_start}
use rust_ethereum_indexer.Ingestion.Workers.{run_backfill}
use rust_ethereum_indexer.Ingestion.Keeps.{Post}
use rust_ethereum_indexer.Ingestion.Total.{Never}
use rust_ethereum_indexer.Ingestion.Serving.{IsServing}
use rust_ethereum_indexer.Ingestion.Finalized.{IsFinalized}
use rust_ethereum_indexer.Ingestion.Backfill.{Confirms}
use rust_ethereum_indexer.Ingestion.OnChain.{OnBelow, OnChain, Checkpoint}
use rust_ethereum_indexer.Ingestion.Progress.{one-Checkpoint}
use rust_ethereum_indexer.Ingestion.Rounds.{Reached', recent_rounds-serve}

-- A run that went well: every block up to `goal` is stored, and all hashes are those of the chain.
pub record Synced (chain : ℕ → Header) (start top goal : ℕ) (r : Result (Unit {0}) × World)
    : Type 0 where
  pub result : r.0 ≡ ok tt
  pub ordered : IsFinalized start top r.1.host.database
  pub on_chain : OnChain chain r.1.host.database
  pub complete :
      (n : ℕ)
      → start ≤ n
      → n ≤ goal
      → select_hash (pos n) r.1.host.database.indexed_blocks ≡ some (chain n).hash

module _ (sv : Services) (e : BackfillEngine) (start top : ℕ) (positive : 0 < start)
    (limits : Confirms sv e top) (latest : ℕ) (chain : ℕ → Header)
    (serving : IsServing sv e top latest chain) where
  -- With a start block of at least 1, and a provider whose heads, less the confirmation depth, stay
  -- within the bound `top`: while PostgreSQL answers, the provider fails no request more than
  -- `max_retries` times in a row, reports the blocks of one chain up to `top` and logs that belong
  -- to a block of the range, and the live worker commits whichever of its transactions in between:
  -- from a lane in order whose hashes differ from those of the chain only within the window that is
  -- checked, `run_backfill` does not fail, and after one round more than there are blocks from the
  -- start block to the goal (`latest`, which no head is below, less the confirmation depth), all of
  -- these are stored, every stored hash is that of the chain, and the lane is in order.
  pub run_backfill-Synced :
      (rounds cp : ℕ) (w : World)
      → IsFinalized start top w.host.database
      → Checkpoint cp w.host.database
      → OnBelow chain (finalized_validation_start e start cp) w.host.database
      → latest - e.confirmation_depth + 2 ≤ start + rounds
      → 0 < rounds
      → Synced chain start top (latest - e.confirmation_depth) (run_backfill sv e rounds start w)
  run_backfill-Synced zero cp w inv at on enough some_round = absurd (omega arith)
  run_backfill-Synced (suc n) cp w inv at on enough some_round =
      synced (run_backfill sv e (suc n) start w) (
        (recent_rounds-serve sv e start top positive limits latest chain serving n).at w
          (inv, recent))
    where
      recent :
          (c : ℕ)
          → Checkpoint c w.host.database
          → OnBelow chain (finalized_validation_start e start c) w.host.database
      recent c at' =
          let same : cp ≡ c =
            one-Checkpoint sv e start top positive limits latest chain serving cp c w.host.database
              at at' in
          subst (λ c. OnBelow chain (finalized_validation_start e start c) w.host.database) same on

      synced :
          (r : Result (Unit {0}) × World)
          → Post (λ _. Reached' sv e start top positive limits latest chain serving n) Never r
          → Synced chain start top (latest - e.confirmation_depth) r
      synced (ok u, w') ((inv', on'), far) = record {
        result = refl;
        ordered = inv';
        on_chain = on';
        complete = λ m lo hi.
            let all = far inv'.cp inv'.checkpoint in
            let (h, found) = inv'.stored_all m lo (omega (arith, enough)) in
            found ∙ ap some (on' m h found);
      }
      synced (err c, w') bad = absurd bad
