-- ===== src/Ingestion/BackfillRun.antt =====
-- The loop of `run_backfill` over the steps of Backfill.
use rust_ethereum_indexer.Prelude.{
  ℕ, zero, suc, ◌+◌, ◌-◌, ◌*◌, ◌≤◌, ◌<◌, max, Bool, true, false, ◌≡◌, arith, leb, i64_limit, Result,
  ok, err, Exec, pure, add_sub_one-eq, saturating_add,
}
use rust_ethereum_indexer.Storage.Tables.{Database}
use rust_ethereum_indexer.Storage.Statements.{block_partition_size}
use rust_ethereum_indexer.Storage.Calls.{get_checkpoint}
use rust_ethereum_indexer.Observability.Metrics.{IndexerMetrics}
use rust_ethereum_indexer.World.{Services, World, on_host, count}
use rust_ethereum_indexer.Rpc.Client.{get_latest_block_number}
use rust_ethereum_indexer.Ingestion.Engine.{BackfillEngine}
use rust_ethereum_indexer.Ingestion.Workers.{
  reconciled, processed, caught_up, handled, failing, block_batch_size, batch_end, finalize_next,
  backfill_rest, backfill_round, backfill_rounds, run_backfill,
}
use rust_ethereum_indexer.Ingestion.Keeps.{
  Post, Triple, Triple-pure, Triple-bind, Triple-fact, Triple-weaken, Triple-if, Triple-count,
}
use rust_ethereum_indexer.Ingestion.Fetch.{with_retry-Triple}
use rust_ethereum_indexer.Ingestion.Finalized.{IsFinalized}
use rust_ethereum_indexer.Ingestion.Backfill.{
  Confirms, Carries, Held, HeldAt, plain, get_checkpoint-Triple, reconcile_finalized_history-Triple,
}
use rust_ethereum_indexer.Ingestion.FinalizedBatch.{HeldNext, process_finalized_range-Triple}

-- Counting a failed batch does not touch the database.
pub failing-Triple :
    {P E : Database → Type 0} {Q : Unit {0} → Database → Type 0}
    (f : IndexerMetrics → IndexerMetrics) (m : Exec World (Unit {0}))
    → Triple P m Q E
    → Triple P (failing (count f) m) Q E
unfolding failing count
failing-Triple {P} {E} {Q} f m t = record { at = λ w h. go (m w) (t.at w h) }
  where
    go : (r : Result (Unit {0}) × World) → Post Q E r → Post Q E (handled (count f) r.0 r.1)
    go (ok u, w) h = h
    go (err c, w) h = h

module _ (sv : Services) (e : BackfillEngine) (start top : ℕ) (positive : 0 < start)
    (limits : Confirms sv e top) where
  abbrev Inv' : Database → Type 0
  Inv' = IsFinalized start top

  module _ {G : Database → Type 0} (carries : Carries sv e start top G) where
    abbrev HeldG : Database → Type 0
    HeldG = Held sv e start top positive limits carries

    finalize_next-Triple :
        (next safe_head latest : ℕ)
        → safe_head ≤ top
        → Triple
            (HeldNext sv e start top positive limits carries next)
            (finalize_next sv e next safe_head latest)
            (λ _. HeldG)
            HeldG
    unfolding finalize_next
    finalize_next-Triple next safe_head latest below =
        Triple-if (leb next safe_head) _ _
          (λ within.
            Triple-bind _ _ (λ _. HeldG)
              (failing-Triple _ _ (
                process_finalized_range-Triple sv e start top positive limits carries next
                  (batch_end next safe_head) latest (end_bounds within).0 (end_bounds within).1))
              (λ _. Triple-pure processed))
          (λ _.
            Triple-weaken (pure caught_up) (λ d h. (h.0.0, h.1)) (λ a d h. h)
              (Triple-pure caught_up))
      where
        end_bounds :
            leb next safe_head ≡ true
            → (next ≤ batch_end next safe_head) × (batch_end next safe_head ≤ top)
        end_bounds within =
            let room : top + 2 * block_partition_size < i64_limit = limits.room in
            let le : next ≤ safe_head = ground arith in
            omega (arith, add_sub_one-eq next block_batch_size (omega arith) (omega arith))

    backfill_rest-Triple :
        (safe_head latest : ℕ) (changed : Bool)
        → safe_head ≤ top
        → Triple HeldG (backfill_rest sv e start safe_head latest changed) (λ _. HeldG) HeldG
    unfolding backfill_rest
    backfill_rest-Triple safe_head latest true below = Triple-pure reconciled
    backfill_rest-Triple safe_head latest false below =
        Triple-bind (on_host sv.others (get_checkpoint sv.answer)) _ _
          (get_checkpoint-Triple sv e start top positive limits carries)
          λ cp.
            Triple-weaken _ (λ d ((inv, same), g). ((inv, plus_one cp d inv same), g)) (λ a d h. h)
              (finalize_next-Triple (max (saturating_add cp 1) start) safe_head latest below)
      where
        plus_one :
            (cp : ℕ) (d : Database) (inv : Inv' d)
            → cp ≡ inv.cp
            → max (saturating_add cp 1) start ≡ max (inv.cp + 1) start
        plus_one cp d inv same =
            let room : top + 2 * block_partition_size < i64_limit = limits.room in
            omega (arith, inv.below)

    backfill_round-Triple : Triple HeldG (backfill_round sv e start) (λ _. HeldG) HeldG
    unfolding backfill_round get_latest_block_number
    backfill_round-Triple =
        Triple-bind _ _ _ (with_retry-Triple (λ d h. h) e.max_retries sv.get_block_number) λ latest.
          Triple-fact _ λ (t, replied).
            Triple-bind (on_host sv.others (get_checkpoint sv.answer)) _ _
              (get_checkpoint-Triple sv e start top positive limits carries)
              λ cp.
                Triple-bind (count _) _ (λ _. HeldAt sv e start top positive limits carries cp)
                  (Triple-count _)
                  λ _.
                    Triple-bind _ _ (λ _. HeldG)
                      (Triple-if (leb start cp) _ _
                        (λ reached.
                          reconcile_finalized_history-Triple sv e start top positive limits carries
                            cp (ground arith))
                        (λ _.
                          Triple-weaken (pure false) (λ d h. (h.0.0, h.1)) (λ a d h. h)
                            (Triple-pure false)))
                      λ changed.
                        backfill_rest-Triple (latest - e.confirmation_depth) latest changed
                          (limits.confirmed t latest replied)

    backfill_rounds-Triple :
        (rounds : ℕ) → Triple HeldG (backfill_rounds sv e rounds start) (λ _. HeldG) HeldG
    unfolding backfill_rounds
    backfill_rounds-Triple zero = Triple-pure tt
    backfill_rounds-Triple (suc n) =
        let rest = backfill_rounds-Triple n in
        Triple-bind (backfill_round sv e start) _ (λ _. HeldG) backfill_round-Triple (λ _. rest)

    pub run_backfill-Triple :
        (rounds : ℕ) → Triple HeldG (run_backfill sv e rounds start) (λ _. HeldG) HeldG
    unfolding run_backfill
    run_backfill-Triple rounds =
        Triple-bind (on_host sv.others (get_checkpoint sv.answer)) _ _
          (get_checkpoint-Triple sv e start top positive limits carries)
          λ cp.
            Triple-bind (count _) _ (λ _. HeldG)
              (Triple-weaken _ (λ d h. (h.0.0, h.1)) (λ a d h. h) (Triple-count _))
              λ _. backfill_rounds-Triple rounds

    pub run_backfill-Held :
        (rounds : ℕ) (w : World)
        → HeldG w.host.database
        → HeldG (run_backfill sv e rounds start w).1.host.database
    run_backfill-Held rounds w h =
        settled (run_backfill sv e rounds start w) ((run_backfill-Triple rounds).at w h)
      where
        settled :
            (r : Result (Unit {0}) × World) → Post (λ _. HeldG) HeldG r → HeldG r.1.host.database
        settled (ok u, w') h = h
        settled (err c, w') h = h

  -- With a start block of at least 1, and a provider whose heads, less the confirmation depth, are
  -- at most `top`: from a database in order, however many rounds `run_backfill` makes, whichever
  -- requests to PostgreSQL or to the provider fail, if the reply to a commit is lost, whatever
  -- blocks, hashes and logs the provider reports, and whichever of its transactions the live worker
  -- commits in between, the finalized lane is in order afterwards, also where the worker ended with
  -- an error.
  pub run_backfill-IsFinalized :
      (rounds : ℕ) (w : World)
      → IsFinalized start top w.host.database
      → IsFinalized start top (run_backfill sv e rounds start w).1.host.database
  run_backfill-IsFinalized rounds w inv = (run_backfill-Held plain rounds w (inv, tt)).0
