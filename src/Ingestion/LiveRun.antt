-- ===== src/Ingestion/LiveRun.antt =====
-- The loop of `run_live` over the steps of Live.
use rust_ethereum_indexer.Prelude.{
  ℕ, zero, suc, ◌+◌, ◌*◌, ◌≤◌, ◌<◌, max, Bool, true, false, ◌≡◌, arith, leb, i64_limit, Result, ok,
  err, pure, add_sub_one-eq, saturating_add,
}
use rust_ethereum_indexer.Storage.Tables.{Database}
use rust_ethereum_indexer.Storage.Statements.{block_partition_size}
use rust_ethereum_indexer.Storage.Calls.{get_live_checkpoint, prune_hot_before_block}
use rust_ethereum_indexer.World.{Services, World, on_host, count}
use rust_ethereum_indexer.Rpc.Client.{get_latest_block_number}
use rust_ethereum_indexer.Ingestion.Engine.{BackfillEngine, compute_live_start_block}
use rust_ethereum_indexer.Ingestion.Steps.{reconcile_hot_history}
use rust_ethereum_indexer.Ingestion.Workers.{
  reconciled, processed, caught_up, block_batch_size, batch_end, heat_next, live_rest, live_round,
  live_rounds, run_live,
}
use rust_ethereum_indexer.Ingestion.Keeps.{
  Post, Triple, Triple-pure, Triple-bind, Triple-fact, Triple-weaken, Triple-if, Triple-count,
}
use rust_ethereum_indexer.Ingestion.Fetch.{with_retry-Triple}
use rust_ethereum_indexer.Ingestion.Hot.{IsHot, StoredBelow}
use rust_ethereum_indexer.Ingestion.BackfillRun.{failing-Triple}
use rust_ethereum_indexer.Ingestion.Live.{
  Heads, HotCarries, Cuts, HotHeld, HotHeldAt, hot_trivial, get_live_checkpoint-Triple,
  prune_hot_before_block-Triple, reconcile_hot_history-Triple,
}
use rust_ethereum_indexer.Ingestion.HotBatch.{HotHeldNext, process_hot_range-Triple}

module _ (sv : Services) (e : BackfillEngine) (top : ℕ) (limits : Heads sv top) where
  module _ {G : Database → Type 0} (carries : HotCarries sv e top G) where
    abbrev HeldG : Database → Type 0
    HeldG = HotHeld sv e top limits carries

    heat_next-Triple :
        (next latest : ℕ)
        → latest ≤ top
        → Triple
            (HotHeldNext sv e top limits carries next)
            (heat_next sv e next latest)
            (λ _. HeldG)
            HeldG
    unfolding heat_next
    heat_next-Triple next latest below =
        Triple-if (leb next latest) _ _
          (λ within.
            Triple-bind _ _ (λ _. HeldG)
              (failing-Triple _ _ (
                process_hot_range-Triple sv e top limits carries next (batch_end next latest) latest
                  (end_bounds within).0 (end_bounds within).1))
              (λ _. Triple-pure processed))
          (λ _.
            Triple-weaken (pure caught_up) (λ d h. (h.0.0, h.1)) (λ a d h. h)
              (Triple-pure caught_up))
      where
        end_bounds :
            leb next latest ≡ true → (next ≤ batch_end next latest) × (batch_end next latest ≤ top)
        end_bounds within =
            let room : top + 2 * block_partition_size < i64_limit = limits.room in
            let le : next ≤ latest = ground arith in
            omega (arith, add_sub_one-eq next block_batch_size (omega arith) (omega arith))

    live_rest-Triple :
        (start latest : ℕ) (changed : Bool)
        → latest ≤ top
        → Triple HeldG (live_rest sv e start latest changed) (λ _. HeldG) HeldG
    unfolding live_rest
    live_rest-Triple start latest true below = Triple-pure reconciled
    live_rest-Triple start latest false below =
        Triple-bind (on_host sv.others (get_live_checkpoint sv.answer)) _ _
          (get_live_checkpoint-Triple sv e top limits carries)
          λ cp.
            Triple-bind (count _) _ (λ _. HotHeldAt sv e top limits carries cp) (Triple-count _)
              λ _.
                Triple-weaken _
                  (λ d ((inv, below_cp, small), g). ((inv, beyond cp d below_cp small), g))
                  (λ a d h. h) (heat_next-Triple (max (saturating_add cp 1) start) latest below)
      where
        beyond :
            (cp : ℕ) (d : Database)
            → StoredBelow (cp + 1) d
            → cp ≤ top
            → StoredBelow (max (saturating_add cp 1) start) d
        beyond cp d below_cp small z h found =
            let room : top + 2 * block_partition_size < i64_limit = limits.room in
            let (n, at, lt) = below_cp z h found in (n, at, omega arith)

    module _ (start : ℕ) (cuts : Cuts sv e start top G) where
      live_round-Triple : Triple HeldG (live_round sv e start) (λ _. HeldG) HeldG
      unfolding live_round get_latest_block_number
      live_round-Triple =
          Triple-bind _ _ _ (with_retry-Triple (λ d h. h) e.max_retries sv.get_block_number)
            λ latest. Triple-fact _ λ (t, replied).
              let first : ℕ = compute_live_start_block e start latest in
              Triple-bind (on_host sv.others (prune_hot_before_block sv.answer first)) _
                (λ _. HeldG)
                (prune_hot_before_block-Triple sv e top limits carries first
                  (λ d inv g. cuts t latest d replied inv g))
                λ _.
                  Triple-bind (reconcile_hot_history sv e first) _ (λ _. HeldG)
                    (reconcile_hot_history-Triple sv e top limits carries first)
                    λ changed. live_rest-Triple first latest changed (limits.heads t latest replied)

      live_rounds-Triple :
          (rounds : ℕ) → Triple HeldG (live_rounds sv e rounds start) (λ _. HeldG) HeldG
      unfolding live_rounds
      live_rounds-Triple zero = Triple-pure tt
      live_rounds-Triple (suc n) =
          let rest = live_rounds-Triple n in
          Triple-bind (live_round sv e start) _ (λ _. HeldG) live_round-Triple (λ _. rest)

      run_live-Triple : (rounds : ℕ) → Triple HeldG (run_live sv e rounds start) (λ _. HeldG) HeldG
      unfolding run_live
      run_live-Triple rounds =
          Triple-bind (on_host sv.others (get_live_checkpoint sv.answer)) _ _
            (get_live_checkpoint-Triple sv e top limits carries)
            λ cp.
              Triple-bind (count _) _ (λ _. HeldG)
                (Triple-weaken _ (λ d h. (h.0.0, h.1)) (λ a d h. h) (Triple-count _))
                λ _. live_rounds-Triple rounds

      pub run_live-Held :
          (rounds : ℕ) (w : World)
          → HeldG w.host.database
          → HeldG (run_live sv e rounds start w).1.host.database
      run_live-Held rounds w h =
          settled (run_live sv e rounds start w) ((run_live-Triple rounds).at w h)
        where
          settled :
              (r : Result (Unit {0}) × World) → Post (λ _. HeldG) HeldG r → HeldG r.1.host.database
          settled (ok u, w') h = h
          settled (err c, w') h = h

  -- From a hot lane in order, however many rounds `run_live` makes, whichever requests to
  -- PostgreSQL or to the provider fail, if the reply to a commit is lost, whatever blocks, hashes
  -- and logs the provider reports up to the block `top`, and whichever of its transactions the
  -- finalized worker commits in between, where it rolls back from no block beyond `top`: the hot
  -- lane is in order afterwards, also where the worker ended with an error. Its transfers refer to
  -- stored blocks, and no block beyond the live checkpoint is stored.
  pub run_live-IsHot :
      (rounds start : ℕ) (w : World)
      → IsHot top w.host.database
      → IsHot top (run_live sv e rounds start w).1.host.database
  run_live-IsHot rounds start w inv =
      (run_live-Held hot_trivial start (λ t latest d replied inv g. tt) rounds w (inv, tt)).0
