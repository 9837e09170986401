-- ===== src/Ingestion/Workers.antt =====
-- crates/ingestion/src/lib.rs, lines 48 to 164: the loops of `run_backfill` and `run_live`. A
-- worker ends with an error only, so a run is counted in rounds; a round that is caught up ends
-- with the wait for the next poll.
use rust_ethereum_indexer.Prelude.{
  ℕ, zero, suc, ◌-◌, min, max, Bool, true, false, leb, if◌then◌else◌, Result, ok, err, Exec, pure,
  ◌>>=◌, ◌>>◌, saturating_add, add_sub_one,
}
use rust_ethereum_indexer.Storage.Calls.{
  get_checkpoint, get_live_checkpoint, prune_hot_before_block,
}
use rust_ethereum_indexer.Observability.Metrics.{
  record_checkpoint_resume, record_tip_lag, record_batch_failure,
}
use rust_ethereum_indexer.World.{Services, World, on_host, count}
use rust_ethereum_indexer.Rpc.Client.{get_latest_block_number}
use rust_ethereum_indexer.Ingestion.Engine.{BackfillEngine, compute_live_start_block}
use rust_ethereum_indexer.Ingestion.Steps.{
  process_finalized_range, process_hot_range, reconcile_finalized_history, reconcile_hot_history,
}

abbrev pub block_batch_size : ℕ
block_batch_size = 10

-- How a round of a worker's loop ends.
pub data Round : Type 0 where
  reconciled processed caught_up : Round

-- `if let Err(error) = … { record_batch_failure(…); return Err(error) }`
abbrev pub handled : Exec World (Unit {0}) → Result (Unit {0}) → Exec World (Unit {0})
handled handler (ok u) w = (ok u, w)
handled handler (err c) w = (err c, (handler w).1)

unfoldable pub failing : Exec World (Unit {0}) → Exec World (Unit {0}) → Exec World (Unit {0})
failing handler m w = let (r, w') = m w in handled handler r w'

-- end_block.saturating_sub(next).saturating_add(1)
abbrev pub blocks_in : ℕ → ℕ → ℕ
blocks_in next end_block = saturating_add (end_block - next) 1

-- std::cmp::min(next + BLOCK_BATCH_SIZE - 1, head)
abbrev pub batch_end : ℕ → ℕ → ℕ
batch_end next head = min (add_sub_one next block_batch_size) head

module _ (sv : Services) (e : BackfillEngine) where
  unfoldable pub finalize_next : ℕ → ℕ → ℕ → Exec World Round
  finalize_next next safe_head latest_block =
      if leb next safe_head
      then (do
        failing (count (record_batch_failure (blocks_in next (batch_end next safe_head))))
            (process_finalized_range sv e next (batch_end next safe_head) latest_block)
        pure processed)
      else pure caught_up

  -- The rest of a round of `run_backfill`, from the second reading of the checkpoint on.
  unfoldable pub backfill_rest : ℕ → ℕ → ℕ → Bool → Exec World Round
  unfolding finalize_next
  backfill_rest start_block safe_head latest_block true = pure reconciled
  backfill_rest start_block safe_head latest_block false = do
    finalized_checkpoint ← on_host sv.others (get_checkpoint sv.answer)
    finalize_next (max (saturating_add finalized_checkpoint 1) start_block) safe_head latest_block

  unfoldable pub backfill_round : ℕ → Exec World Round
  unfolding backfill_rest
  backfill_round start_block = do
    latest_block ← get_latest_block_number sv e.max_retries
    let safe_head = latest_block - e.confirmation_depth
    finalized_checkpoint ← on_host sv.others (get_checkpoint sv.answer)
    count (record_tip_lag "finalized" (safe_head - finalized_checkpoint))
    changed ←
        if leb start_block finalized_checkpoint
        then reconcile_finalized_history sv e start_block finalized_checkpoint
        else pure false
    backfill_rest start_block safe_head latest_block changed

  unfoldable pub backfill_rounds : ℕ → ℕ → Exec World (Unit {0})
  backfill_rounds zero start_block = pure tt
  backfill_rounds (suc n) start_block = do backfill_round start_block; backfill_rounds n start_block

  -- `run_backfill`, for its first `rounds` rounds
  unfoldable pub run_backfill : ℕ → ℕ → Exec World (Unit {0})
  unfolding backfill_rounds
  run_backfill rounds start_block = do
    checkpoint ← on_host sv.others (get_checkpoint sv.answer)
    count (record_checkpoint_resume "finalized" checkpoint start_block)
    backfill_rounds rounds start_block

  unfoldable pub heat_next : ℕ → ℕ → Exec World Round
  heat_next next latest_block =
      if leb next latest_block
      then (do
        failing (count (record_batch_failure (blocks_in next (batch_end next latest_block))))
            (process_hot_range sv e next (batch_end next latest_block) latest_block)
        pure processed)
      else pure caught_up

  -- The rest of a round of `run_live`, once the hot history is checked.
  unfoldable pub live_rest : ℕ → ℕ → Bool → Exec World Round
  unfolding heat_next
  live_rest live_start_block latest_block true = pure reconciled
  live_rest live_start_block latest_block false = do
    live_checkpoint ← on_host sv.others (get_live_checkpoint sv.answer)
    count (record_tip_lag "hot" (latest_block - live_checkpoint))
    heat_next (max (saturating_add live_checkpoint 1) live_start_block) latest_block

  unfoldable pub live_round : ℕ → Exec World Round
  unfolding live_rest
  live_round start_block = do
    latest_block ← get_latest_block_number sv e.max_retries
    let live_start_block = compute_live_start_block e start_block latest_block
    on_host sv.others (prune_hot_before_block sv.answer live_start_block)
    changed ← reconcile_hot_history sv e live_start_block
    live_rest live_start_block latest_block changed

  unfoldable pub live_rounds : ℕ → ℕ → Exec World (Unit {0})
  live_rounds zero start_block = pure tt
  live_rounds (suc n) start_block = do live_round start_block; live_rounds n start_block

  -- `run_live`, for its first `rounds` rounds
  unfoldable pub run_live : ℕ → ℕ → Exec World (Unit {0})
  unfolding live_rounds
  run_live rounds start_block = do
    checkpoint ← on_host sv.others (get_live_checkpoint sv.answer)
    count (record_checkpoint_resume "hot" checkpoint start_block)
    live_rounds rounds start_block
