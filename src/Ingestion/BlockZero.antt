-- ===== src/Ingestion/BlockZero.antt =====
-- crates/ingestion/src/lib.rs, lines 48 to 104 and 285 to 319: `run_backfill` with start block 0.
use mathlib.Core.Option
use rust_ethereum_indexer.Prelude.{
  leb_ℤ, pos, ℕ, zero, suc, true, ◌≡◌, refl, ap, ◌∙◌, none, [], ◌∷◌, arith, as_i64, as_u64, keep_if,
  Result, ok, err, pure,
}
use rust_ethereum_indexer.Storage.Tables.{
  Database, migrated, select_hash, delete_transfers, delete_blocks,
}
use rust_ethereum_indexer.Storage.Statements.{one_row, reads, get_block_hash_from_table}
use rust_ethereum_indexer.Storage.Calls.{get_checkpoint, get_block_hash, rollback_from_block}
use rust_ethereum_indexer.Storage.Atomic.{rollback_from_block-Settles}
use rust_ethereum_indexer.Storage.Effects.{rolled_back}
use rust_ethereum_indexer.Observability.Metrics.{record_rollback, record_reorg_detected}
use rust_ethereum_indexer.World.{Services, World, on_host, count}
use rust_ethereum_indexer.Rpc.Client.{get_latest_block_number}
use rust_ethereum_indexer.Ingestion.Engine.{
  BackfillEngine, numbers_from, finalized_validation_start,
}
use rust_ethereum_indexer.Ingestion.Steps.{
  fetch_block_metadata, handle_finalized_reorg, revalidate_finalized, reconcile_finalized_history,
}
use rust_ethereum_indexer.Ingestion.Workers.{
  reconciled, backfill_rest, backfill_round, backfill_rounds, run_backfill,
}
use rust_ethereum_indexer.Ingestion.Keeps.{
  Steady, Post, Triple, Triple-pure, Triple-bind, Triple-fact, Triple-weaken, Triple-count,
  Triple-read, Triple-read_map, Triple-settles,
}
use rust_ethereum_indexer.Ingestion.Writes.{LiveWrites, SameFinalized, LiveWrites-SameFinalized}
use rust_ethereum_indexer.Ingestion.Fetch.{with_retry-Triple, fetch_block_metadata-Triple}

-- The finalized lane is as the migrations left it.
abbrev IsMigrated : Database → Type 0
IsMigrated d = SameFinalized migrated d

rolled_back-IsMigrated : (d : Database) → IsMigrated d → IsMigrated (rolled_back 0 d)
unfolding rolled_back delete_transfers delete_blocks as_i64 keep_if
rolled_back-IsMigrated d m = record {
  transfers = ap (delete_transfers (leb_ℤ (pos 0))) m.transfers;
  blocks = ap (delete_blocks (leb_ℤ (pos 0))) m.blocks;
  checkpoint = ap (Option.map (λ _. pos 0)) m.checkpoint;
}

same : (d : Database) → IsMigrated d → IsMigrated d
same d h = h

one_row_reads : (d d' : Database) (z : _) → one_row d.indexer_checkpoint d ≡ ok (z, d') → d' ≡ d
one_row_reads d d' z h = ground arith

module _ (sv : Services) (e : BackfillEngine)
    (alone : (t : ℕ) (d : Database) → LiveWrites d (sv.others t d)) where
  moved : (t : ℕ) (d : Database) → IsMigrated d → IsMigrated (sv.others t d)
  moved t d m =
      let s = LiveWrites-SameFinalized (alone t d) in
      record {
        transfers = s.transfers ∙ m.transfers;
        blocks = s.blocks ∙ m.blocks;
        checkpoint = s.checkpoint ∙ m.checkpoint;
      }

  steady : Steady sv.others IsMigrated IsMigrated
  steady = record { safe = same; kept = moved }

  read_zero :
      (cp : ℕ) (d : Database) (z : _)
      → IsMigrated d
      → one_row d.indexer_checkpoint d ≡ ok (z, d)
      → cp ≡ as_u64 z
      → cp ≡ 0
  unfolding as_u64
  read_zero cp d z m read e = ground (arith, m.checkpoint)

  get_checkpoint-zero :
      Triple IsMigrated
        (on_host sv.others (get_checkpoint sv.answer))
        (λ cp d. (cp ≡ 0) × IsMigrated d)
        IsMigrated
  unfolding get_checkpoint
  get_checkpoint-zero =
      Triple-weaken _ same (λ cp d (read, m). (read_zero cp d read.0 m read.1 read.2, m))
        (Triple-read_map sv.others steady sv.answer (λ d. one_row d.indexer_checkpoint d) as_u64
          one_row_reads)

  get_block_hash-none :
      Triple IsMigrated
        (on_host sv.others (get_block_hash sv.answer 0))
        (λ o d. (o ≡ none) × IsMigrated d)
        IsMigrated
  unfolding get_block_hash get_block_hash_from_table select_hash
  get_block_hash-none =
      Triple-weaken _ same
        (λ o d (read, m). (ground (arith, ap (select_hash (as_i64 0)) m.blocks), m))
        (Triple-read sv.others steady sv.answer
          (reads (λ d. select_hash (as_i64 0) d.indexed_blocks)) (λ d d' a h. ground arith))

  handle_finalized_reorg-zero :
      Triple IsMigrated (handle_finalized_reorg sv e 0) (λ _. IsMigrated) IsMigrated
  unfolding handle_finalized_reorg
  handle_finalized_reorg-zero =
      Triple-bind (count record_rollback) _ (λ _. IsMigrated) (Triple-count _)
        λ _.
          Triple-settles sv.others steady (rollback_from_block sv.answer 0) (λ _. tt)
            (rolled_back 0) (λ h _. rollback_from_block-Settles sv.answer 0 h)
            rolled_back-IsMigrated rolled_back-IsMigrated

  revalidate-zero :
      Triple IsMigrated
        (revalidate_finalized sv e (0 ∷ []))
        (λ changed d. (changed ≡ true) × IsMigrated d)
        IsMigrated
  unfolding revalidate_finalized
  revalidate-zero =
      Triple-bind (fetch_block_metadata sv e 0) _ _ (fetch_block_metadata-Triple same sv e 0) λ b.
        Triple-fact _ λ fetched.
          Triple-bind (on_host sv.others (get_block_hash sv.answer 0)) _ _ get_block_hash-none λ o.
            Triple-fact _ λ missing. rw missing (
              Triple-bind (count record_reorg_detected) _ (λ _. IsMigrated) (Triple-count _)
                λ _.
                  Triple-bind (handle_finalized_reorg sv e 0) _ (λ _. IsMigrated)
                    handle_finalized_reorg-zero
                    λ _.
                      Triple-weaken (pure true) (λ d m. (refl, m)) (λ a d h. h) (Triple-pure true))

  validation_start-zero : finalized_validation_start e 0 0 ≡ 0
  unfolding finalized_validation_start
  validation_start-zero = omega arith

  reconcile-zero :
      Triple IsMigrated
        (reconcile_finalized_history sv e 0 0)
        (λ changed d. (changed ≡ true) × IsMigrated d)
        IsMigrated
  unfolding reconcile_finalized_history numbers_from
  reconcile-zero = rw validation_start-zero revalidate-zero

  backfill_round-zero :
      Triple IsMigrated (backfill_round sv e 0) (λ r d. (r ≡ reconciled) × IsMigrated d) IsMigrated
  unfolding backfill_round get_latest_block_number backfill_rest
  backfill_round-zero =
      Triple-bind _ _ _ (with_retry-Triple same e.max_retries sv.get_block_number) λ latest.
        Triple-fact _ λ replied.
          Triple-bind (on_host sv.others (get_checkpoint sv.answer)) _ _ get_checkpoint-zero λ cp.
            Triple-fact _ λ at_zero.
              Triple-bind (count _) _ (λ _. IsMigrated) (Triple-count _)
                λ _. rw at_zero (
                  Triple-bind _ _ _ reconcile-zero λ changed. Triple-fact _ λ yes. rw yes (
                    Triple-weaken (pure reconciled) (λ d m. (refl, m)) (λ a d h. h)
                      (Triple-pure reconciled)))

  backfill_rounds-zero :
      (rounds : ℕ) → Triple IsMigrated (backfill_rounds sv e rounds 0) (λ _. IsMigrated) IsMigrated
  unfolding backfill_rounds
  backfill_rounds-zero zero = Triple-pure tt
  backfill_rounds-zero (suc n) =
      let rest = backfill_rounds-zero n in
      Triple-bind (backfill_round sv e 0) _ _ backfill_round-zero
        (λ _. Triple-weaken _ (λ d h. h.1) (λ a d h. h) rest)

  run_backfill-zero :
      (rounds : ℕ) → Triple IsMigrated (run_backfill sv e rounds 0) (λ _. IsMigrated) IsMigrated
  unfolding run_backfill
  run_backfill-zero rounds =
      Triple-bind (on_host sv.others (get_checkpoint sv.answer)) _ _ get_checkpoint-zero λ cp.
        Triple-bind (count _) _ (λ _. IsMigrated)
          (Triple-weaken _ (λ d h. h.1) (λ a d h. h) (Triple-count _))
          λ _. backfill_rounds-zero rounds

  -- With start block 0, and on a finalized lane as the migrations leave it, `run_backfill` indexes
  -- nothing, however many rounds it makes, whatever the provider and PostgreSQL answer and whatever
  -- the live worker writes: afterwards the finalized lane is as the migrations left it.
  pub run_backfill-migrated :
      (rounds : ℕ) (w : World)
      → SameFinalized migrated w.host.database
      → SameFinalized migrated (run_backfill sv e rounds 0 w).1.host.database
  run_backfill-migrated rounds w m =
      settled (run_backfill sv e rounds 0 w) ((run_backfill-zero rounds).at w m)
    where
      settled :
          (r : Result (Unit {0}) × World)
          → Post (λ _. IsMigrated) IsMigrated r
          → IsMigrated r.1.host.database
      settled (ok u, w') h = h
      settled (err c, w') h = h
