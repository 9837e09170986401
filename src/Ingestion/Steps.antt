-- ===== src/Ingestion/Steps.antt =====
-- crates/ingestion/src/lib.rs: the methods of `BackfillEngine` that talk to the provider or to
-- PostgreSQL. Blocks are fetched one after the other; the code has up to four such requests open,
-- in the same order.
use rust_ethereum_indexer.Prelude.{
  ℕ, ◌-◌, Bool, true, false, Option, none, some, List, [], ◌∷◌, Bytes, bytes_eq, length, ◌==◌,
  if◌then◌else◌, block_not_found, Exec, pure, lift, ◌>>=◌, ◌>>◌,
}
use Prim.Native.String.{String}
use rust_ethereum_indexer.Storage.Calls.{
  CommitStats, commit_finalized_range, commit_hot_range, get_block_hash, get_hot_block_hash,
  rollback_from_block, rollback_hot_from_block,
}
use rust_ethereum_indexer.Observability.Metrics.{
  BatchMetrics, record_reorg_detected, record_rollback, record_block_ingestion_delay,
  record_batch_success,
}
use rust_ethereum_indexer.World.{Services, World, on_host, count, read_clock}
use rust_ethereum_indexer.Rpc.Client.{
  BlockMetadata, fetch_erc20_transfer_logs, get_latest_block_number, get_block_metadata,
}
use rust_ethereum_indexer.Ingestion.Payload.{gather, payload_of}
use rust_ethereum_indexer.Ingestion.Engine.{
  BackfillEngine, RangeBuild, inclusive, address_filter, finalized_validation_start,
  hot_validation_start, found_or, delays, is_valid, first_conflict,
}

module _ (sv : Services) (e : BackfillEngine) where
  unfoldable pub fetch_block_metadata : ℕ → Exec World BlockMetadata
  fetch_block_metadata block_number = do
    found ← get_block_metadata sv e.max_retries block_number
    found_or (block_not_found block_number) found

  unfoldable pub fetch_all : List ℕ → Exec World (List BlockMetadata)
  unfolding fetch_block_metadata
  fetch_all [] = pure []
  fetch_all (n ∷ ns) = do b ← fetch_block_metadata n; bs ← fetch_all ns; pure (b ∷ bs)

  unfoldable pub fetch_block_metadata_range : ℕ → ℕ → Exec World (List BlockMetadata)
  fetch_block_metadata_range start_block end_block = fetch_all (inclusive start_block end_block)

  unfoldable pub build_range_payload : ℕ → ℕ → Exec World RangeBuild
  build_range_payload start_block end_block = do
    block_fetch_started_at ← read_clock sv.instant
    block_metadata ← fetch_block_metadata_range start_block end_block
    block_fetched_at ← read_clock sv.instant
    logs ←
        fetch_erc20_transfer_logs sv e.max_retries start_block end_block
          (address_filter e.contract_address)
    logs_fetched_at ← read_clock sv.instant
    gathered ← lift (gather block_metadata logs (record { records = []; unique_transactions = [] }))
    decoded_at ← read_clock sv.instant
    pure (record {
      payload = payload_of block_metadata gathered;
      block_fetch_duration = block_fetched_at - block_fetch_started_at;
      log_fetch_duration = logs_fetched_at - block_fetched_at;
      decode_duration = decoded_at - logs_fetched_at;
    })

  unfoldable pub handle_finalized_reorg : ℕ → Exec World (Unit {0})
  handle_finalized_reorg block_number = do
    count record_rollback
    on_host sv.others (rollback_from_block sv.answer block_number)

  unfoldable pub handle_hot_reorg : ℕ → Exec World (Unit {0})
  handle_hot_reorg block_number = do
    count record_rollback
    on_host sv.others (rollback_hot_from_block sv.answer block_number)

  unfoldable pub record_delays : ℕ → List BlockMetadata → Exec World (Unit {0})
  record_delays now [] = pure tt
  record_delays now (b ∷ bs) = do
    count (record_block_ingestion_delay (now - b.timestamp))
    record_delays now bs

  unfoldable pub build_batch_metrics :
      String → ℕ → ℕ → ℕ → RangeBuild → CommitStats → ℕ → ℕ → Exec World BatchMetrics
  build_batch_metrics lane start_block end_block latest_block build commit_stats db_commit_duration
        total_duration =
      do
        ingestion_now ← read_clock sv.unix_timestamp_secs
        record_delays ingestion_now build.payload.block_metadata
        let d = delays ingestion_now build.payload.block_metadata
        let blocks = length build.payload.indexed_blocks
        pure (record {
          lane = lane;
          start_block = start_block;
          end_block = end_block;
          latest_block = latest_block;
          checkpoint = end_block;
          blocks = blocks;
          events = length build.payload.transfer_records;
          tx_count = build.payload.tx_count;
          duplicate_events = commit_stats.duplicate_transfers;
          tip_lag_blocks = latest_block - end_block;
          avg_ingestion_delay_secs =
              if blocks == 0
              then record { numerator = 0; denominator = 1 }
              else record { numerator = d.0; denominator = blocks };
          max_ingestion_delay_secs = d.1;
          block_fetch_duration = build.block_fetch_duration;
          log_fetch_duration = build.log_fetch_duration;
          decode_duration = build.decode_duration;
          db_commit_duration = db_commit_duration;
          total_duration = total_duration;
        })

  -- `record_batch_success(self.build_batch_metrics(…))`
  unfoldable pub report_success :
      String → ℕ → ℕ → ℕ → RangeBuild → CommitStats → ℕ → ℕ → Exec World (Unit {0})
  report_success lane start_block end_block latest_block build commit_stats started_at
        db_started_at =
      do
        committed_at ← read_clock sv.instant
        batch ←
            build_batch_metrics lane start_block end_block latest_block build commit_stats
              (committed_at - db_started_at) (committed_at - started_at)
        now ← read_clock sv.unix_timestamp_secs
        count (record_batch_success now batch)

  -- After the validation of `process_finalized_range`.
  unfoldable pub commit_finalized : ℕ → ℕ → ℕ → ℕ → RangeBuild → Option ℕ → Exec World (Unit {0})
  commit_finalized start_block end_block latest_block started_at build (some block_number) = do
    count record_reorg_detected
    handle_finalized_reorg block_number
  commit_finalized start_block end_block latest_block started_at build none = do
    db_started_at ← read_clock sv.instant
    commit_stats ← on_host sv.others (
        commit_finalized_range sv.answer build.payload.transfer_records build.payload.indexed_blocks
          start_block end_block)
    report_success "finalized" start_block end_block latest_block build commit_stats started_at
        db_started_at

  unfoldable pub process_finalized_range : ℕ → ℕ → ℕ → Exec World (Unit {0})
  process_finalized_range start_block end_block latest_block = do
    started_at ← read_clock sv.instant
    build ← build_range_payload start_block end_block
    conflict ←
        first_conflict (λ n. on_host sv.others (get_block_hash sv.answer n))
          build.payload.indexed_blocks
    commit_finalized start_block end_block latest_block started_at build conflict

  -- After the validation of `process_hot_range`.
  unfoldable pub commit_hot : ℕ → ℕ → ℕ → ℕ → RangeBuild → Option ℕ → Exec World (Unit {0})
  commit_hot start_block end_block latest_block started_at build (some block_number) = do
    count record_reorg_detected
    handle_hot_reorg block_number
  commit_hot start_block end_block latest_block started_at build none = do
    db_started_at ← read_clock sv.instant
    commit_stats ← on_host sv.others (
        commit_hot_range sv.answer build.payload.transfer_records build.payload.indexed_blocks
          end_block)
    report_success "hot" start_block end_block latest_block build commit_stats started_at
        db_started_at

  unfoldable pub process_hot_range : ℕ → ℕ → ℕ → Exec World (Unit {0})
  process_hot_range start_block end_block latest_block = do
    started_at ← read_clock sv.instant
    build ← build_range_payload start_block end_block
    conflict ←
        first_conflict (λ n. on_host sv.others (get_hot_block_hash sv.answer n))
          build.payload.indexed_blocks
    commit_hot start_block end_block latest_block started_at build conflict

  -- The loop of `reconcile_finalized_history`: a block whose stored hash is not that of the chain,
  -- or that is not stored, is rolled back.
  unfoldable pub revalidate_finalized : List ℕ → Exec World Bool
  revalidate_finalized [] = pure false
  revalidate_finalized (block_number ∷ rest) = do
    chain_block ← fetch_block_metadata block_number
    stored ← on_host sv.others (get_block_hash sv.answer block_number)
    if is_valid stored chain_block.hash
        then revalidate_finalized rest
        else (do count record_reorg_detected; handle_finalized_reorg block_number; pure true)

  unfoldable pub reconcile_finalized_history : ℕ → ℕ → Exec World Bool
  reconcile_finalized_history start_block checkpoint =
      revalidate_finalized
        (inclusive (finalized_validation_start e start_block checkpoint) checkpoint)

  abbrev pub check_hot : ℕ → Exec World Bool → Option Bytes → Exec World Bool
  check_hot block_number next none = next
  check_hot block_number next (some stored_hash) = do
    chain_block ← fetch_block_metadata block_number
    if bytes_eq stored_hash chain_block.hash
        then next
        else (do count record_reorg_detected; handle_hot_reorg block_number; pure true)

  -- The loop of `reconcile_hot_history`: a block that is not stored is passed over.
  unfoldable pub revalidate_hot : List ℕ → Exec World Bool
  revalidate_hot [] = pure false
  revalidate_hot (block_number ∷ rest) = do
    stored ← on_host sv.others (get_hot_block_hash sv.answer block_number)
    check_hot block_number (revalidate_hot rest) stored

  unfoldable pub reconcile_hot_history : ℕ → Exec World Bool
  reconcile_hot_history start_block = do
    latest_block ← get_latest_block_number sv e.max_retries
    revalidate_hot (inclusive (hot_validation_start e start_block latest_block) latest_block)
