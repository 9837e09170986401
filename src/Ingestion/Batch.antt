-- ===== src/Ingestion/Batch.antt =====
-- `process_finalized_range` of crates/ingestion/src/lib.rs while PostgreSQL and the provider serve:
-- the batch is committed, and the lane stays on the chain.
use rust_ethereum_indexer.Prelude.{
  ℕ, zero, suc, ◌+◌, ◌-◌, ◌*◌, ◌≤◌, ◌<◌, ◌≡◌, refl, sym, ap, ◌∙◌, none, some, List, [], ◌∷◌, Bytes,
  length, Bool-cases, Option-cases, inl, inr, arith, pos, ◌==ℤ◌, ==ℤ→eq, as_i64, as_i64-eq_pos,
  i64_limit,
}
use rust_ethereum_indexer.Storage.Tables.{Database, select_hash, upsert_all}
use rust_ethereum_indexer.Storage.Statements.{block_partition_size}
use rust_ethereum_indexer.Storage.Calls.{get_block_hash, commit_finalized_range}
use rust_ethereum_indexer.Storage.Blocks.{or_else, select_hash-upsert_all}
use rust_ethereum_indexer.Storage.Replay.{commit_finalized_range-Ends}
use rust_ethereum_indexer.Storage.Effects.{bound_blocks, finalized}
use rust_ethereum_indexer.World.{Services, Header, on_host, read_clock}
use rust_ethereum_indexer.Rpc.Client.{BlockMetadata}
use rust_ethereum_indexer.Ingestion.Payload.{indexed_blocks_of}
use rust_ethereum_indexer.Ingestion.Engine.{BackfillEngine, RangeBuild, is_conflict, first_conflict}
use rust_ethereum_indexer.Ingestion.Steps.{
  commit_finalized, build_range_payload, process_finalized_range,
}
use rust_ethereum_indexer.Ingestion.Keeps.{
  Triple, Triple-pure, Triple-bind, Triple-fact, Triple-weaken, Triple-if, Triple-clock,
}
use rust_ethereum_indexer.Ingestion.Gather.{Numbered, repeats-Numbered}
use rust_ethereum_indexer.Ingestion.Fetch.{Builds, build_range_payload-Triple}
use rust_ethereum_indexer.Ingestion.Total.{Never, Triple-ends, Triple-total}
use rust_ethereum_indexer.Ingestion.Serving.{IsServing, chain_blocks, build_range_payload-serves}
use rust_ethereum_indexer.Ingestion.Finalized.{records-Within}
use rust_ethereum_indexer.Ingestion.Reports.{report_success-Triple}
use rust_ethereum_indexer.Ingestion.Writes.{LiveWrites-SameFinalized}
use rust_ethereum_indexer.Ingestion.Backfill.{Confirms, plain}
use rust_ethereum_indexer.Ingestion.FinalizedBatch.{
  Next, Next-Steady, numbered, validate-Triple, committed,
}
use rust_ethereum_indexer.Ingestion.OnChain.{
  OnChain, OnChain-moved, Checkpoint, get_block_hash-serves,
}
use rust_ethereum_indexer.Ingestion.Recovery.{Good}

-- The rows of some blocks of the chain have the hashes of the chain.
pub chain_rows :
    (chain : ℕ → Header) (s k n : ℕ) (h : Bytes)
    → s + k ≤ i64_limit
    → select_hash (pos n) (bound_blocks (indexed_blocks_of (chain_blocks chain s k))) ≡ some h
    → h ≡ (chain n).hash
unfolding select_hash
chain_rows chain s zero n h fits found = absurd (ground arith)
chain_rows chain s (suc k) n h fits found =
    let cast : as_i64 s ≡ pos s = as_i64-eq_pos s (omega arith) in
    elim (Bool-cases (as_i64 s ==ℤ pos n)) [
      | inl here ↦
          let e : pos s ≡ pos n = sym cast ∙ ==ℤ→eq _ _ here in
          let e' : s ≡ n = ground arith in rw (← e') (ground arith)
      | inr later ↦ chain_rows chain (suc s) k n h (omega arith) (ground arith)
    ]

module _ (sv : Services) (e : BackfillEngine) (start top : ℕ) (positive : 0 < start)
    (limits : Confirms sv e top) (latest : ℕ) (chain : ℕ → Header)
    (serving : IsServing sv e top latest chain) where
  -- The next range, on a lane that is on the chain.
  abbrev pub Ready : ℕ → Database → Type 0
  Ready s d = Next sv e start top positive limits s d × OnChain chain d

  Ready-kept : (s t : ℕ) (d : Database) → Ready s d → Ready s (sv.others t d)
  Ready-kept s t d (next, on) = (
    (Next-Steady sv e start top positive limits s).kept t d next,
    OnChain-moved chain d _ (LiveWrites-SameFinalized (limits.alone t d)) on,
  )

  first_conflict-serves :
      {P : Database → Type 0} (bs : List (ℕ × Bytes))
      → ((t : ℕ) (d : Database) → P d → P (sv.others t d))
      → Triple P
          (first_conflict (λ n. on_host sv.others (get_block_hash sv.answer n)) bs)
          (λ _. P)
          Never
  unfolding first_conflict
  first_conflict-serves [] kept = Triple-pure none
  first_conflict-serves ((n, hash) ∷ bs) kept =
      let rest = first_conflict-serves bs kept in
      Triple-bind (on_host sv.others (get_block_hash sv.answer n)) _ _
        (get_block_hash-serves sv serving.answers n kept)
        λ o.
          Triple-weaken _ (λ d h. h.1) (λ a d h. h)
            (Triple-if (is_conflict o hash) _ _ (λ _. Triple-pure (some n)) (λ _. rest))

  module _ (s c latest_block t₀ : ℕ) (s_le_c : s ≤ c) (c_le_top : c ≤ top) (build : RangeBuild)
      (built : Builds sv e s c build.payload)
      (of_chain : build.payload.block_metadata ≡ chain_blocks chain s (suc c - s)) where
    room : top + 2 * block_partition_size < i64_limit
    room = limits.room

    abbrev bs : List BlockMetadata
    bs = build.payload.block_metadata

    bs-Numbered : Numbered s bs × (length bs ≡ suc c - s)
    bs-Numbered =
        numbered sv e start top positive limits s c latest_block t₀ s_le_c c_le_top build built

    abbrev after : Database → Database
    after = finalized build.payload.transfer_records build.payload.indexed_blocks s c

    -- The rows of the payload are those of its blocks.
    look :
        (d : Database) (n : ℕ)
        → select_hash
            (pos n)
            (upsert_all d.indexed_blocks (bound_blocks build.payload.indexed_blocks))
          ≡ or_else
              (select_hash (pos n) (bound_blocks (indexed_blocks_of bs)))
              (select_hash (pos n) d.indexed_blocks)
    look d n = rw built.indexed (
        select_hash-upsert_all (pos n) d.indexed_blocks _
          (repeats-Numbered s bs bs-Numbered.0 (omega (arith, bs-Numbered.1, room))))

    committed-OnChain : (d : Database) → OnChain chain d → OnChain chain (after d)
    unfolding finalized
    committed-OnChain d on n h found =
        elim (Option-cases (select_hash (pos n) (bound_blocks (indexed_blocks_of bs)))) [
          | inl old ↦ on n h (ground (arith, look d n))
          | inr (h', new) ↦
              let same : h' ≡ h = ground (arith, look d n) in
              sym same
              ∙ chain_rows chain s (suc c - s) n h' (omega (arith, room)) (
                  ap (λ bs. select_hash (pos n) (bound_blocks (indexed_blocks_of bs)))
                    (sym of_chain)
                  ∙ new)
        ]

    committed_at : (d : Database) → Ready s d → Checkpoint c (after d)
    unfolding finalized
    committed_at d ((inv, next), on) =
        rw (inv.checkpoint, as_i64-eq_pos c (omega (arith, room))) refl

    abbrev Done : Database → Type 0
    Done d = Good sv e start top positive limits latest chain serving d × Checkpoint c d

    committed-Done : (d : Database) → Ready s d → Done (after d)
    committed-Done d ready = (
      (
        committed sv e start top positive limits s c latest_block t₀ s_le_c c_le_top build built d
            ready.0,
        committed-OnChain d ready.1,
      ),
      committed_at d ready,
    )

    commit_finalized-serves :
        Triple (Ready s) (commit_finalized sv e s c latest_block t₀ build none) (λ _. Done) Never
    unfolding commit_finalized
    commit_finalized-serves =
        Triple-bind (read_clock sv.instant) _ (λ _. Ready s) (Triple-clock _)
          λ t₁.
            Triple-bind _ _ (λ _. Done) commit
              λ stats. report_success-Triple sv e "finalized" s c latest_block build stats t₀ t₁
      where
        commit :
            Triple
              (Ready s)
              (on_host sv.others (
                commit_finalized_range sv.answer build.payload.transfer_records
                  build.payload.indexed_blocks s c))
              (λ _. Done)
              Never
        commit = rw serving.answers (
            Triple-ends sv.others _ (Ready-kept s) λ h ready. (
              _,
              after h.database,
              commit_finalized_range-Ends s c build.payload.transfer_records
                  build.payload.indexed_blocks (omega (arith, room))
                  (records-Within start top room s c bs build.payload.transfer_records h.database
                    ready.0.0 ready.0.1 s_le_c c_le_top bs-Numbered.0 (omega (arith, bs-Numbered.1))
                    built.records)
                  (rw built.indexed
                    (repeats-Numbered s bs bs-Numbered.0 (omega (arith, bs-Numbered.1, room))))
                  s c h ready.0.0.aligned,
              committed-Done h.database ready,
            ))

    validate-serves :
        Triple
          (Ready s)
          (first_conflict
            (λ n. on_host sv.others (get_block_hash sv.answer n))
            build.payload.indexed_blocks)
          (λ o d. (o ≡ none) × Ready s d)
          Never
    validate-serves =
        Triple-weaken _ (λ d h. h) (λ o d h. (h.0.0, h.1))
          (Triple-total _
            (Triple-weaken _ (λ d h. (h.0, tt)) (λ o d h. h)
              (validate-Triple sv e start top positive limits plain s c latest_block t₀ s_le_c
                c_le_top build built))
            (first_conflict-serves build.payload.indexed_blocks (Ready-kept s)))

  pub process_finalized_range-serves :
      (s c latest_block : ℕ)
      → s ≤ c
      → c ≤ top
      → Triple
          (Ready s)
          (process_finalized_range sv e s c latest_block)
          (λ _ d. Good sv e start top positive limits latest chain serving d × Checkpoint c d)
          Never
  unfolding process_finalized_range
  process_finalized_range-serves s c latest_block le small =
      Triple-bind (read_clock sv.instant) _ (λ _. Ready s) (Triple-clock _)
        λ t₀.
          Triple-bind (build_range_payload sv e s c) _ _
            (Triple-total _ (build_range_payload-Triple {E = λ _. Unit} (λ d h. tt) sv e s c)
              (build_range_payload-serves sv e top latest chain serving s c le small))
            λ build.
              Triple-weaken _ (λ d h. ((h.0.0, h.1.0), h.1.1)) (λ a d h. h)
                (Triple-fact _ λ (built, of_chain).
                  Triple-bind _ _ _
                    (validate-serves s c latest_block t₀ le small build built of_chain)
                    λ o. Triple-fact _ λ clean.
                      rw clean
                        (commit_finalized-serves s c latest_block t₀ le small build built of_chain))
