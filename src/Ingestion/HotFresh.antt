-- ===== src/Ingestion/HotFresh.antt =====
-- `run_live` of crates/ingestion/src/lib.rs while PostgreSQL and the provider serve: the hot lane
-- shows blocks of the chain only.
use rust_ethereum_indexer.Prelude.{
  ℕ, suc, ◌+◌, ◌-◌, ◌*◌, ◌≤◌, ◌<◌, ◌≡◌, sym, ap, ◌∙◌, inl, inr, none, some, List, [], ◌∷◌, Bytes,
  Option-cases, length, arith, pos, i64_limit,
}
use rust_ethereum_indexer.Storage.Tables.{Database, select_hash, upsert_all}
use rust_ethereum_indexer.Storage.Statements.{block_partition_size}
use rust_ethereum_indexer.Storage.Calls.{get_hot_block_hash, commit_hot_range}
use rust_ethereum_indexer.Storage.Blocks.{or_else, select_hash-upsert_all}
use rust_ethereum_indexer.Storage.Replay.{commit_hot_range-Ends}
use rust_ethereum_indexer.Storage.Effects.{bound_blocks, heated}
use rust_ethereum_indexer.World.{Services, Header, on_host, read_clock}
use rust_ethereum_indexer.Rpc.Client.{BlockMetadata}
use rust_ethereum_indexer.Ingestion.Payload.{RangePayload, indexed_blocks_of}
use rust_ethereum_indexer.Ingestion.Engine.{BackfillEngine, RangeBuild, is_conflict, first_conflict}
use rust_ethereum_indexer.Ingestion.Steps.{commit_hot, process_hot_range, build_range_payload}
use rust_ethereum_indexer.Ingestion.Keeps.{
  Triple, Triple-pure, Triple-bind, Triple-fact, Triple-weaken, Triple-if, Triple-clock,
}
use rust_ethereum_indexer.Ingestion.Gather.{Numbered, repeats-Numbered}
use rust_ethereum_indexer.Ingestion.Fetch.{Builds, build_range_payload-Triple}
use rust_ethereum_indexer.Ingestion.Reports.{report_success-Triple}
use rust_ethereum_indexer.Ingestion.Total.{Never, Triple-ends, Triple-total}
use rust_ethereum_indexer.Ingestion.Serving.{IsServing, chain_blocks, build_range_payload-serves}
use rust_ethereum_indexer.Ingestion.Hot.{StoredBelow, hot-Within}
use rust_ethereum_indexer.Ingestion.Live.{Heads, hot_trivial, moved_below}
use rust_ethereum_indexer.Ingestion.HotBatch.{numbered, committed, validate-Triple}
use rust_ethereum_indexer.Ingestion.Batch.{chain_rows}
use rust_ethereum_indexer.Ingestion.HotStates.{HotGood, HotGood-kept}
use rust_ethereum_indexer.Ingestion.HotCalls.{HotOnChain, get_hot_block_hash-serves}

module _ (sv : Services) (e : BackfillEngine) (top : ℕ) (limits : Heads sv top) (latest : ℕ)
    (chain : ℕ → Header) (serving : IsServing sv e top latest chain) where
  abbrev Fine : Database → Type 0
  Fine = HotGood sv e top limits latest chain serving

  -- The next range, on a lane that is on the chain.
  abbrev pub HotReady : ℕ → Database → Type 0
  HotReady s d = Fine d × StoredBelow s d

  pub HotReady-kept : (s t : ℕ) (d : Database) → HotReady s d → HotReady s (sv.others t d)
  HotReady-kept s t d (fine, below) = (
    HotGood-kept sv e top limits latest chain serving t d fine,
    moved_below sv e top limits s t d below,
  )

  hot_conflict-serves :
      {P : Database → Type 0} (bs : List (ℕ × Bytes))
      → ((t : ℕ) (d : Database) → P d → P (sv.others t d))
      → Triple P
          (first_conflict (λ n. on_host sv.others (get_hot_block_hash sv.answer n)) bs)
          (λ _. P)
          Never
  unfolding first_conflict
  hot_conflict-serves [] kept = Triple-pure none
  hot_conflict-serves ((n, hash) ∷ bs) kept =
      let rest = hot_conflict-serves bs kept in
      Triple-bind (on_host sv.others (get_hot_block_hash sv.answer n)) _ _
        (get_hot_block_hash-serves sv serving.answers n kept)
        λ o.
          Triple-weaken _ (λ d h. h.1) (λ a d h. h)
            (Triple-if (is_conflict o hash) _ _ (λ _. Triple-pure (some n)) (λ _. rest))

  -- With a condition `C` that goes along, and with what a commit of the blocks from `s` to `c`
  -- makes of it.
  module _ (C Q : Database → Type 0) (kept : (t : ℕ) (d : Database) → C d → C (sv.others t d))
      (s c head t₀ : ℕ) (s_le_c : s ≤ c) (c_le_top : c ≤ top)
      (makes : (p : RangePayload)
        → Builds sv e s c p
        → (d : Database) → HotReady s d
        → C d
        → Q (heated p.transfer_records p.indexed_blocks c d))
      (build : RangeBuild) (built : Builds sv e s c build.payload)
      (of_chain : build.payload.block_metadata ≡ chain_blocks chain s (suc c - s)) where
    abbrev ReadyC : Database → Type 0
    ReadyC d = HotReady s d × C d

    ReadyC-kept : (t : ℕ) (d : Database) → ReadyC d → ReadyC (sv.others t d)
    ReadyC-kept t d (ready, held) = (HotReady-kept s t d ready, kept t d held)

    abbrev FineQ : Database → Type 0
    FineQ d = Fine d × Q d

    room : top + 2 * block_partition_size < i64_limit
    room = limits.room

    abbrev bs : List BlockMetadata
    bs = build.payload.block_metadata

    bs-Numbered : Numbered s bs × (length bs ≡ suc c - s)
    bs-Numbered = numbered sv e top limits s c head t₀ s_le_c c_le_top build built

    abbrev after : Database → Database
    after = heated build.payload.transfer_records build.payload.indexed_blocks c

    look :
        (d : Database) (n : ℕ)
        → select_hash
            (pos n)
            (upsert_all d.hot_indexed_blocks (bound_blocks build.payload.indexed_blocks))
          ≡ or_else
              (select_hash (pos n) (bound_blocks (indexed_blocks_of bs)))
              (select_hash (pos n) d.hot_indexed_blocks)
    look d n = rw built.indexed (
        select_hash-upsert_all (pos n) d.hot_indexed_blocks _
          (repeats-Numbered s bs bs-Numbered.0 (omega (arith, bs-Numbered.1, room))))

    committed-HotOnChain : (d : Database) → HotOnChain chain d → HotOnChain chain (after d)
    unfolding heated
    committed-HotOnChain d on n h found =
        elim (Option-cases (select_hash (pos n) (bound_blocks (indexed_blocks_of bs)))) [
          | inl old ↦ on n h (ground (arith, look d n))
          | inr (h', new) ↦
              let same : h' ≡ h = ground (arith, look d n) in
              sym same
              ∙ chain_rows chain s (suc c - s) n h' (omega (arith, room)) (
                  ap (λ bs. select_hash (pos n) (bound_blocks (indexed_blocks_of bs)))
                    (sym of_chain)
                  ∙ new)
        ]

    commit_hot-serves : Triple ReadyC (commit_hot sv e s c head t₀ build none) (λ _. FineQ) Never
    unfolding commit_hot
    commit_hot-serves =
        Triple-bind (read_clock sv.instant) _ (λ _. ReadyC) (Triple-clock _)
          λ t₁.
            Triple-bind _ _ (λ _. FineQ) commit
              λ stats. report_success-Triple sv e "hot" s c head build stats t₀ t₁
      where
        commit :
            Triple ReadyC
              (on_host sv.others (
                commit_hot_range sv.answer build.payload.transfer_records
                  build.payload.indexed_blocks c))
              (λ _. FineQ)
              Never
        commit = rw serving.answers (
            Triple-ends sv.others _ ReadyC-kept λ h (((inv, on), below), held). (
              _,
              after h.database,
              commit_hot_range-Ends s c build.payload.transfer_records build.payload.indexed_blocks
                  (omega (arith, room))
                  (hot-Within top room s c bs build.payload.transfer_records h.database inv below
                    s_le_c c_le_top bs-Numbered.0 (omega (arith, bs-Numbered.1)) built.records)
                  (rw built.indexed
                    (repeats-Numbered s bs bs-Numbered.0 (omega (arith, bs-Numbered.1, room))))
                  s c h inv.aligned,
              (
                (
                  committed sv e top limits s c head t₀ s_le_c c_le_top build built h.database
                      (inv, below),
                  committed-HotOnChain h.database on,
                ),
                makes build.payload built h.database ((inv, on), below) held,
              ),
            ))

    validate-serves :
        Triple ReadyC
          (first_conflict
            (λ n. on_host sv.others (get_hot_block_hash sv.answer n))
            build.payload.indexed_blocks)
          (λ o d. (o ≡ none) × ReadyC d)
          Never
    validate-serves =
        Triple-weaken _ (λ d h. h) (λ o d h. (h.0.0, h.1))
          (Triple-total _
            (Triple-weaken _ (λ d h. ((h.0.0.0, h.0.1), tt)) (λ o d h. h)
              (validate-Triple sv e top limits hot_trivial s c head t₀ s_le_c c_le_top build built))
            (hot_conflict-serves build.payload.indexed_blocks ReadyC-kept))

  pub process_hot_range-serves :
      (C Q : Database → Type 0)
      → ((t : ℕ) (d : Database) → C d → C (sv.others t d))
      → (s c head : ℕ) → s ≤ c
      → c ≤ top
      → ((p : RangePayload)
          → Builds sv e s c p
          → (d : Database) → HotReady s d
          → C d
          → Q (heated p.transfer_records p.indexed_blocks c d))
      → Triple
          (λ d. HotReady s d × C d)
          (process_hot_range sv e s c head)
          (λ _ d. Fine d × Q d)
          Never
  unfolding process_hot_range
  process_hot_range-serves C Q kept s c head le small makes =
      Triple-bind (read_clock sv.instant) _ (λ _ d. HotReady s d × C d) (Triple-clock _)
        λ t₀.
          Triple-bind (build_range_payload sv e s c) _ _
            (Triple-total _ (build_range_payload-Triple {E = λ _. Unit} (λ d h. tt) sv e s c)
              (build_range_payload-serves sv e top latest chain serving s c le small))
            λ build.
              Triple-weaken _ (λ d h. ((h.0.0, h.1.0), h.1.1)) (λ a d h. h)
                (Triple-fact _ λ (built, of_chain).
                  Triple-bind _ _ _
                    (validate-serves C Q kept s c head t₀ le small makes build built of_chain)
                    λ o. Triple-fact _ λ clean.
                      rw clean (
                        commit_hot-serves C Q kept s c head t₀ le small makes build built of_chain))
